-- ===== src/Cli/Run.antt =====
-- The commands (src/cli.rs) and their dispatch (src/main.rs).
use filehost.Base.{Bool, List}
use filehost.Base.Results.{Result, ok, err}
use filehost.Db.World.{World, DbError}
use filehost.Dedup.{Run, Rehashed}
use filehost.Nsfw.{Scanned, RensfwError}
use filehost.Cli.Lines.{Line, CliError, CliLibraries}
use filehost.Cli.Deletes.{DeleteTarget, remove_expired}
use filehost.Cli.Deletes
use filehost.Cli.Blacklists.{BlacklistCommand}
use filehost.Cli.Blacklists
use filehost.Cli.Bans.{BanTarget}
use filehost.Cli.Bans
use filehost.Cli.Stored.{Machine}
use filehost.Cli.Stored

-- `Command`; the flag of `dedup` is `--dry-run`, those of `rensfw` are `--all` and `--dry-run`.
pub data CliCommand : Type 0 where
  migrate delete_expired rehash : CliCommand
  delete : DeleteTarget → CliCommand
  dedup : Bool → CliCommand
  rensfw : Bool → Bool → CliCommand
  blacklist : BlacklistCommand → CliCommand
  ban : BanTarget → CliCommand

-- What a command prints, or the error with which the process exits with 1.
pub data Exit : Type 0 where
  printed : List Line → Exit
  migrations_applied : Exit
  deduplicated : Run → Exit
  rehashed : Rehashed → Exit
  scanned : Scanned → Exit
  refused : CliError → Exit
  failed : DbError → Exit
  unscanned : RensfwError → Exit

abbrev pub exit_with : {E A : Type 0} → (A → Exit) → (E → Exit) → Result E A → Exit
exit_with done stop (ok a) = done a
exit_with done stop (err e) = stop e

abbrev pub exits :
    {E A : Type 0} → (A → Exit) → (E → Exit) → (World → Result E A × World) → World → Exit × World
exits done stop m w = let (r, w') = m w in (exit_with done stop r, w')

-- The `match` of `main` on the command.
unfoldable pub dispatch : CliLibraries → Machine → CliCommand → World → Exit × World
dispatch lib machine CliCommand.migrate w =
    exits (λ u. Exit.migrations_applied) Exit.failed (Stored.migrate machine) w
dispatch lib machine CliCommand.delete_expired w = exits Exit.printed Exit.refused remove_expired w
dispatch lib machine (CliCommand.delete target) w =
    exits Exit.printed Exit.refused (Deletes.delete lib.collate target) w
dispatch lib machine (CliCommand.dedup dry_run) w =
    exits Exit.deduplicated Exit.failed (Stored.dedup_command machine dry_run) w
dispatch lib machine CliCommand.rehash w =
    exits Exit.rehashed Exit.failed (Stored.rehash_command machine) w
dispatch lib machine (CliCommand.rensfw all dry_run) w =
    exits Exit.scanned Exit.unscanned (Stored.rensfw_command machine all dry_run) w
dispatch lib machine (CliCommand.blacklist command) w =
    exits Exit.printed Exit.refused (Blacklists.blacklist lib command) w
dispatch lib machine (CliCommand.ban target) w =
    exits Exit.printed Exit.refused (Bans.ban lib target) w
