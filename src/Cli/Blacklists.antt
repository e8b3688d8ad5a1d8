-- ===== src/Cli/Blacklists.antt =====
-- The commands of src/cli.rs on the blacklists.
use filehost.Base.{ℕ, Option, none, some, List, [], Bytes, ascii}
use filehost.Base.Results.{ok, err, ◌>>=◌, ◌>>◌, pure, fail}
use filehost.Db.Bans.{list_blacklist, insert_blacklist, delete_blacklist}
use filehost.Sync.{sync_all}
use filehost.Cli.Lines.{
  Line, blacklist_row, added, removed, Command, query, prints, parse_ban_type, print_list_or_empty,
  removal_result, CliLibraries,
}

pub data BlacklistCommand : Type 0 where
  list sync : BlacklistCommand
  add : Bytes → ℕ → ℕ → BlacklistCommand
  remove : ℕ → BlacklistCommand

module _ (lib : CliLibraries) where
  -- The last synchronisation, as the time library prints it.
  abbrev pub shown_update : Option ℕ → Bytes
  shown_update none = ascii "never"
  shown_update (some t) = lib.show_time t

  -- `add_blacklist`.
  unfoldable pub add_blacklist : Bytes → ℕ → ℕ → Command (List Line)
  add_blacklist url type_ interval = elim (parse_ban_type type_) [
    | err e ↦ fail e
    | ok ban_type ↦ query (insert_blacklist url ban_type interval) >>= λ entry. prints (added entry)
  ]

  unfoldable pub blacklist : BlacklistCommand → Command (List Line)
  blacklist BlacklistCommand.list = query list_blacklist >>= λ entries. pure (
      print_list_or_empty entries (ascii "No blacklist entries.")
        (λ e. blacklist_row e (shown_update e.last_update)))
  blacklist (BlacklistCommand.add url type_ interval) = add_blacklist url type_ interval
  blacklist (BlacklistCommand.remove entry) =
      query (delete_blacklist entry) >>= λ found. removal_result found (removed entry)
  -- What came of each list is only logged.
  blacklist BlacklistCommand.sync = query (sync_all lib.parse_v4 lib.request) >> pure []
