-- ===== src/Cli/Stored.antt =====
-- The commands of src/cli.rs on the migrations and the stored files. The database has all migrations, so
-- that a run of them, the library's, changes nothing; `migrated` is whether it could look.
use filehost.Base.{Bool, Option, Bytes, if◌then◌else◌}
use filehost.Base.Results.{ok, err, Step}
use filehost.Db.Model.{Uuid, Score}
use filehost.Db.World.{World, DbError}
use filehost.Dedup.{Store, Run, Rehashed, dedup_store}
use filehost.Dedup
use filehost.Nsfw.{Scanned, RensfwError}
use filehost.Nsfw

-- What the commands find outside of the database: whether the migrations could be looked at, the stored
-- files, which of them can be linked and resolved, their hashes, and the model, if it was loaded.
pub record Machine : Type 0 where
  pub migrated : Bool
  pub store : Store
  pub can_link : Uuid → Bool
  pub can_resolve : Uuid → Bool
  pub hash_of : Uuid → Option Bytes
  pub model : Option (Uuid → Option Score)

unfoldable pub migrate : Machine → Step World DbError (Unit {0})
migrate machine w = (if machine.migrated then ok tt else err DbError.unavailable, w)

unfoldable pub dedup_command : Machine → Bool → Step World DbError Run
dedup_command machine dry_run =
    dedup_store dry_run machine.can_link machine.can_resolve machine.store

unfoldable pub rehash_command : Machine → Step World DbError Rehashed
rehash_command machine = Dedup.rehash machine.hash_of

unfoldable pub rensfw_command : Machine → Bool → Bool → Step World RensfwError Scanned
rensfw_command machine all dry_run = Nsfw.rensfw machine.model all dry_run
