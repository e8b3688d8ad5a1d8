-- ===== src/Nsfw.antt =====
-- `rensfw` (src/nsfw.rs): the loop over the uploads to scan. The model's inference is a library's:
-- `classify` is the score of an upload's file, `none` where it cannot be read or classified.
pub mod Classify
pub mod Layout
pub mod Scores
mod Tests
use filehost.Base.{ℕ, ◌+◌, Bool, Option, none, some, List, [], ◌∷◌, if◌then◌else◌}
use filehost.Base.Results.{ok, err, Step}
use filehost.Db.Model.{Uuid, Score}
use filehost.Db.World.{World, DbError}
use filehost.Db.Uploads.{uploads_for_nsfw_scan, update_nsfw_score}

-- The numbers that the run prints.
pub record Scanned : Type 0 where
  pub scanned : ℕ
  pub errors : ℕ

-- Why a run does not start: there is no model, or the query failed.
pub data RensfwError : Type 0 where
  no_model : RensfwError
  database : DbError → RensfwError

module _ (classify : Uuid → Option Score) (dry_run : Bool) where
  -- The write of a score, whose failure is only logged.
  unfoldable pub write_score : Uuid → Score → World → World
  write_score id score w = if dry_run then w else (update_nsfw_score id score w).1

  unfoldable pub rensfw_each : List Uuid → Scanned → World → Scanned × World
  rensfw_each [] n w = (n, w)
  rensfw_each (id ∷ ids) n w = elim (classify id) [
    | none ↦ rensfw_each ids (record n { errors = n.errors + 1 }) w
    | some score ↦ rensfw_each ids (record n { scanned = n.scanned + 1 }) (write_score id score w)
  ]

-- `rensfw`, with the model that was loaded, if one was.
unfoldable pub rensfw : Option (Uuid → Option Score) → Bool → Bool → Step World RensfwError Scanned
rensfw none all dry_run w = (err RensfwError.no_model, w)
rensfw (some classify) all dry_run w =
    let (r, w') = uploads_for_nsfw_scan all w in
    elim r [
      | err e ↦ (err (RensfwError.database e), w')
      | ok ids ↦
          let (n, w'') = rensfw_each classify dry_run ids (record { scanned = 0; errors = 0 }) w' in
          (ok n, w'')
    ]
