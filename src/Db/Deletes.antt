-- ===== src/Db/Deletes.antt =====
-- The soft deletes of src/db.rs: `delete_one`, `delete_matching` and what calls it. A clause of the
-- source's SQL is a test of a row at the database's NOW(); `AND deleted_timestamp IS NULL` is `matches`.
use filehost.Base.{
  ℕ, Bool, not, ◌&&◌, some, List, [], ◌∷◌, map, length, filter, Bytes, bytes_eq, leb, ◌==◌,
  if◌then◌else◌,
}
use filehost.Base.Results.{Result, ok, err, Step, ◌>>=◌, ◌>>◌, pure, modify}
use filehost.Ip.Addr.{IpAddr, to_db_bytes, same_family}
use filehost.Db.Model.{Upload, Uuid}
use filehost.Db.World.{World, DbError, Query, statement, select}
use filehost.Db.Uploads.{stored_eq, stored_between, is_active, update_where_id}

-- `std::fs::remove_file`, whose failure is only logged.
unfoldable pub remove_file : Uuid → World → World
remove_file id w = record w {
  files = if w.locked id then w.files else filter (λ f. not (f == id)) w.files;
}

abbrev pub mark : ℕ → Upload → Upload
mark now u = record u { deleted_timestamp = some now }

unfoldable pub delete_one : Uuid → Query (Unit {0})
delete_one id =
    modify (remove_file id)
    >> statement (λ now t. (tt, record t { uploads = update_where_id id (mark now) t.uploads }))

unfoldable pub delete_each : List Uuid → Query (Unit {0})
delete_each [] = pure tt
delete_each (id ∷ ids) = delete_one id >> delete_each ids

abbrev pub matches : (ℕ → Upload → Bool) → ℕ → Upload → Bool
matches clause now u = clause now u && is_active u

abbrev pub ids : List Upload → List Uuid
ids us = map (λ (u : Upload). u.id) us

unfoldable pub delete_matching : (ℕ → Upload → Bool) → Query ℕ
delete_matching clause = select (λ now t. ids (filter (matches clause now) t.uploads)) >>= λ rows.
    delete_each rows >> pure (length rows)

unfoldable pub delete_expired : Query ℕ
delete_expired = delete_matching (λ now u. leb u.expiry_timestamp now)

unfoldable pub delete_by_id : Uuid → Query ℕ
delete_by_id id = delete_matching (λ now u. u.id == id)

unfoldable pub delete_by_ip : IpAddr → Query ℕ
delete_by_ip ip = delete_matching (λ now u. stored_eq u.uploader_ip (to_db_bytes ip))

unfoldable pub delete_by_slug : (Bytes → Bytes) → Bytes → Query ℕ
delete_by_slug collate slug = delete_matching (λ now u. bytes_eq (collate u.slug) (collate slug))

-- What `delete_by_ip_range` fails with.
pub data RangeError : Type 0 where
  mixed_families : RangeError
  database : DbError → RangeError

abbrev pub in_range : IpAddr → IpAddr → ℕ → Upload → Bool
in_range start end now u = stored_between u.uploader_ip (to_db_bytes start) (to_db_bytes end)

abbrev pub lift : Result DbError ℕ × World → Result RangeError ℕ × World
lift (r, w) = elim r [ ok n ↦ (ok n, w) | err e ↦ (err (RangeError.database e), w) ]

unfoldable pub delete_by_ip_range : IpAddr → IpAddr → Step World RangeError ℕ
delete_by_ip_range start end w =
    if same_family start end
    then (lift (delete_matching (in_range start end) w))
    else (err RangeError.mixed_families, w)
