-- ===== src/Handlers/Infected.antt =====
-- What is left of an upload that the virus scanner finds infected.
use mathlib.Core.Path.{ap, subst}
use filehost.Base.{
  ℕ, ◌≡◌, refl, sym, ◌∙◌, inl, inr, Bool, true, false, some, List, [], ◌∷◌, ◌++◌, any, Bytes,
  bytes_eq, bytes_eq_refl, ascii, ◌==◌, Bool-cases, arith, if◌then◌else◌,
}
use filehost.Base.Results.{ok}
use filehost.Ttl.Cache.{invalidate}
use filehost.Db.Model.{Upload, Tables, Uuid, BannedKey}
use filehost.Db.World.{World}
use filehost.Db.Deletes.{remove_file, delete_matching, delete_by_id}
use filehost.Db.Deleted.{after, all_deleted, IsKeyed, delete_matching_lem, delete_matching-keeps}
use filehost.Db.Bans.{varchar, insert_banned, same_key}
use filehost.Guard.BanCache.{is_hash_banned, invalidate_hashes}
use filehost.Guard.Fresh.{is_hash_banned-empty}
use filehost.Handlers.Scans.{ScanResult, ban_hash, clamd_task}

abbrev has : Bytes → BannedKey → Bool
has hash r = bytes_eq r.key hash

-- The state with the hash banned and the cache emptied.
abbrev add_key : Bytes → Bytes → Tables → Tables
add_key hash reason t = if any (has hash) t.banned_file_hashes then t else (record t {
  banned_file_hashes =
      t.banned_file_hashes ++ (record { key = hash; reason = some (varchar 255 reason) } ∷ []);
})

abbrev banned : Bytes → Bytes → World → World
banned hash reason w = record w {
  tables = add_key hash reason w.tables;
  caches = record w.caches { hashes = [] };
}

ban_hash-run :
    (hash reason : Bytes) (w : World)
    → w.outages ≡ []
    → ban_hash hash reason w ≡ banned hash reason w
unfolding ban_hash insert_banned same_key invalidate_hashes invalidate
ban_hash-run hash reason w up = ground (arith, up)

any_last :
    (hash reason : Bytes) (rows : List BannedKey)
    → any (has hash) (rows ++ (record { key = hash; reason = some (varchar 255 reason) } ∷ []))
      ≡ true
any_last hash reason [] = ground (arith, bytes_eq_refl hash)
any_last hash reason (r ∷ rows) = ground (arith, any_last hash reason rows)

with_key :
    (hash reason : Bytes) (t : Tables) (b : Bool)
    → any (has hash) t.banned_file_hashes ≡ b
    → any (has hash) (add_key hash reason t).banned_file_hashes
      ≡ any
          (has hash)
          (if b then t else (record t {
            banned_file_hashes =
                t.banned_file_hashes
                ++ (record { key = hash; reason = some (varchar 255 reason) } ∷ []);
          })).banned_file_hashes
with_key hash reason t b e =
    ap
      (λ b.
        any (has hash)
          (if b then t else (record t {
            banned_file_hashes =
                t.banned_file_hashes
                ++ (record { key = hash; reason = some (varchar 255 reason) } ∷ []);
          })).banned_file_hashes)
      e

has_key :
    (hash reason : Bytes) (t : Tables)
    → any (has hash) (add_key hash reason t).banned_file_hashes ≡ true
has_key hash reason t = elim (Bool-cases (any (has hash) t.banned_file_hashes)) [
  | inl e ↦ with_key hash reason t true e ∙ e
  | inr e ↦ with_key hash reason t false e ∙ any_last hash reason t.banned_file_hashes
]

same_uploads : (hash reason : Bytes) (t : Tables) → (add_key hash reason t).uploads ≡ t.uploads
same_uploads hash reason t = ground (arith, Bool-cases (any (has hash) t.banned_file_hashes))

after_lem :
    (id : Uuid) (w : World)
    → ((after id w).outages ≡ w.outages)
      × ((after id w).caches.hashes ≡ w.caches.hashes)
      × ((after id w).tables.banned_file_hashes ≡ w.tables.banned_file_hashes)
unfolding remove_file
after_lem id w = (refl, refl, refl)

-- Where every query is answered and no two rows have one id, once the scanner has found an upload
-- infected, its row has the present time as its deletion time if it had none, nothing else of the table
-- of uploads has changed, and the next check of its hash finds it banned, whatever the cache held
-- before.
pub clamd_task-infected :
    (name : Bytes) (uuid : Uuid) (hash : Bytes) (ttl : ℕ) (w : World)
    → w.outages ≡ []
    → IsKeyed w.tables.uploads
    → let w' = clamd_task (some (ScanResult.infected name)) uuid hash w in
      (w'.tables.uploads ≡ all_deleted (λ u. u.id == uuid) w.now w.tables.uploads)
      × ((is_hash_banned ttl hash w').0 ≡ ok true)
unfolding clamd_task delete_by_id
clamd_task-infected name uuid hash ttl w up keyed =
    let reason = ascii "clamd: " ++ name in
    let clause : ℕ → Upload → Bool = λ now u. u.id == uuid in
    let wb = banned hash reason w in
    let ban = ban_hash-run hash reason w up in
    let same = same_uploads hash reason w.tables in
    let done = (delete_matching_lem clause wb up (subst IsKeyed (sym same) keyed)).1 in
    let after_ban = (delete_matching clause wb).1 in
    let up' =
      delete_matching-keeps (λ v. v.outages) (λ id v. (after_lem id v).0) clause wb up ∙ up in
    let empty =
      delete_matching-keeps (λ v. v.caches.hashes) (λ id v. (after_lem id v).1) clause wb up in
    let kept =
      delete_matching-keeps (λ v. v.tables.banned_file_hashes) (λ id v. (after_lem id v).2) clause
        wb up in
    (
      ap (λ v. (delete_matching clause v).1.tables.uploads) ban
          ∙ done
          ∙ ap (all_deleted (λ u. u.id == uuid) w.now) same,
      ap (λ v. (is_hash_banned ttl hash (delete_matching clause v).1).0) ban
          ∙ is_hash_banned-empty ttl after_ban up' hash empty
          ∙ ap ok (ap (any (has hash)) kept ∙ has_key hash reason w.tables),
    )
