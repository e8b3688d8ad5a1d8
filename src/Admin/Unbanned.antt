-- ===== src/Admin/Unbanned.antt =====
-- The routes of src/admin.rs that ban a hash and take the ban back, and the check of hashes after each.
use mathlib.Core.Path.{ap}
use filehost.Base.{
  ℕ, ◌≡◌, refl, ◌∙◌, true, false, not, Option, some, List, [], ◌∷◌, ◌++◌, any, any-append, filter,
  length, Bytes, bytes_eq, bytes_eq_refl, arith,
}
use filehost.Base.Results.{ok}
use filehost.Hex.{hex_decode}
use filehost.Ttl.Cache.{invalidate}
use filehost.Db.Model.{BannedKey}
use filehost.Db.World.{World}
use filehost.Db.Bans.{kept_reason, same_key, insert_banned, delete_banned, banned_hashes}
use filehost.Guard.BanCache.{is_hash_banned, invalidate_hashes}
use filehost.Guard.Fresh.{is_hash_banned-empty}
use filehost.Admin.Reply.{Body, respond_created, respond_removed}
use filehost.Admin.Bans.{KeyCreate, add_banned_hash, remove_banned_hash}

-- The state with one more banned hash and the cache emptied, and that with the cache emptied alone.
abbrev with_hash : Bytes → Option Bytes → World → World
with_hash hash reason w = record w {
  tables = record w.tables {
    banned_file_hashes =
        w.tables.banned_file_hashes ++ (record { key = hash; reason = reason } ∷ []);
  };
  caches = record w.caches { hashes = [] };
}

abbrev without_caches : World → World
without_caches w = record w { caches = record w.caches { hashes = [] } }

add_banned_hash-run :
    (body : KeyCreate) (hash : Bytes) (w : World)
    → w.outages ≡ []
    → hex_decode body.key ≡ some hash
    → length hash ≡ 32
    → any (same_key banned_hashes hash) w.tables.banned_file_hashes ≡ false
    → add_banned_hash body w
      ≡ (record { status = 201; body = Body.empty }, with_hash hash (kept_reason body.reason) w)
unfolding add_banned_hash insert_banned respond_created invalidate_hashes invalidate
add_banned_hash-run body hash w up decoded long fresh = ground (arith, up, decoded, long, fresh)

has_last :
    (hash : Bytes) (reason : Option Bytes) (rows : List BannedKey)
    → any (same_key banned_hashes hash) (rows ++ (record { key = hash; reason = reason } ∷ []))
      ≡ true
unfolding same_key
has_last hash reason [] = ground (arith, bytes_eq_refl hash)
has_last hash reason (r ∷ rows) = ground (arith, has_last hash reason rows)

drop_last :
    (hash : Bytes) (reason : Option Bytes) (rows : List BannedKey)
    → any (same_key banned_hashes hash) rows ≡ false
    → filter
        (λ r. not (same_key banned_hashes hash r))
        (rows ++ (record { key = hash; reason = reason } ∷ []))
      ≡ rows
unfolding same_key
drop_last hash reason [] h = ground (arith, bytes_eq_refl hash)
drop_last hash reason (r ∷ rows) h = ground (arith, drop_last hash reason rows)

remove_banned_hash-run :
    (hex hash : Bytes) (reason : Option Bytes) (w : World)
    → w.outages ≡ []
    → hex_decode hex ≡ some hash
    → any (same_key banned_hashes hash) w.tables.banned_file_hashes ≡ false
    → remove_banned_hash hex (with_hash hash reason w)
      ≡ (record { status = 204; body = Body.empty }, without_caches w)
unfolding remove_banned_hash delete_banned respond_removed invalidate_hashes invalidate
remove_banned_hash-run hex hash reason w up decoded fresh = ground (
  arith,
  up,
  decoded,
  has_last hash reason w.tables.banned_file_hashes,
  drop_last hash reason w.tables.banned_file_hashes fresh,
)

-- Where every query is answered, a hash of 32 bytes that is not banned can be banned, and its removal
-- by the same text is answered with 204 and leaves the tables as they were before both, and the next
-- check of any hash answers what it would have by them, whatever the cache held.
pub remove_banned_hash-add_banned_hash :
    (ttl : ℕ) (body : KeyCreate) (hash other : Bytes) (w : World)
    → w.outages ≡ []
    → hex_decode body.key ≡ some hash
    → length hash ≡ 32
    → any (same_key banned_hashes hash) w.tables.banned_file_hashes ≡ false
    → let (r, w') = add_banned_hash body w in
      let (r', w'') = remove_banned_hash body.key w' in
      (r ≡ record { status = 201; body = Body.empty })
      × (r' ≡ record { status = 204; body = Body.empty })
      × (w''.tables ≡ w.tables)
      × ((is_hash_banned ttl hash w').0 ≡ ok true)
      × ((is_hash_banned ttl other w'').0
          ≡ ok (any (λ r. bytes_eq r.key other) w.tables.banned_file_hashes))
remove_banned_hash-add_banned_hash ttl body hash other w up decoded long fresh =
    let added = add_banned_hash-run body hash w up decoded long fresh in
    let w' = with_hash hash (kept_reason body.reason) w in
    let removed =
      remove_banned_hash-run body.key hash (kept_reason body.reason) w up decoded fresh in
    (
      ap (λ q. q.0) added,
      ap (λ q. (remove_banned_hash body.key q.1).0) added ∙ ap (λ q. q.0) removed,
      ap (λ q. (remove_banned_hash body.key q.1).1.tables) added ∙ ap (λ q. q.1.tables) removed,
      ap (λ q. (is_hash_banned ttl hash q.1).0) added
          ∙ is_hash_banned-empty ttl w' up hash refl
          ∙ ap ok (
              any-append (λ r. bytes_eq r.key hash) w.tables.banned_file_hashes _
              ∙ ground (arith, bytes_eq_refl hash)),
      ap (λ q. (is_hash_banned ttl other (remove_banned_hash body.key q.1).1).0) added
          ∙ ap (λ q. (is_hash_banned ttl other q.1).0) removed
          ∙ is_hash_banned-empty ttl (without_caches w) up other refl,
    )
