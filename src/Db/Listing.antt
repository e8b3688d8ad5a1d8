-- ===== src/Db/Listing.antt =====
-- The listing of uploads, and the pairs of duplicates (src/db.rs).
use filehost.Base.{
  ℕ, Bool, true, not, ◌&&◌, ◌||◌, Option, none, some, List, [], ◌∷◌, filter, take, drop, Bytes,
  bytes_eq, ltb, ◌==◌, if◌then◌else◌,
}
use filehost.Ip.Addr.{IpAddr, to_db_bytes}
use filehost.Db.Model.{Upload, Uuid, Score}
use filehost.Db.World.{Query, select}
use filehost.Db.Uploads.{is_active, has_hash, scored, stored_eq}

-- A clause that stands in the statement only if its argument is there.
abbrev pub clause {ℓ} : {A : Type ℓ} → Option A → (A → Upload → Bool) → Upload → Bool
clause none p u = true
clause (some a) p u = p a u

-- The arguments of `list_uploads`.
pub record ListUploads : Type 0 where
  pub ip : Option IpAddr
  pub slug : Option Bytes
  pub include_deleted : Bool
  pub min_nsfw_score : Option Score
  pub limit : ℕ
  pub offset : ℕ

module _ (collate : Bytes → Bytes) where
  -- The `WHERE` of `list_uploads`.
  unfoldable pub is_listed : ListUploads → Upload → Bool
  is_listed q u =
      (q.include_deleted || is_active u)
      && clause q.min_nsfw_score scored u
      && clause q.ip (λ ip u. stored_eq u.uploader_ip (to_db_bytes ip)) u
      && clause q.slug (λ slug u. bytes_eq (collate u.slug) (collate slug)) u

  -- `order` is `ORDER BY upload_timestamp DESC`, which leaves the order of the rows of one second to the
  -- database, for each statement anew.
  unfoldable pub list_uploads :
      (ListUploads → List Upload → List Upload) → ListUploads → Query (List Upload)
  list_uploads order q =
      select (λ now t. take q.limit (drop q.offset (order q (filter (is_listed q) t.uploads))))

pub record DedupPair : Type 0 where
  pub dup_id : Uuid
  pub canonical_id : Uuid

-- `ORDER BY upload_timestamp DESC, id DESC`: whether the first row stands after the second.
unfoldable pub is_older : Upload → Upload → Bool
is_older u v =
    ltb u.upload_timestamp v.upload_timestamp
    || ((u.upload_timestamp == v.upload_timestamp) && ltb u.id v.id)

-- The row with `rn = 1` of a partition.
unfoldable pub canonical_of : List Upload → Option Upload
canonical_of [] = none
canonical_of (u ∷ us) = elim (canonical_of us) [
  | none ↦ some u
  | some v ↦ some (if is_older u v then v else u)
]

-- The active rows with a hash.
abbrev pub with_hash : Bytes → List Upload → List Upload
with_hash hash us = filter (λ u. has_hash hash u && is_active u) us

-- What the join gives for one row `u`.
unfoldable pub pair_of : List Upload → Upload → Option DedupPair
pair_of us u = elim u.hash [
  | none ↦ none
  | some hash ↦ elim (canonical_of (with_hash hash us)) [
    | none ↦ none
    | some c ↦
        if is_active u && not (u.id == c.id)
        then some (record { dup_id = u.id; canonical_id = c.id })
        else none
  ]
]

unfoldable pub pairs_of : List Upload → List Upload → List DedupPair
pairs_of all [] = []
pairs_of all (u ∷ us) =
    let rest = pairs_of all us in elim (pair_of all u) [ none ↦ rest | some p ↦ p ∷ rest ]

unfoldable pub find_dedup_pairs : Query (List DedupPair)
find_dedup_pairs = select (λ now t. pairs_of t.uploads t.uploads)
