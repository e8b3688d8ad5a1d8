-- ===== src/Dedup.antt =====
-- Deduplication and hashing of stored files (src/dedup.rs). The store is what stands at the path of
-- each UUID; a link's target is the UUID of the path it names. A failing system call is an argument.
pub mod Content
pub mod Pairs
pub mod Whole
pub mod Hashes
mod Tests
use filehost.Base.{
  ℕ, ◌+◌, Bool, true, false, Option, none, some, List, [], ◌∷◌, ◌++◌, length, Bytes, ◌==◌,
  if◌then◌else◌,
}
use filehost.Base.Results.{Result, ok, err}
use filehost.Db.Model.{Uuid}
use filehost.Db.Listing.{DedupPair, find_dedup_pairs}
use filehost.Db.World.{World, Query}
use filehost.Db.Uploads.{update_upload_hash, uploads_missing_hash}

abbrev pub Groups : Type 0
Groups = List (Uuid × List Uuid)

-- `entry(…).or_default().push(…)`.
unfoldable pub push_to : Uuid → Uuid → Groups → Groups
push_to canonical dup [] = (canonical, dup ∷ []) ∷ []
push_to canonical dup ((c, dups) ∷ groups) =
    if c == canonical
    then (c, dups ++ (dup ∷ [])) ∷ groups
    else (c, dups) ∷ push_to canonical dup groups

-- The loop of `group_by_canonical`, with the map so far.
unfoldable pub group_into : Groups → List DedupPair → Groups
group_into groups [] = groups
group_into groups (pair ∷ pairs) = group_into (push_to pair.canonical_id pair.dup_id groups) pairs

unfoldable pub group_by_canonical : List DedupPair → Groups
group_by_canonical pairs = group_into [] pairs

pub data Node : Type 0 where
  regular : Bytes → Node
  symlink : Uuid → Node

abbrev pub Store : Type 0
Store = Uuid → Option Node

abbrev pub put : Uuid → Node → Store → Store
put id node store j = if j == id then some node else store j

-- The numbers that the run prints, with the store.
pub record Run : Type 0 where
  pub store : Store
  pub linked : ℕ
  pub already_linked : ℕ
  pub skipped : ℕ
  pub errors : ℕ

module _ (dry_run : Bool) (can_link can_resolve : Uuid → Bool) where
  -- The body of the inner loop. `can_link` is whether `replace_with_symlink` succeeds; if it fails, it
  -- leaves the path as it was.
  unfoldable pub link_one : Uuid → Uuid → Run → Run
  link_one canonical dup run = elim (run.store dup) [
    | none ↦ record run { skipped = run.skipped + 1 }
    | some node ↦ elim node [
      | Node.symlink target ↦
          if target == canonical
          then (record run { already_linked = run.already_linked + 1 })
          else (record run { skipped = run.skipped + 1 })
      | Node.regular bytes ↦
          if dry_run
          then (record run { linked = run.linked + 1 })
          else if can_link dup
          then (record run {
            store = put dup (Node.symlink canonical) run.store;
            linked = run.linked + 1;
          })
          else (record run { errors = run.errors + 1 })
    ]
  ]

  unfoldable pub link_all : Uuid → List Uuid → Run → Run
  link_all canonical [] run = run
  link_all canonical (dup ∷ dups) run = link_all canonical dups (link_one canonical dup run)

  -- The body of the outer loop. `can_resolve` is whether `canonicalize` succeeds.
  unfoldable pub link_group : Uuid × List Uuid → Run → Run
  link_group (canonical, dups) run = elim (run.store canonical) [
    | none ↦ record run { errors = run.errors + length dups }
    | some node ↦ elim node [
      | Node.symlink target ↦ record run { skipped = run.skipped + length dups }
      | Node.regular bytes ↦
          if can_resolve canonical
          then link_all canonical dups run
          else (record run { errors = run.errors + length dups })
    ]
  ]

  unfoldable pub dedup : Groups → Run → Run
  dedup [] run = run
  dedup (g ∷ gs) run = dedup gs (link_group g run)

-- `rehash`: `hash_of` is the BLAKE3 hash of the file of an upload, `none` where it cannot be read.
-- The result counts the files hashed, skipped and failed.
pub record Rehashed : Type 0 where
  pub hashed : ℕ
  pub skipped : ℕ
  pub errors : ℕ

unfoldable pub rehash_each : (Uuid → Option Bytes) → List Uuid → Rehashed → World → Rehashed × World
rehash_each hash_of [] n w = (n, w)
rehash_each hash_of (id ∷ ids) n w = elim (hash_of id) [
  | none ↦ rehash_each hash_of ids (record n { skipped = n.skipped + 1 }) w
  | some h ↦
      let (r, w') = update_upload_hash id h w in
      elim r [
        | ok u ↦ rehash_each hash_of ids (record n { hashed = n.hashed + 1 }) w'
        | err e ↦ rehash_each hash_of ids (record n { errors = n.errors + 1 }) w'
      ]
]

unfoldable pub rehash : (Uuid → Option Bytes) → Query Rehashed
rehash hash_of w =
    let (r, w') = uploads_missing_hash w in
    elim r [
      | err e ↦ (err e, w')
      | ok ids ↦
          let (n, w'') =
            rehash_each hash_of ids (record { hashed = 0; skipped = 0; errors = 0 }) w' in
          (ok n, w'')
    ]

-- The whole of `dedup`: the pairs that the database finds, over the store. The groups come in the
-- order of their first pairs; the source's map hands them out in an order of its own.
unfoldable pub dedup_store : Bool → (Uuid → Bool) → (Uuid → Bool) → Store → Query Run
dedup_store dry_run can_link can_resolve store w =
    let (r, w') = find_dedup_pairs w in
    elim r [
      | err e ↦ (err e, w')
      | ok pairs ↦ (
        ok (
            dedup dry_run can_link can_resolve (group_by_canonical pairs)
              (record { store = store; linked = 0; already_linked = 0; skipped = 0; errors = 0 })),
        w',
      )
    ]
