-- ===== src/Dedup/Hashes.antt =====
-- What a run of `rehash` (src/dedup.rs) leaves in the table of uploads.
use mathlib.Core.Path.{ap, ap₂, subst}
use filehost.Base.{
  ℕ, ◌+◌, ◌-◌, ◌≡◌, sym, ◌∙◌, inl, inr, Bool, not, ◌&&◌, Option, none, some, List, [], ◌∷◌, All,
  Bytes, map, filter, length, Bool-cases, Option-cases, if◌then◌else◌, arith,
}
use filehost.Base.Results.{ok}
use filehost.Db.Model.{Upload, Uuid}
use filehost.Db.World.{World}
use filehost.Db.Uploads.{
  is_active, is_some, update_where_id, uploads_missing_hash, update_upload_hash,
}
use filehost.Db.Deletes.{ids}
use filehost.Db.Deleted.{IsKeyed, uploads_of}
use filehost.Db.Updated.{
  updates, updates-filter, with_uploads, set_row, set_count, set_count-le, update_row-none,
  update_row-some,
}
use filehost.Dedup.{Node, Store, Rehashed, rehash_each, rehash}
use filehost.Dedup.Whole.{IsHashed}

-- The uploads that a run hashes.
abbrev pub misses_hash : Upload → Bool
misses_hash u = not (is_some u.hash) && is_active u

abbrev hashed : Bytes → Upload → Upload
hashed h u = record u { hash = some h }

-- A row with its hash, if its file can be read.
abbrev pub hashed_row : (Uuid → Option Bytes) → Uuid → Upload → Upload
hashed_row hash_of = set_row hash_of hashed

-- How many of the uploads have a file that can be read.
abbrev pub readable : (Uuid → Option Bytes) → List Upload → ℕ
readable hash_of = set_count hash_of hashed

hashed_row-id :
    (hash_of : Uuid → Option Bytes) (i : Uuid) (u : Upload) → (hashed_row hash_of i u).id ≡ u.id
hashed_row-id hash_of i u = ground arith

module _ (hash_of : Uuid → Option Bytes) where
  abbrev after_run : List Upload → World → World
  after_run us w =
      with_uploads (updates (hashed_row hash_of) (hashed_row-id hash_of) (ids us) (uploads_of w)) w

  abbrev counts : List Upload → Rehashed → Rehashed
  counts us n = record {
    hashed = n.hashed + readable hash_of us;
    skipped = n.skipped + (length us - readable hash_of us);
    errors = n.errors;
  }

  update_upload_hash-run :
      (id : Uuid) (h : Bytes) (w : World)
      → w.outages ≡ []
      → update_upload_hash id h w
        ≡ (ok tt, with_uploads (update_where_id id (hashed h) (uploads_of w)) w)
  unfolding update_upload_hash
  update_upload_hash-run id h w up = ground (arith, up)

  rehash_each-none :
      (i : Uuid) (is : List Uuid) (n : Rehashed) (w : World)
      → hash_of i ≡ none
      → rehash_each hash_of (i ∷ is) n w
        ≡ rehash_each hash_of is (record n { skipped = n.skipped + 1 }) w
  unfolding rehash_each
  rehash_each-none i is n w e = ground (arith, e)

  rehash_each-some :
      (i : Uuid) (is : List Uuid) (h : Bytes) (n : Rehashed) (w w' : World)
      → hash_of i ≡ some h
      → update_upload_hash i h w ≡ (ok tt, w')
      → rehash_each hash_of (i ∷ is) n w
        ≡ rehash_each hash_of is (record n { hashed = n.hashed + 1 }) w'
  unfolding rehash_each
  rehash_each-some i is h n w w' e wrote = ground (arith, e, wrote)

  -- The run over the ids of a list of uploads.
  rehash_each-run :
      (us : List Upload) (n : Rehashed) (w : World)
      → w.outages ≡ []
      → rehash_each hash_of (ids us) n w ≡ (counts us n, after_run us w)
  unfolding rehash_each updates
  rehash_each-run [] n w up = ground arith
  rehash_each-run (u ∷ us) n w up = elim (Option-cases (hash_of u.id)) [
    | inl e ↦
        let n' : Rehashed = record n { skipped = n.skipped + 1 } in
        let count : counts us n' ≡ counts (u ∷ us) n =
          ground (arith, e, set_count-le hash_of hashed us) in
        let same : after_run us w ≡ after_run (u ∷ us) w =
          ap
            (λ vs.
              with_uploads (updates (hashed_row hash_of) (hashed_row-id hash_of) (ids us) vs) w)
            (sym (update_row-none hash_of hashed u.id (uploads_of w) e)) in
        rehash_each-none u.id (ids us) n w e
        ∙ rehash_each-run us n' w up
        ∙ ap₂ (λ c v. (c, v)) count same
    | inr (h, e) ↦
        let n' : Rehashed = record n { hashed = n.hashed + 1 } in
        let w' = with_uploads (update_where_id u.id (hashed_row hash_of u.id) (uploads_of w)) w in
        let wrote : update_upload_hash u.id h w ≡ (ok tt, w') =
          update_upload_hash-run u.id h w up
          ∙ ap (λ vs. (ok tt, with_uploads vs w))
              (update_row-some hash_of hashed u.id h (uploads_of w) e) in
        let count : counts us n' ≡ counts (u ∷ us) n =
          ground (arith, e, set_count-le hash_of hashed us) in
        rehash_each-some u.id (ids us) h n w w' e wrote
        ∙ rehash_each-run us n' w' up
        ∙ ap (λ c. (c, after_run us w')) count
  ]

  abbrev start : Rehashed
  start = record { hashed = 0; skipped = 0; errors = 0 }

  rehash-run :
      (w : World)
      → w.outages ≡ []
      → let each = rehash_each hash_of (ids (filter misses_hash w.tables.uploads)) start w in
        rehash hash_of w ≡ (ok each.0, each.1)
  unfolding rehash uploads_missing_hash
  rehash-run w up = ground (arith, up)

module _ (blake3 : Bytes → Bytes) (store : Store) (hash_of : Uuid → Option Bytes)
    (is_blake3 : (id : Uuid) (h bytes : Bytes)
      → hash_of id ≡ some h
      → store id ≡ some (Node.regular bytes)
      → h ≡ blake3 bytes) where
  hashed_row-IsHashed :
      (u : Upload) → IsHashed blake3 store u → IsHashed blake3 store (hashed_row hash_of u.id u)
  hashed_row-IsHashed u old h bytes e f = elim (Option-cases (hash_of u.id)) [
    | inl none_ ↦ old h bytes (ground (arith, none_, e)) (ground (arith, none_, f))
    | inr (k, found) ↦
        let same : k ≡ h = ground (arith, found, e) in
        sym same ∙ is_blake3 u.id k bytes found (ground (arith, found, f))
  ]

  map-IsHashed :
      (us : List Upload)
      → All (IsHashed blake3 store) us
      → All
          (IsHashed blake3 store)
          (map (λ u. if misses_hash u then hashed_row hash_of u.id u else u) us)
  map-IsHashed [] h = tt
  map-IsHashed (u ∷ us) (here, h) = elim (Bool-cases (misses_hash u)) [
    | inl e ↦ rw e (hashed_row-IsHashed u here, map-IsHashed us h)
    | inr e ↦ rw e (here, map-IsHashed us h)
  ]

  -- Where every query is answered and no two rows have one id: of the active uploads without a hash,
  -- each whose file can be read gets its hash in the table, every other row stays as it was, and the
  -- run answers how many were hashed and how many skipped, with no error. Recorded hashes that were
  -- those of the files still are, so that a deduplication may follow.
  pub rehash_lem :
      (w : World)
      → w.outages ≡ []
      → IsKeyed w.tables.uploads
      → All (IsHashed blake3 store) w.tables.uploads
      → let us = filter misses_hash w.tables.uploads in
        let (r, w') = rehash hash_of w in
        (r
          ≡ ok (record {
            hashed = readable hash_of us;
            skipped = length us - readable hash_of us;
            errors = 0;
          }))
        × (w'.tables.uploads
            ≡ map (λ u. if misses_hash u then hashed_row hash_of u.id u else u) w.tables.uploads)
        × All (IsHashed blake3 store) w'.tables.uploads
  rehash_lem w up keyed old =
      let us = filter misses_hash w.tables.uploads in
      let run = rehash-run hash_of w up in
      let each = rehash_each-run hash_of us (start hash_of) w up in
      let rows =
        ap (λ q. uploads_of q.1) run
        ∙ ap (λ q. uploads_of q.1) each
        ∙ updates-filter (hashed_row hash_of) (hashed_row-id hash_of) misses_hash w.tables.uploads
            keyed in
      (
        ap (λ q. q.0) run ∙ ap (λ q. ok q.0) each ∙ ap ok (ground arith),
        rows,
        subst (All (IsHashed blake3 store)) (sym rows) (map-IsHashed w.tables.uploads old),
      )
