-- ===== src/Dedup/Tests.antt =====
-- A deduplication at a store of three files, of which two have the same bytes.
use filehost.Base.{
  ℕ, arith, Option, none, map, filter, length, ◌-◌, ◌≡◌, sym, ◌∙◌, All, refl, true, false, some, [],
  ◌∷◌, Bytes, ascii, ◌==◌, if◌then◌else◌,
}
use filehost.Db.Model.{Uuid, Upload}
use filehost.Base.Results.{ok}
use filehost.Db.World.{World}
use filehost.Db.Samples.{sample, sample_tables, upload_row}
use filehost.Dedup.{
  Node, Store, Groups, Run, group_by_canonical, group_into, push_to, dedup_store, rehash,
}
use filehost.Dedup.Content.{Reads}
use filehost.Dedup.Hashes.{misses_hash, hashed_row, readable, rehash_lem}
use filehost.Dedup.Whole.{IsHashed, HasNoCollision, dedup_store-Reads}

abbrev three_files : Store
three_files id =
    if id == 1
    then some (Node.regular (ascii "x"))
    else (if id == 2 then some (Node.regular (ascii "x")) else some (Node.regular (ascii "y")))

abbrev groups : Groups
groups = (2, 1 ∷ []) ∷ []

groups_example : group_by_canonical (record { dup_id = 1; canonical_id = 2 } ∷ []) ≡ groups
unfolding group_by_canonical group_into push_to
groups_example = refl

-- The store's rows, each with the hash of its file; the hash is the file's bytes.
abbrev stored_row : Uuid → Bytes → Upload
stored_row id bytes = record (upload_row id bytes 500) { hash = some bytes }

abbrev world : World
world = record sample {
  tables = record sample_tables {
    uploads = stored_row 1 (ascii "x") ∷ stored_row 2 (ascii "x") ∷ stored_row 3 (ascii "y") ∷ [];
  };
}

identity_distinct : HasNoCollision (λ b. b) three_files
identity_distinct i j a b h k e = e

stored_row-IsHashed :
    (id : Uuid) (file : Bytes)
    → three_files id ≡ some (Node.regular file)
    → IsHashed (λ b. b) three_files (stored_row id file)
stored_row-IsHashed id file h hash bytes e r = let both = sym h ∙ r in cc

All-IsHashed : All (IsHashed (λ b. b) three_files) world.tables.uploads
All-IsHashed = (
  stored_row-IsHashed 1 (ascii "x") refl,
  (stored_row-IsHashed 2 (ascii "x") refl, (stored_row-IsHashed 3 (ascii "y") refl, tt)),
)

dedup_store-Reads_example :
    (run : Run) × (dedup_store false (λ id. true) (λ id. true) three_files world ≡ (ok run, world))
    × Reads run.store 1 (ascii "x")
dedup_store-Reads_example =
    dedup_store-Reads (λ b. b) three_files identity_distinct false (λ id. true) (λ id. true) world 1
      (ascii "x") refl All-IsHashed (Reads.here refl)

-- The file of the second upload cannot be read.
abbrev hash_of : Uuid → Option Bytes
hash_of id = if id == 1 then some (ascii "x") else none

hash_of-is_blake3 :
    (id : Uuid) (h bytes : Bytes)
    → hash_of id ≡ some h
    → three_files id ≡ some (Node.regular bytes)
    → h ≡ bytes
hash_of-is_blake3 id h bytes e f = ground (arith, e, f)

unhashed :
    (id : Uuid) (slug : Bytes) (expiry : ℕ)
    → IsHashed (λ b. b) three_files (upload_row id slug expiry)
unhashed id slug expiry h bytes e f = absurd (ground (arith, e))

rehash_lem_example :
    ((rehash hash_of sample).0
      ≡ ok (record {
        hashed = readable hash_of (filter misses_hash sample_tables.uploads);
        skipped =
            length (filter misses_hash sample_tables.uploads)
            - readable hash_of (filter misses_hash sample_tables.uploads);
        errors = 0;
      }))
    × ((rehash hash_of sample).1.tables.uploads
        ≡ map (λ u. if misses_hash u then hashed_row hash_of u.id u else u) sample_tables.uploads)
    × All (IsHashed (λ b. b) three_files) (rehash hash_of sample).1.tables.uploads
rehash_lem_example =
    rehash_lem (λ b. b) three_files hash_of hash_of-is_blake3 sample refl ((refl, tt), (tt, tt))
      (unhashed 1 (ascii "abc") 95, (unhashed 2 (ascii "abd") 500, tt))
