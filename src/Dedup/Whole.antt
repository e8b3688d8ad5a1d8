-- ===== src/Dedup/Whole.antt =====
-- The whole of a deduplication (src/dedup.rs), over the pairs that the database finds.
use mathlib.Core.Path.{ap, subst}
use filehost.Base.{
  ◌≡◌, sym, ◌∙◌, inl, inr, Bool, some, List, [], ◌∷◌, All, All-append, Bytes, ◌==◌, ==_iff,
  Bool-cases, arith,
}
use filehost.Base.Results.{ok}
use filehost.Db.Model.{Upload, Uuid}
use filehost.Db.World.{World}
use filehost.Db.Listing.{DedupPair, pairs_of, find_dedup_pairs}
use filehost.Dedup.{
  Node, Store, Groups, push_to, group_into, group_by_canonical, Run, dedup, dedup_store,
}
use filehost.Dedup.Content.{Reads, AreCopies, dedup-Reads}
use filehost.Dedup.Pairs.{Pair, pairs_of-Pair}

-- The groups of pairs that are copies are of copies.
abbrev HoldCopies : Store → Groups → Type 0
HoldCopies s = All (λ g. AreCopies s g.0 g.1)

abbrev IsCopy : Store → DedupPair → Type 0
IsCopy s p = AreCopies s p.canonical_id (p.dup_id ∷ [])

push_to-HoldCopies :
    (s : Store) (c d : Uuid) (groups : Groups)
    → AreCopies s c (d ∷ [])
    → HoldCopies s groups
    → HoldCopies s (push_to c d groups)
unfolding push_to
push_to-HoldCopies s c d [] copy h = (copy, tt)
push_to-HoldCopies s c d ((k, dups) ∷ groups) copy (here, h) = elim (Bool-cases (k == c)) [
  | inl e ↦
      let copy' : AreCopies s k (d ∷ []) =
        subst (λ x. AreCopies s x (d ∷ [])) (sym ((==_iff k c).0 e)) copy in
      rw e (All-append _ dups (d ∷ []) here copy', h)
  | inr e ↦ rw e (here, push_to-HoldCopies s c d groups copy h)
]

group_into-HoldCopies :
    (s : Store) (groups : Groups) (pairs : List DedupPair)
    → All (IsCopy s) pairs
    → HoldCopies s groups
    → HoldCopies s (group_into groups pairs)
unfolding group_into
group_into-HoldCopies s groups [] copies h = h
group_into-HoldCopies s groups (p ∷ pairs) (copy, copies) h =
    group_into-HoldCopies s (push_to p.canonical_id p.dup_id groups) pairs copies
      (push_to-HoldCopies s p.canonical_id p.dup_id groups copy h)

-- The recorded hash of an upload, if there is one, is that of its file, if it has one of its own.
abbrev pub IsHashed : (Bytes → Bytes) → Store → Upload → Type 0
IsHashed blake3 store u =
    (hash bytes : Bytes)
    → u.hash ≡ some hash
    → store u.id ≡ some (Node.regular bytes)
    → hash ≡ blake3 bytes

-- No two files of the store have one hash and different bytes.
abbrev pub HasNoCollision : (Bytes → Bytes) → Store → Type 0
HasNoCollision blake3 store =
    (i j : Uuid) (a b : Bytes)
    → store i ≡ some (Node.regular a)
    → store j ≡ some (Node.regular b)
    → blake3 a ≡ blake3 b
    → a ≡ b

module _ (blake3 : Bytes → Bytes) (store : Store) (distinct : HasNoCollision blake3 store) where
  Pair-IsCopy : (p : DedupPair) → Pair (IsHashed blake3 store) p → IsCopy store p
  Pair-IsCopy p r = (
    (
      λ e. r.apart (sym r.canonical_id ∙ e ∙ r.dup_id),
      λ a b ea eb.
          let ha = r.canonical_in r.hash a r.canonical_hash (ap store (sym r.canonical_id) ∙ ea) in
          let hb = r.dup_in r.hash b r.dup_hash (ap store (sym r.dup_id) ∙ eb) in
          distinct p.canonical_id p.dup_id a b ea eb (sym ha ∙ hb),
    ),
    tt,
  )

  All-IsCopy :
      (pairs : List DedupPair) → All (Pair (IsHashed blake3 store)) pairs → All (IsCopy store) pairs
  All-IsCopy [] h = tt
  All-IsCopy (p ∷ pairs) (here, h) = (Pair-IsCopy p here, All-IsCopy pairs h)

  -- Where every query is answered, every recorded hash is that of its file, and no two files of the
  -- store have one hash and different bytes: a deduplication of the whole store succeeds, leaves the
  -- tables alone, and whatever could be read of an upload before it is read after it, dry or not, and
  -- whichever links and paths fail.
  pub dedup_store-Reads :
      (dry_run : Bool) (can_link can_resolve : Uuid → Bool) (w : World) (id : Uuid) (bytes : Bytes)
      → w.outages ≡ []
      → All (IsHashed blake3 store) w.tables.uploads
      → Reads store id bytes
      → (run : Run) × (dedup_store dry_run can_link can_resolve store w ≡ (ok run, w))
        × Reads run.store id bytes
  unfolding dedup_store find_dedup_pairs group_by_canonical
  dedup_store-Reads dry_run can_link can_resolve w id bytes up hashed r =
      let us = w.tables.uploads in
      let pairs = pairs_of us us in
      let start : Run = record {
        store = store;
        linked = 0;
        already_linked = 0;
        skipped = 0;
        errors = 0;
      } in
      let copies =
        group_into-HoldCopies store [] pairs
          (All-IsCopy pairs (pairs_of-Pair _ us us hashed hashed)) tt in
      (
        dedup dry_run can_link can_resolve (group_into [] pairs) start,
        ground (arith, up),
        dedup-Reads dry_run can_link can_resolve (group_into [] pairs) start copies id bytes r,
      )
