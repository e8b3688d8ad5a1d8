-- ===== src/Dedup/Pairs.antt =====
-- The pairs of duplicates that src/db.rs finds.
use mathlib.Core.Path.{ap, subst}
use filehost.Base.{
  ◌≡◌, ◌≢◌, sym, ◌∙◌, inl, inr, Bool, true, false, ◌&&◌, none, some, List, [], ◌∷◌, All, filter,
  Bytes, bytes_eq_sound, ◌==◌, Bool-cases, Option-cases, arith,
}
use filehost.Db.Model.{Upload}
use filehost.Db.Uploads.{is_active, has_hash}
use filehost.Db.Listing.{DedupPair, is_older, canonical_of, with_hash, pair_of, pairs_of}

All-filter {ℓ κ} :
    {A : Type ℓ} (P : A → Type κ) (q : A → Bool) (xs : List A)
    → All P xs
    → All (λ x. P x × (q x ≡ true)) (filter q xs)
All-filter P q [] h = tt
All-filter P q (x ∷ xs) (here, h) = elim (Bool-cases (q x)) [
  | inl e ↦ rw e ((here, e), All-filter P q xs h)
  | inr e ↦ rw e (All-filter P q xs h)
]

canonical_of-All :
    (P : Upload → Type 0) (us : List Upload) (c : Upload)
    → All P us
    → canonical_of us ≡ some c
    → P c
unfolding canonical_of
canonical_of-All P [] c h e = absurd (ground arith)
canonical_of-All P (u ∷ us) c (here, h) e = elim (Option-cases (canonical_of us)) [
  | inl none_left ↦ let same : u ≡ c = ground (arith, none_left) in subst P same here
  | inr (v, f) ↦ elim (Bool-cases (is_older u v)) [
    | inl older ↦
        let same : v ≡ c = ground (arith, f, older) in subst P same (canonical_of-All P us v h f)
    | inr newer ↦ let same : u ≡ c = ground (arith, f, newer) in subst P same here
  ]
]

-- The rows behind a pair: two of the table, with one hash, and different ids.
pub record Pair (P : Upload → Type 0) (p : DedupPair) : Type 0 where
  pub dup : Upload
  pub canonical : Upload
  pub hash : Bytes
  pub dup_in : P dup
  pub canonical_in : P canonical
  pub dup_id : p.dup_id ≡ dup.id
  pub canonical_id : p.canonical_id ≡ canonical.id
  pub apart : canonical.id ≢ dup.id
  pub dup_hash : dup.hash ≡ some hash
  pub canonical_hash : canonical.hash ≡ some hash

has_hash-eq : (hash : Bytes) (u : Upload) → has_hash hash u ≡ true → u.hash ≡ some hash
has_hash-eq hash u h = elim (Option-cases u.hash) [
  | inl e ↦ absurd (ground (arith, e))
  | inr (k, e) ↦ e ∙ ap some (bytes_eq_sound k hash (ground (arith, e)))
]

pair_of-Pair :
    (P : Upload → Type 0) (all : List Upload) (u : Upload) (p : DedupPair)
    → All P all
    → P u
    → pair_of all u ≡ some p
    → Pair P p
unfolding pair_of
pair_of-Pair P all u p h hu e = elim (Option-cases u.hash) [
  | inl f ↦ absurd (ground (arith, f))
  | inr (hash, f) ↦ elim (Option-cases (canonical_of (with_hash hash all))) [
    | inl g ↦ absurd (ground (arith, f, g))
    | inr (c, g) ↦
        let (c_in, met) =
          canonical_of-All (λ v. P v × ((has_hash hash v && is_active v) ≡ true))
            (with_hash hash all) c (All-filter P _ all h) g in
        let found : DedupPair = record { dup_id = u.id; canonical_id = c.id } in
        let same : found ≡ p = ground (arith, f, g) in
        let differ : (u.id == c.id) ≡ false = ground (arith, f, g) in
        record {
          dup = u;
          canonical = c;
          hash = hash;
          dup_in = hu;
          canonical_in = c_in;
          dup_id = ap (λ (q : DedupPair). q.dup_id) (sym same);
          canonical_id = ap (λ (q : DedupPair). q.canonical_id) (sym same);
          apart = ground (arith, differ);
          dup_hash = f;
          canonical_hash = has_hash-eq hash c (ground (arith, met));
        }
  ]
]

pairs_of-none :
    (all : List Upload) (u : Upload) (us : List Upload)
    → pair_of all u ≡ none
    → pairs_of all (u ∷ us) ≡ pairs_of all us
unfolding pairs_of
pairs_of-none all u us e = ground (arith, e)

pairs_of-some :
    (all : List Upload) (u : Upload) (us : List Upload) (p : DedupPair)
    → pair_of all u ≡ some p
    → pairs_of all (u ∷ us) ≡ p ∷ pairs_of all us
unfolding pairs_of
pairs_of-some all u us p e = ground (arith, e)

pub pairs_of-Pair :
    (P : Upload → Type 0) (all us : List Upload)
    → All P all
    → All P us
    → All (Pair P) (pairs_of all us)
unfolding pairs_of
pairs_of-Pair P all [] h hu = tt
pairs_of-Pair P all (u ∷ us) h (here, hu) = elim (Option-cases (pair_of all u)) [
  | inl e ↦ subst (All (Pair P)) (sym (pairs_of-none all u us e)) (pairs_of-Pair P all us h hu)
  | inr (p, e) ↦
      subst (All (Pair P)) (sym (pairs_of-some all u us p e))
        (pair_of-Pair P all u p h here e, pairs_of-Pair P all us h hu)
]
