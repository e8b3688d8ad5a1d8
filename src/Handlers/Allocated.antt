-- ===== src/Handlers/Allocated.antt =====
-- The slug that `allocate_unique_slug` finds.
use mathlib.Core.Path.{ap}
use filehost.Base.{
  ℕ, zero, suc, ◌+◌, ◌/◌, ◌<◌, ◌≤◌, ◌≡◌, sym, ◌∙◌, inl, inr, Bool, true, false, [], filter, Bytes,
  Bool-cases, if◌then◌else◌, arith,
}
use filehost.Base.Results.{Result, ok, err}
use filehost.Db.World.{World, DbError}
use filehost.Db.Uploads.{first, is_some, has_slug, is_slug_taken}
use filehost.Db.Answered.{select-answered}
use filehost.Handlers.Slug.{Search, attempts, allocate_unique_slug, max_slug_attempts}

module _ (collate : Bytes → Bytes) where
  -- An active upload has the slug.
  abbrev pub is_taken : Bytes → World → Bool
  is_taken slug w = is_some (first (filter (has_slug collate slug) w.tables.uploads))

  is_slug_taken-answered :
      (slug : Bytes) (w : World)
      → w.outages ≡ []
      → is_slug_taken collate slug w ≡ (ok (is_taken slug w), w)
  unfolding is_slug_taken
  is_slug_taken-answered slug w up =
      select-answered (λ now t. is_some (first (filter (has_slug collate slug) t.uploads))) w up

  module _ (candidate : ℕ → ℕ → Bytes) (id_len : ℕ) (w : World) (up : w.outages ≡ []) where
    -- The slug of attempt `k`.
    abbrev pub slug_at : ℕ → Bytes
    slug_at k = candidate k (id_len + k / max_slug_attempts)

    go_on : ℕ → ℕ → Result DbError Bool × World → Search × World
    go_on fuel k (r, w') = elim r [
      | ok taken ↦
          if taken
          then (attempts collate candidate fuel (suc k) id_len w')
          else (Search.found (slug_at k), w')
      | err e ↦ (Search.failed e, w')
    ]

    attempts-step :
        (fuel k : ℕ)
        → attempts collate candidate (suc fuel) k id_len w ≡ (
            if is_taken (slug_at k) w
            then (attempts collate candidate fuel (suc k) id_len w)
            else (Search.found (slug_at k), w))
    unfolding attempts go_on
    attempts-step fuel k = ap (go_on fuel k) (is_slug_taken-answered (slug_at k) w up)

    -- The first free slug from attempt `k` on.
    abbrev pub FoundFrom : ℕ → ℕ → ℕ → Type 0
    FoundFrom fuel k j =
        (i : ℕ) × (attempts collate candidate fuel k id_len w ≡ (Search.found (slug_at (k + i)), w))
        × (i ≤ j)
        × (is_taken (slug_at (k + i)) w ≡ false)
        × ((n : ℕ) → n < i → is_taken (slug_at (k + n)) w ≡ true)

    same_index : (k m : ℕ) → k ≡ m → is_taken (slug_at k) w ≡ is_taken (slug_at m) w
    same_index k m e = ap (λ i. is_taken (slug_at i) w) e

    found_here : (fuel k j : ℕ) → is_taken (slug_at k) w ≡ false → FoundFrom (suc fuel) k j
    found_here fuel k j e =
        let same : k ≡ k + 0 = omega arith in
        (
          0,
          attempts-step fuel k
              ∙ ap
                  (λ b.
                    if b
                    then (attempts collate candidate fuel (suc k) id_len w)
                    else (Search.found (slug_at k), w))
                  e
              ∙ ap (λ i. (Search.found (slug_at i), w)) same,
          omega arith,
          ap (λ i. is_taken (slug_at i) w) (sym same) ∙ e,
          λ n l. absurd (omega arith),
        )

    earlier :
        (k i : ℕ)
        → is_taken (slug_at k) w ≡ true
        → ((n : ℕ) → n < i → is_taken (slug_at (suc k + n)) w ≡ true)
        → (n : ℕ) → n < suc i
        → is_taken (slug_at (k + n)) w ≡ true
    earlier k i e all zero l = same_index (k + 0) (k) (omega arith) ∙ e
    earlier k i e all (suc n) l =
        same_index (k + suc n) (suc k + n) (omega arith) ∙ all n (omega arith)

    found_later :
        (fuel k j : ℕ)
        → is_taken (slug_at k) w ≡ true
        → FoundFrom fuel (suc k) j
        → FoundFrom (suc fuel) k (suc j)
    found_later fuel k j e (i, run, le, free, taken) =
        let same : suc k + i ≡ k + suc i = omega arith in
        (
          suc i,
          attempts-step fuel k
              ∙ ap
                  (λ b.
                    if b
                    then (attempts collate candidate fuel (suc k) id_len w)
                    else (Search.found (slug_at k), w))
                  e
              ∙ run
              ∙ ap (λ m. (Search.found (slug_at m), w)) same,
          omega arith,
          ap (λ m. is_taken (slug_at m) w) (sym same) ∙ free,
          earlier k i e taken,
        )

    attempts-FoundFrom :
        (fuel k j : ℕ) → j < fuel → is_taken (slug_at (k + j)) w ≡ false → FoundFrom fuel k j
    attempts-FoundFrom zero k j h f = absurd (omega arith)
    attempts-FoundFrom (suc fuel) k zero h f =
        found_here fuel k 0 (same_index (k) (k + 0) (omega arith) ∙ f)
    attempts-FoundFrom (suc fuel) k (suc j) h f = elim (Bool-cases (is_taken (slug_at k) w)) [
      | inr e ↦ found_here fuel k (suc j) e
      | inl e ↦ found_later fuel k j e (
          attempts-FoundFrom fuel (suc k) j (omega arith)
            (same_index (suc k + j) (k + suc j) (omega arith) ∙ f))
    ]

-- Where every query is answered and some attempt `j` within the fuel builds a slug that no active
-- upload has, the search returns the slug of the first such attempt, at the length that goes up by one
-- after every three attempts, and changes nothing.
pub allocate_unique_slug_lem :
    (collate : Bytes → Bytes) (candidate : ℕ → ℕ → Bytes) (fuel id_len j : ℕ) (w : World)
    (up : w.outages ≡ [])
    → j < fuel
    → is_taken collate (candidate j (id_len + j / max_slug_attempts)) w ≡ false
    → (i : ℕ) × (allocate_unique_slug collate candidate fuel id_len w
        ≡ (Search.found (candidate i (id_len + i / max_slug_attempts)), w))
      × (i ≤ j)
      × (is_taken collate (candidate i (id_len + i / max_slug_attempts)) w ≡ false)
      × ((n : ℕ) → n < i → is_taken collate (candidate n (id_len + n / max_slug_attempts)) w ≡ true)
unfolding allocate_unique_slug
allocate_unique_slug_lem collate candidate fuel id_len j w up h f =
    let index = same_index collate candidate id_len w up in
    let (i, run, le, free, taken) =
      attempts-FoundFrom collate candidate id_len w up fuel 0 j h
        (index (0 + j) j (omega arith) ∙ f) in
    (
      i,
      run
          ∙ ap (λ m. (Search.found (candidate m (id_len + m / max_slug_attempts)), w))
              (omega arith),
      le,
      index i (0 + i) (omega arith) ∙ free,
      λ n l. index n (0 + n) (omega arith) ∙ taken n l,
    )
