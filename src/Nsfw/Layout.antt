-- ===== src/Nsfw/Layout.antt =====
-- What the model is run on (src/nsfw.rs): the picture, by channel, row and column.
use mathlib.Core.Path.{ap}
use filehost.Base.{
  ℕ, zero, suc, ◌+◌, ◌≡◌, inl, inr, Bool, ◌&&◌, ◌==◌, ==_iff, leb, ltb, Bool-cases, if◌then◌else◌,
  arith,
}
use filehost.Nsfw.Classify.{Tensor, Image, assign, fill_channels, fill_row, fill, input_size}

-- `k` is one of the `n` numbers from `lo` on.
abbrev within : ℕ → ℕ → ℕ → Bool
within lo n k = leb lo k && ltb k (lo + n)

module _ {F : Type 0} (p : Image F) where
  channels-at :
      (y x n c : ℕ) (arr : Tensor F) (c' y' x' : ℕ)
      → fill_channels p y x n c arr c' y' x'
        ≡ (if within c n c' && (y == y') && (x == x') then p x y c' else arr c' y' x')
  unfolding fill_channels assign
  channels-at y x zero c arr c' y' x' = ground arith
  channels-at y x (suc n) c arr c' y' x' = elim (Bool-cases (c == c')) [
    | inl e ↦ ground (
      arith,
      channels-at y x n (suc c) (assign c y x (p x y c) arr) c' y' x',
      e,
      ap (p x y) ((==_iff c c').0 e),
    )
    | inr e ↦
        ground
          (arith, channels-at y x n (suc c) (assign c y x (p x y c) arr) c' y' x', e, ==_iff c c')
  ]

  row-at :
      (y n x : ℕ) (arr : Tensor F) (c' y' x' : ℕ)
      → fill_row p y n x arr c' y' x'
        ≡ (if within 0 3 c' && (y == y') && within x n x' then p x' y c' else arr c' y' x')
  unfolding fill_row
  row-at y zero x arr c' y' x' = ground arith
  row-at y (suc n) x arr c' y' x' = elim (Bool-cases (x == x')) [
    | inl e ↦ ground (
      arith,
      row-at y n (suc x) (fill_channels p y x 3 0 arr) c' y' x',
      channels-at y x 3 0 arr c' y' x',
      e,
      ap (λ i. p i y c') ((==_iff x x').0 e),
    )
    | inr e ↦ ground (
      arith,
      row-at y n (suc x) (fill_channels p y x 3 0 arr) c' y' x',
      channels-at y x 3 0 arr c' y' x',
      e,
      ==_iff x x',
    )
  ]

  -- After the loops over `n` rows from the row `y` on, each place of their three channels and 224 columns
  -- holds the value of the picture at its column, row and channel, and every other place what it held.
  fill_lem :
      (n y : ℕ) (arr : Tensor F) (c' y' x' : ℕ)
      → fill p n y arr c' y' x' ≡ (
          if within 0 3 c' && within y n y' && within 0 input_size x'
          then p x' y' c'
          else arr c' y' x')
  unfolding fill
  fill_lem zero y arr c' y' x' = ground arith
  fill_lem (suc n) y arr c' y' x' = elim (Bool-cases (y == y')) [
    | inl e ↦ ground (
      arith,
      fill_lem n (suc y) (fill_row p y input_size 0 arr) c' y' x',
      row-at y input_size 0 arr c' y' x',
      e,
      ap (λ i. p x' i c') ((==_iff y y').0 e),
    )
    | inr e ↦ ground (
      arith,
      fill_lem n (suc y) (fill_row p y input_size 0 arr) c' y' x',
      row-at y input_size 0 arr c' y' x',
      e,
      ==_iff y y',
    )
  ]
