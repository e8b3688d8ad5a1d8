-- ===== src/Nsfw/Classify.antt =====
-- `NsfwModel::classify` (src/nsfw.rs). The decoding and the resizing of the image and the run of the
-- model are libraries'; a value `F` is an `f32`.
use filehost.Base.{ℕ, zero, suc, Option, none, some, List, [], ◌∷◌, ◌&&◌, ◌==◌, if◌then◌else◌}
use filehost.Db.Model.{Uuid}

abbrev pub input_size : ℕ
input_size = 224

-- The class of pictures that are safe.
abbrev pub sfw_index : ℕ
sfw_index = 2

-- An array by channel, row and column.
abbrev pub Tensor : Type 0 → Type 0
Tensor F = ℕ → ℕ → ℕ → F

-- `get_pixel`, by column, row and channel.
abbrev pub Image : Type 0 → Type 0
Image F = ℕ → ℕ → ℕ → F

module _ {F : Type 0} where
  -- The assignment to a place.
  unfoldable pub assign : ℕ → ℕ → ℕ → F → Tensor F → Tensor F
  assign c y x v arr c' y' x' = if (c == c') && (y == y') && (x == x') then v else arr c' y' x'

  -- The loops over the channels, the columns and the rows, from a place on.
  unfoldable pub fill_channels : Image F → ℕ → ℕ → ℕ → ℕ → Tensor F → Tensor F
  fill_channels p y x zero c arr = arr
  fill_channels p y x (suc n) c arr = fill_channels p y x n (suc c) (assign c y x (p x y c) arr)

  unfoldable pub fill_row : Image F → ℕ → ℕ → ℕ → Tensor F → Tensor F
  fill_row p y zero x arr = arr
  fill_row p y (suc n) x arr = fill_row p y n (suc x) (fill_channels p y x 3 0 arr)

  unfoldable pub fill : Image F → ℕ → ℕ → Tensor F → Tensor F
  fill p zero y arr = arr
  fill p (suc n) y arr = fill p n (suc y) (fill_row p y input_size 0 arr)

  -- `nth`.
  unfoldable pub nth : ℕ → List F → Option F
  nth n [] = none
  nth zero (v ∷ vs) = some v
  nth (suc n) (v ∷ vs) = nth n vs

  -- The image of an upload at the input's size, the outcome of the run and `1.0 - ` are given; `none` is
  -- an error.
  unfoldable pub classify :
      (Uuid → Option (Image F)) → F → (Tensor F → Option (List F)) → (F → F) → Uuid → Option F
  classify resized nought run one_minus id = elim (resized id) [
    | none ↦ none
    | some p ↦ elim (run (fill p input_size 0 (λ c y x. nought))) [
      | none ↦ none
      | some scores ↦ elim (nth sfw_index scores) [ none ↦ none | some s ↦ some (one_minus s) ]
    ]
  ]
