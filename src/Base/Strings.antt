-- ===== src/Base/Strings.antt =====
-- Byte strings. A Rust `String`, `&str`, `Vec<u8>` or `[u8; n]` is the list of its bytes.
use Prim.Native.Nat.{ℕ, ◌+◌}
use Prim.Native.Char.{code}
use Prim.Native.String.{String}
use mathlib.Core.Path.{◌≡◌, refl, ap}
use mathlib.Core.Logic.{inl, inr}
use mathlib.Core.Bool.{Bool, true, false, ◌&&◌, ◌||◌}
use mathlib.Core.List.{List, [], ◌∷◌, ◌++◌}
use mathlib.Core.Option.{Option, none, some}
use native.Mathlib.Omega.{arith}
use filehost.Base.Tests.{◌==◌, ==_iff, Bool-cases, leb, if◌then◌else◌}

abbrev pub Bytes : Type 0
Bytes = List ℕ

-- An ASCII literal.
abbrev pub ascii : String → Bytes
ascii String.[] = []
ascii (String.◌∷◌ c s) = code c ∷ ascii s

abbrev pub bytes_eq : Bytes → Bytes → Bool
bytes_eq [] [] = true
bytes_eq [] (y ∷ ys) = false
bytes_eq (x ∷ xs) [] = false
bytes_eq (x ∷ xs) (y ∷ ys) = x == y && bytes_eq xs ys

pub bytes_eq_refl : (xs : Bytes) → bytes_eq xs xs ≡ true
bytes_eq_refl [] = refl
bytes_eq_refl (x ∷ xs) = ground (arith, bytes_eq_refl xs)

pub bytes_eq_sound : (xs ys : Bytes) → bytes_eq xs ys ≡ true → xs ≡ ys
bytes_eq_sound [] [] h = refl
bytes_eq_sound [] (y ∷ ys) h = ground arith
bytes_eq_sound (x ∷ xs) [] h = ground arith
bytes_eq_sound (x ∷ xs) (y ∷ ys) h = ground (arith, bytes_eq_sound xs ys)

-- `str::starts_with` and `str::strip_prefix`.
abbrev pub strip_prefix : Bytes → Bytes → Option Bytes
strip_prefix [] s = some s
strip_prefix (p ∷ ps) [] = none
strip_prefix (p ∷ ps) (x ∷ xs) = let rest = strip_prefix ps xs in if p == x then rest else none

abbrev pub starts_with : Bytes → Bytes → Bool
starts_with p s = elim (strip_prefix p s) [ none ↦ false | some _ ↦ true ]

pub strip_prefix-append : (p s : Bytes) → strip_prefix p (p ++ s) ≡ some s
strip_prefix-append [] s = refl
strip_prefix-append (x ∷ p) s = ground (arith, ==_iff x x, strip_prefix-append p s)

pub strip_prefix_sound : (p s rest : Bytes) → strip_prefix p s ≡ some rest → s ≡ p ++ rest
strip_prefix_sound [] s rest h = ground arith
strip_prefix_sound (x ∷ p) [] rest h = absurd (ground arith)
strip_prefix_sound (x ∷ p) (y ∷ s) rest h = elim (Bool-cases (x == y)) [
  | inl e ↦
      rw ((==_iff x y).0 e)
        (ap (λ (t : Bytes). y ∷ t) (strip_prefix_sound p s rest (ground (arith, e))))
  | inr e ↦ absurd (ground (arith, e))
]

-- `str::contains`.
abbrev pub contains : Bytes → Bytes → Bool
contains p [] = starts_with p []
contains p (x ∷ xs) = let rest = contains p xs in starts_with p (x ∷ xs) || rest

-- `to_lowercase` on ASCII letters.
abbrev pub to_lower : ℕ → ℕ
to_lower c = if leb b'A' c && leb c b'Z' then c + 32 else c
