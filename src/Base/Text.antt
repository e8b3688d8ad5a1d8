-- ===== src/Base/Text.antt =====
-- The methods of `str` that the source calls, on a text as the list of its code points.
use Prim.Native.Nat.{ℕ, ◌+◌, ◌-◌, ◌*◌}
use mathlib.Core.Bool.{Bool, ◌&&◌, ◌||◌}
use mathlib.Core.List.{List, [], ◌∷◌, reverse}
use mathlib.Core.Option.{Option, none, some}
use filehost.Base.Tests.{◌==◌, leb, ltb, if◌then◌else◌}
use filehost.Base.Strings.{Bytes}

-- `char::is_whitespace`: the code points with the property White_Space.
unfoldable pub is_whitespace : ℕ → Bool
is_whitespace c =
    (leb 9 c && leb c 13)
    || c == 32
    || c == 0x85
    || c == 0xa0
    || c == 0x1680
    || (leb 0x2000 c && leb c 0x200a)
    || c == 0x2028
    || c == 0x2029
    || c == 0x202f
    || c == 0x205f
    || c == 0x3000

unfoldable pub trim_start : Bytes → Bytes
unfolding is_whitespace
trim_start [] = []
trim_start (c ∷ s) = let rest = trim_start s in if is_whitespace c then rest else c ∷ s

unfoldable pub trim : Bytes → Bytes
unfolding trim_start
trim s = reverse (trim_start (reverse (trim_start s)))

-- A character put at the front of the first piece.
abbrev pub onto_first : ℕ → List Bytes → List Bytes
onto_first c [] = (c ∷ []) ∷ []
onto_first c (p ∷ ps) = (c ∷ p) ∷ ps

-- `str::split` on one character: one piece more than there are separators.
abbrev pub split : ℕ → Bytes → List Bytes
split sep [] = [] ∷ []
split sep (c ∷ s) = let rest = split sep s in if c == sep then [] ∷ rest else onto_first c rest

-- `str::split_once` on one character.
abbrev pub split_once : ℕ → Bytes → Option (Bytes × Bytes)
split_once sep [] = none
split_once sep (c ∷ s) =
    let rest : Option (Bytes × Bytes) = elim (split_once sep s) [
      | none ↦ none
      | some (a, b) ↦ some (c ∷ a, b)
    ] in
    if c == sep then some ([], s) else rest

-- `char::to_digit`, for a radix of at most 16.
unfoldable pub to_digit : ℕ → ℕ → Option ℕ
to_digit radix c =
    let value : Option ℕ =
      if leb b'0' c && leb c b'9'
      then some (c - 48)
      else if leb b'a' c && leb c b'z'
      then some (c - 87)
      else if leb b'A' c && leb c b'Z'
      then some (c - 55)
      else none in
    elim value [ none ↦ none | some d ↦ if ltb d radix then some d else none ]

-- The digits of `u8::from_str_radix`, which refuses what does not fit 8 bits.
unfoldable pub digits_u8 : ℕ → ℕ → Bytes → Option ℕ
digits_u8 radix acc [] = some acc
digits_u8 radix acc (c ∷ s) = elim (to_digit radix c) [
  | none ↦ none
  | some d ↦ let next = acc * radix + d in if ltb 255 next then none else digits_u8 radix next s
]

-- `u8::from_str_radix`: a leading `+` is taken, and the empty text and a lone sign are refused.
unfoldable pub u8_from_str_radix : ℕ → Bytes → Option ℕ
u8_from_str_radix radix [] = none
u8_from_str_radix radix (c ∷ []) =
    if c == b'+' || c == b'-' then none else digits_u8 radix 0 (c ∷ [])
u8_from_str_radix radix (c ∷ d ∷ s) =
    if c == b'+' then digits_u8 radix 0 (d ∷ s) else digits_u8 radix 0 (c ∷ d ∷ s)
