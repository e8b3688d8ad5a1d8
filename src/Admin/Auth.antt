-- ===== src/Admin/Auth.antt =====
-- `AdminAuth` and `constant_time_eq` (src/admin.rs).
use Prim.Native.Nat.{bit_or, bit_xor}
use filehost.Base.{
  ℕ, Bool, false, Option, none, some, [], ◌∷◌, length, Bytes, ascii, strip_prefix, ◌==◌,
  if◌then◌else◌,
}
use filehost.Base.Results.{Result, ok, err}

-- `fold(0u8, |acc, (x, y)| acc | (x ^ y))` over the zipped bytes.
unfoldable pub fold_xor : ℕ → Bytes → Bytes → ℕ
fold_xor acc [] b = acc
fold_xor acc (x ∷ a) [] = acc
fold_xor acc (x ∷ a) (y ∷ b) = fold_xor (bit_or acc (bit_xor x y)) a b

unfoldable pub constant_time_eq : Bytes → Bytes → Bool
constant_time_eq a b = if length a == length b then fold_xor 0 a b == 0 else false

-- The errors of the guard: 404, 401 and 403.
pub data Denied : Type 0 where
  not_found unauthorized forbidden : Denied

-- What follows `Bearer ` in a header.
abbrev pub bearer : Option Bytes → Option Bytes
bearer none = none
bearer (some h) = strip_prefix (ascii "Bearer ") h

-- `from_request`, with the configured token and the header `Authorization`, if it is a text.
unfoldable pub from_request : Option Bytes → Option Bytes → Result Denied (Unit {0})
from_request none authorization = err Denied.not_found
from_request (some configured_token) authorization = elim (bearer authorization) [
  | none ↦ err Denied.unauthorized
  | some token ↦ if constant_time_eq token configured_token then ok tt else err Denied.forbidden
]
