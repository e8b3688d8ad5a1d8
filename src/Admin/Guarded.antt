-- ===== src/Admin/Guarded.antt =====
-- Who passes the guard of the admin API.
use Prim.Native.Nat.{bit_or, bit_xor}
use mathlib.Core.Path.{ap, subst}
use filehost.Bits.{bit_or-eq-zero_iff, bit_xor-eq-zero_iff}
use filehost.Base.{
  ℕ, ◌≡◌, ◌↔◌, ◌⊎◌, ◌≢◌, inl, inr, refl, sym, ◌∙◌, true, Option, none, some, [], ◌∷◌, ◌++◌, length,
  Bytes, ascii, strip_prefix, strip_prefix-append, strip_prefix_sound, Option-cases, arith,
}
use filehost.Base.Results.{ok, Result-cases}
use filehost.Db.Model.{Score}
use filehost.Db.World.{World}
use filehost.Admin.Auth.{fold_xor, constant_time_eq, Denied, from_request}
use filehost.Admin.Api.{AdminRequest, AdminLibraries, denied, route, serve_admin}

fold_xor_zero :
    (acc : ℕ) (a b : Bytes) → length a ≡ length b → fold_xor acc a b ≡ 0 → (acc ≡ 0) × (a ≡ b)
unfolding fold_xor
fold_xor_zero acc [] [] len h = (h, refl)
fold_xor_zero acc [] (y ∷ b) len h = absurd (omega arith)
fold_xor_zero acc (x ∷ a) [] len h = absurd (omega arith)
fold_xor_zero acc (x ∷ a) (y ∷ b) len h =
    let (all, rest) = fold_xor_zero (bit_or acc (bit_xor x y)) a b (omega arith) h in
    let (start, same) = (bit_or-eq-zero_iff acc (bit_xor x y)).0 all in
    (start, rw ((bit_xor-eq-zero_iff x y).0 same, rest) refl)

fold_xor_self : (a : Bytes) → fold_xor 0 a a ≡ 0
unfolding fold_xor
fold_xor_self [] = refl
fold_xor_self (x ∷ a) =
    let start : bit_or 0 (bit_xor x x) ≡ 0 =
      (bit_or-eq-zero_iff 0 (bit_xor x x)).1 (refl, (bit_xor-eq-zero_iff x x).1 refl) in
    ap (λ n. fold_xor n a a) start ∙ fold_xor_self a

-- The comparison in constant time answers whether the two byte strings are the same.
constant_time_eq_iff : (a b : Bytes) → (constant_time_eq a b ≡ true) ↔ (a ≡ b)
unfolding constant_time_eq
constant_time_eq_iff a b = (
  λ h. (fold_xor_zero 0 a b (ground arith) (ground arith)).1,
  λ e. subst (λ c. constant_time_eq a c ≡ true) e (ground (arith, fold_xor_self a)),
)

-- A request passes the guard exactly where a token is configured and the header `Authorization` is the
-- word `Bearer`, a space and that token.
pub from_request_iff :
    (configured_token authorization : Option Bytes)
    → (from_request configured_token authorization ≡ ok tt) ↔ (
        (token : Bytes) × (configured_token ≡ some token)
        × (authorization ≡ some (ascii "Bearer " ++ token)))
unfolding from_request
from_request_iff none authorization =
    (λ h. absurd (ground arith), λ (t, e, f). absurd (ground arith))
from_request_iff (some c) none = (λ h. absurd (ground arith), λ (t, e, f). absurd (ground arith))
from_request_iff (some c) (some h) = (
  λ r. elim (Option-cases (strip_prefix (ascii "Bearer ") h)) [
    | inl e ↦ absurd (ground (arith, e))
    | inr (t, e) ↦
        let same : t ≡ c = (constant_time_eq_iff t c).0 (ground (arith, e)) in
        (
          c,
          refl,
          ap (λ (s : Bytes). some s)
              (strip_prefix_sound (ascii "Bearer ") h t e ∙ ap (λ s. ascii "Bearer " ++ s) same),
        )
  ],
  λ (t, e, f).
      let same : c ≡ t = cc in
      let header : h ≡ ascii "Bearer " ++ t = cc in
      let found : strip_prefix (ascii "Bearer ") h ≡ some t =
        ap (strip_prefix (ascii "Bearer ")) header ∙ strip_prefix-append (ascii "Bearer ") t in
      ground (arith, found, (constant_time_eq_iff t c).1 (sym same)),
)

module _ (lib : AdminLibraries) (nsfw_threshold : Score) where
  -- A call of any route is either one with the configured token, in the header that the guard asks for,
  -- and answered by its handler, or it is denied with a fixed page, and then it has changed nothing and
  -- its header is not that one.
  pub serve_admin_cases :
      (configured_token authorization : Option Bytes) (request : AdminRequest) (w : World)
      → (((token : Bytes) × (configured_token ≡ some token)
            × (authorization ≡ some (ascii "Bearer " ++ token)))
          × (serve_admin lib nsfw_threshold configured_token authorization request w
              ≡ route lib nsfw_threshold request w))
        ⊎ (((token : Bytes)
              → configured_token ≡ some token
              → authorization ≢ some (ascii "Bearer " ++ token))
            × (d : Denied) × (serve_admin lib nsfw_threshold configured_token authorization request
                  w
                ≡ (denied d, w)))
  unfolding serve_admin
  serve_admin_cases configured_token authorization request w =
      elim (Result-cases (from_request configured_token authorization)) [
        | inl (u, e) ↦
            inl ((from_request_iff configured_token authorization).0 e, ground (arith, e))
        | inr (d, e) ↦ inr (
          λ t c a. absurd (
              let got = (from_request_iff configured_token authorization).1 (t, c, a) in
              ground (arith, e, got)),
          d,
          ground (arith, e),
        )
      ]
