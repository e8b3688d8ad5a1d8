-- ===== src/Bits.antt =====
-- The bit operations that src/ip.rs applies to `u128` values (`&`, `|` and `!` with a mask of low
-- ones), as arithmetic at every width.
use Prim.Native.Nat.{
  bit_and, bit_or, bit_xor, digits, bitwise, differ, bit_and-bitwise, bit_or-bitwise,
  bit_xor-bitwise,
}
use mathlib.Core.Path.{ap}
use native.Mathlib.Nat.{add-zero, add-suc, pow-suc, one-le-pow}
use filehost.Base.{
  ℕ, zero, suc, ◌+◌, ◌-◌, ◌*◌, ◌/◌, ◌%◌, ◌^◌, ◌≤◌, ◌<◌, min, max, ◌≡◌, ◌↔◌, refl, sym, ◌∙◌, inl,
  inr, ◌==◌, Bool-cases, arith,
}

module _ (z : ℕ → ℕ) (f : ℕ → ℕ → ℕ) where
  -- One more digit of fuel than the number has changes nothing.
  digits-suc : (n a b : ℕ) → a ≤ n → digits z f (suc n) a b ≡ digits z f n a b
  digits-suc zero zero b h = refl
  digits-suc zero (suc a) b h = absurd (omega arith)
  digits-suc (suc n) zero b h = refl
  digits-suc (suc n) (suc a) b h = rw (digits-suc n (suc a / 2) (b / 2) (omega arith))

  digits_more : (k n a b : ℕ) → a ≤ n → digits z f (n + k) a b ≡ digits z f n a b
  digits_more zero n a b h = rw add-zero refl
  digits_more (suc k) n a b h =
      rw add-suc (digits-suc (n + k) a b (omega arith) ∙ digits_more k n a b h)

  digits_half : (a b : ℕ) → digits z f a (suc a / 2) b ≡ bitwise z f (suc a / 2) b
  digits_half a b =
      let e : a ≡ suc a / 2 + (a - suc a / 2) = omega arith in
      ap (λ (n : ℕ). digits z f n (suc a / 2) b) e
      ∙ digits_more (a - suc a / 2) (suc a / 2) (suc a / 2) b (omega arith)

  bitwise_digit :
      (a b : ℕ)
      → bitwise z f (suc a) b ≡ bitwise z f (suc a / 2) (b / 2) * 2 + f (suc a % 2) (b % 2)
  bitwise_digit a b = omega (arith, digits_half a (b / 2))

pub bit_and_digit : (a b : ℕ) → bit_and a b ≡ bit_and (a / 2) (b / 2) * 2 + min (a % 2) (b % 2)
bit_and_digit zero b = simp bit_and-bitwise (omega arith)
bit_and_digit (suc a) b = simp bit_and-bitwise (bitwise_digit (λ y. 0) min a b)

pub bit_or_digit : (a b : ℕ) → bit_or a b ≡ bit_or (a / 2) (b / 2) * 2 + max (a % 2) (b % 2)
bit_or_digit zero b = simp bit_or-bitwise (omega arith)
bit_or_digit (suc a) b = simp bit_or-bitwise (bitwise_digit (λ y. y) max a b)

or_zero_below : (n a : ℕ) → a ≤ n → bit_or a 0 ≡ a
or_zero_below n zero h = simp bit_or-bitwise
or_zero_below zero (suc a) h = absurd (omega arith)
or_zero_below (suc n) (suc a) h =
    omega (arith, bit_or_digit (suc a) 0, or_zero_below n (suc a / 2) (omega arith))

mul-two-pow : (q k : ℕ) → q * 2 ^ suc k ≡ 2 * (q * 2 ^ k)
mul-two-pow q k = omega (arith, ap (λ (t : ℕ). q * t) (pow-suc 2 k))

-- `x | ones` fills the low bits and keeps the others.
pub bit_or_ones :
    (k q r : ℕ) → r < 2 ^ k → bit_or (q * 2 ^ k + r) (2 ^ k - 1) ≡ q * 2 ^ k + (2 ^ k - 1)
bit_or_ones zero q r h = ground (arith, or_zero_below q q (omega arith))
bit_or_ones (suc k) q r h = ground (
  arith,
  bit_or_digit (q * 2 ^ suc k + r) (2 ^ suc k - 1),
  mul-two-pow q k,
  pow-suc 2 k,
  one-le-pow k 2 (omega arith),
  bit_or_ones k q (r / 2) (omega (arith, pow-suc 2 k)),
)

-- A mask of ones that covers the number keeps all of it.
bit_and_ones : (w q : ℕ) → q < 2 ^ w → bit_and q (2 ^ w - 1) ≡ q
bit_and_ones zero q h = ground (arith, bit_and-bitwise 0 0)
bit_and_ones (suc w) q h = ground (
  arith,
  bit_and_digit q (2 ^ suc w - 1),
  pow-suc 2 w,
  one-le-pow w 2 (omega arith),
  bit_and_ones w (q / 2) (omega (arith, pow-suc 2 w)),
)

-- `x & !ones` clears the low bits and keeps the others.
pub bit_and_high :
    (k w q r : ℕ)
    → r < 2 ^ k
    → q < 2 ^ w
    → bit_and (q * 2 ^ k + r) ((2 ^ w - 1) * 2 ^ k) ≡ q * 2 ^ k
bit_and_high zero w q r h g = ground (arith, bit_and_ones w q g)
bit_and_high (suc k) w q r h g = ground (
  arith,
  bit_and_digit (q * 2 ^ suc k + r) ((2 ^ w - 1) * 2 ^ suc k),
  mul-two-pow q k,
  mul-two-pow (2 ^ w - 1) k,
  pow-suc 2 k,
  bit_and_high k w q (r / 2) (omega (arith, pow-suc 2 k)) g,
)

-- Powers of two multiply by adding the exponents.
pub two-pow-add : (a b : ℕ) → 2 ^ (a + b) ≡ 2 ^ a * 2 ^ b
two-pow-add a zero = rw add-zero (omega arith)
two-pow-add a (suc b) =
    rw add-suc (omega (arith, pow-suc 2 (a + b), mul-two-pow (2 ^ a) b, two-pow-add a b))

differ_lem : (x y : ℕ) → differ x y ≡ (x - y) + (y - x)
differ_lem zero y = omega arith
differ_lem (suc x) zero = omega arith
differ_lem (suc x) (suc y) = omega (arith, differ_lem x y)

bit_xor_digit : (a b : ℕ) → bit_xor a b ≡ bit_xor (a / 2) (b / 2) * 2 + differ (a % 2) (b % 2)
bit_xor_digit zero b = simp bit_xor-bitwise (omega arith)
bit_xor_digit (suc a) b = simp bit_xor-bitwise (bitwise_digit (λ y. y) differ a b)

-- A number differs from itself in no bit, and from any other in some bit.
xor_self_below : (n a : ℕ) → a ≤ n → bit_xor a a ≡ 0
xor_self_below n zero h = simp bit_xor-bitwise
xor_self_below zero (suc a) h = absurd (omega arith)
xor_self_below (suc n) (suc a) h = omega (
  arith,
  bit_xor_digit (suc a) (suc a),
  differ_lem (suc a % 2) (suc a % 2),
  xor_self_below n (suc a / 2) (omega arith),
)

xor_zero_below : (n a b : ℕ) → a + b ≤ n → bit_xor a b ≡ 0 → a ≡ b
xor_zero_below zero a b h e = omega arith
xor_zero_below (suc n) a b h e = elim (Bool-cases (a + b == 0)) [
  | inl z ↦ ground arith
  | inr z ↦
      let d = bit_xor_digit a b in
      let f = differ_lem (a % 2) (b % 2) in
      let half = xor_zero_below n (a / 2) (b / 2) (ground arith) (omega arith) in omega arith
]

pub bit_xor-eq-zero_iff : (a b : ℕ) → (bit_xor a b ≡ 0) ↔ (a ≡ b)
bit_xor-eq-zero_iff a b = (
  xor_zero_below (a + b) a b (omega arith),
  λ e. ap (λ c. bit_xor a c) (sym e) ∙ xor_self_below a a (omega arith),
)

-- No bit is set in `a | b` only where none is set in either.
bit_or_none : (n a b : ℕ) → a + b ≤ n → bit_or a b ≡ 0 → a + b ≡ 0
bit_or_none zero a b h e = omega arith
bit_or_none (suc n) a b h e = elim (Bool-cases (a + b == 0)) [
  | inl z ↦ ground arith
  | inr z ↦
      let d = bit_or_digit a b in
      let half = bit_or_none n (a / 2) (b / 2) (ground arith) (omega arith) in omega arith
]

pub bit_or-eq-zero_iff : (a b : ℕ) → (bit_or a b ≡ 0) ↔ ((a ≡ 0) × (b ≡ 0))
bit_or-eq-zero_iff a b = (
  λ e. (
    omega (arith, bit_or_none (a + b) a b (omega arith) e),
    omega (arith, bit_or_none (a + b) a b (omega arith) e),
  ),
  λ (x, y). rw (x, y) (or_zero_below 0 0 (omega arith)),
)
