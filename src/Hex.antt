-- ===== src/Hex.antt =====
-- `hex_encode` and `hex_decode` of src/util.rs, and their like in src/pow.rs. A text is the list of
-- its UTF-8 bytes here.
mod Tests
use filehost.Base.{
  ℕ, suc, ◌+◌, ◌*◌, ◌/◌, ◌%◌, ◌≤◌, ◌<◌, ◌≡◌, ◌≢◌, refl, ap, ◌⊎◌, inl, inr, Bool-cases, Option-cases,
  Bool, true, false, ◌&&◌, ◌||◌, Option, none, some, List, [], ◌∷◌, ◌++◌, length, All, Bytes, arith,
  ltb, leb, ◌==◌, if◌then◌else◌, to_digit, digits_u8, u8_from_str_radix,
}

-- A digit of `{:02x}`.
unfoldable pub hex_digit : ℕ → ℕ
hex_digit d = if ltb d 10 then 48 + d else 87 + d

unfoldable pub hex_encode : Bytes → Bytes
hex_encode [] = []
hex_encode (b ∷ bs) = hex_digit (b / 16) ∷ hex_digit (b % 16) ∷ hex_encode bs

-- `collect` of the options that the pairs of bytes give.
abbrev pub push : Option ℕ → Option Bytes → Option Bytes
push none rest = none
push (some b) none = none
push (some b) (some bs) = some (b ∷ bs)

-- `u8::from_str_radix(s.get(i..i + 2)?, 16).ok()` for even `i`. A pair with a byte of 128 or more is
-- no text of its own, or no digits: both give `None`.
unfoldable pub decode_pairs : Bytes → Option Bytes
decode_pairs [] = some []
decode_pairs (a ∷ []) = none
decode_pairs (a ∷ b ∷ s) = push (u8_from_str_radix 16 (a ∷ b ∷ [])) (decode_pairs s)

-- `util::hex_decode`: only texts of an even length.
unfoldable pub hex_decode : Bytes → Option Bytes
hex_decode s = if length s % 2 == 0 then decode_pairs s else none

abbrev pub is_ascii : Bytes → Bool
is_ascii [] = true
is_ascii (c ∷ s) = ltb c 128 && is_ascii s

-- `pow::from_hex`: the same, on ASCII texts.
unfoldable pub from_hex : Bytes → Option Bytes
from_hex s = if length s % 2 == 0 && is_ascii s then decode_pairs s else none

abbrev pub IsBytes : Bytes → Type 0
IsBytes = All (λ b. b < 256)

to_digit-hex_digit : (d : ℕ) → d < 16 → to_digit 16 (hex_digit d) ≡ some d
unfolding to_digit hex_digit
to_digit-hex_digit d h = ground arith

hex_digit-ne-plus : (d : ℕ) → hex_digit d ≢ b'+'
unfolding hex_digit
hex_digit-ne-plus d = ground arith

pair_back :
    (x y : ℕ)
    → x < 16
    → y < 16
    → u8_from_str_radix 16 (hex_digit x ∷ hex_digit y ∷ []) ≡ some (x * 16 + y)
unfolding u8_from_str_radix digits_u8
pair_back x y hx hy =
    ground (arith, to_digit-hex_digit x hx, to_digit-hex_digit y hy, hex_digit-ne-plus x)

decode_pairs-hex_encode : (bs : Bytes) → IsBytes bs → decode_pairs (hex_encode bs) ≡ some bs
unfolding decode_pairs hex_encode
decode_pairs-hex_encode [] h = refl
decode_pairs-hex_encode (b ∷ bs) h =
    let e : b / 16 * 16 + b % 16 ≡ b = omega arith in
    rw (pair_back (b / 16) (b % 16) (omega arith) (omega arith), decode_pairs-hex_encode bs h.1, e)

pub length-hex_encode : (bs : Bytes) → length (hex_encode bs) ≡ 2 * length bs
unfolding hex_encode
length-hex_encode [] = refl
length-hex_encode (b ∷ bs) = omega (arith, length-hex_encode bs)

hex_digit-lt : (d : ℕ) → d < 16 → hex_digit d < 128
unfolding hex_digit
hex_digit-lt d h = ground arith

hex_encode-ascii : (bs : Bytes) → IsBytes bs → is_ascii (hex_encode bs) ≡ true
unfolding hex_encode
hex_encode-ascii [] h = refl
hex_encode-ascii (b ∷ bs) h = ground (
  arith,
  hex_digit-lt (b / 16) (omega arith),
  hex_digit-lt (b % 16) (omega arith),
  hex_encode-ascii bs h.1,
)

-- Both decoders give back what was encoded.
pub hex_decode-hex_encode :
    (bs : Bytes)
    → IsBytes bs
    → (hex_decode (hex_encode bs) ≡ some bs) × (from_hex (hex_encode bs) ≡ some bs)
unfolding hex_decode from_hex
hex_decode-hex_encode bs h =
    let even : length (hex_encode bs) % 2 ≡ 0 = omega (arith, length-hex_encode bs) in
    let back = decode_pairs-hex_encode bs h in
    (ground (arith, even, back), ground (arith, even, back, hex_encode-ascii bs h))

digits_u8-lt :
    (radix acc : ℕ) (s : Bytes) {n : ℕ} → acc < 256 → digits_u8 radix acc s ≡ some n → n < 256
unfolding digits_u8
digits_u8-lt radix acc [] h e = ground arith
digits_u8-lt radix acc (c ∷ s) h e = elim (Option-cases (to_digit radix c)) [
  | inl none_e ↦ absurd (ground arith)
  | inr (d, some_e) ↦ elim (Bool-cases (ltb 255 (acc * radix + d))) [
    | inl big ↦ absurd (ground arith)
    | inr fits ↦ digits_u8-lt radix (acc * radix + d) s (ground arith) (ground arith)
  ]
]

pair-lt : (a b : ℕ) {n : ℕ} → u8_from_str_radix 16 (a ∷ b ∷ []) ≡ some n → n < 256
unfolding u8_from_str_radix
pair-lt a b e = elim (Bool-cases (a == b'+')) [
  | inl p ↦ digits_u8-lt 16 0 (b ∷ []) (omega arith) (ground arith)
  | inr p ↦ digits_u8-lt 16 0 (a ∷ b ∷ []) (omega arith) (ground arith)
]

-- What `push` gives, taken apart.
push-eq-some :
    (o : Option ℕ) (rest : Option Bytes) {bs : Bytes}
    → push o rest ≡ some bs
    → (b : ℕ) × (bs' : Bytes) × (o ≡ some b) × (rest ≡ some bs') × (b ∷ bs' ≡ bs)
push-eq-some none rest e = absurd (ground arith)
push-eq-some (some b) none e = absurd (ground arith)
push-eq-some (some b) (some bs') e = (b, bs', refl, refl, ground arith)

decode_pairs_sound :
    (s : Bytes) {bs : Bytes} → decode_pairs s ≡ some bs → (length s ≡ 2 * length bs) × IsBytes bs
unfolding decode_pairs
decode_pairs_sound [] {bs} e = let p : [] ≡ bs = ground arith in rw (← p) (omega arith, tt)
decode_pairs_sound (a ∷ []) e = absurd (ground arith)
decode_pairs_sound (a ∷ b ∷ s) e =
    let (n, bs', here, rest, p) =
      push-eq-some (u8_from_str_radix 16 (a ∷ b ∷ [])) (decode_pairs s) e in
    let (len, small) = decode_pairs_sound s rest in
    rw (← p) (omega (arith, len), (pair-lt a b here, small))

-- What decodes is half as long as its text, and consists of bytes.
pub hex_decode_sound :
    (s : Bytes) {bs : Bytes} → hex_decode s ≡ some bs → (length s ≡ 2 * length bs) × IsBytes bs
unfolding hex_decode
hex_decode_sound s e = elim (Bool-cases (length s % 2 == 0)) [
  | inl even ↦ decode_pairs_sound s (ground arith)
  | inr odd ↦ absurd (ground arith)
]

pub from_hex_sound :
    (s : Bytes) {bs : Bytes} → from_hex s ≡ some bs → (length s ≡ 2 * length bs) × IsBytes bs
unfolding from_hex
from_hex_sound s e = elim (Bool-cases (length s % 2 == 0 && is_ascii s)) [
  | inl even ↦ decode_pairs_sound s (ground arith)
  | inr odd ↦ absurd (ground arith)
]

-- A pair of a plus sign and a digit decodes as the digit alone, so one byte string has several
-- texts, some of which are no hexadecimal digits throughout.
pub hex_decode_sign :
    (d : ℕ) (bs : Bytes)
    → d < 16
    → IsBytes bs
    → hex_decode (b'+' ∷ hex_digit d ∷ hex_encode bs) ≡ some (d ∷ bs)
unfolding hex_decode decode_pairs u8_from_str_radix digits_u8
hex_decode_sign d bs h hb =
    let even : suc (suc (length (hex_encode bs))) % 2 ≡ 0 = omega (arith, length-hex_encode bs) in
    ground (arith, even, to_digit-hex_digit d h, decode_pairs-hex_encode bs hb)
