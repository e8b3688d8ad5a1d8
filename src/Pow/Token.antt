-- ===== src/Pow/Token.antt =====
-- `PowSecret::issue` and `verify` (src/pow.rs). The hash functions are not code of this repository:
-- `keyed_hash` is `blake3::keyed_hash` and `sha256` is `Sha256::digest`. Random bytes and the clock
-- are arguments; a `u64` sum wraps, as in a release build.
use filehost.Base.{
  ℕ, ◌+◌, ◌%◌, ◌^◌, Bool, false, none, some, [], ◌∷◌, ◌++◌, length, take, drop, Bytes, bytes_eq,
  ltb, leb, ◌==◌, if◌then◌else◌,
}
use filehost.Ip.Addr.{be_bytes, from_be}
use filehost.Hex.{hex_encode, from_hex}

abbrev pub random_len : ℕ
random_len = 16

abbrev pub expiry_len : ℕ
expiry_len = 8

abbrev pub mac_len : ℕ
mac_len = 32

abbrev pub token_len : ℕ
token_len = random_len + expiry_len + mac_len

-- `u8::leading_zeros`.
unfoldable pub leading_zeros : ℕ → ℕ
leading_zeros b =
    if b == 0
    then 8
    else if ltb b 2
    then 7
    else if ltb b 4
    then 6
    else if ltb b 8
    then 5
    else if ltb b 16
    then 4
    else if ltb b 32
    then 3
    else if ltb b 64
    then 2
    else if ltb b 128
    then 1
    else 0

unfoldable pub leading_zero_bits : Bytes → ℕ
leading_zero_bits [] = 0
leading_zero_bits (b ∷ bs) =
    let rest = leading_zero_bits bs in if b == 0 then 8 + rest else leading_zeros b

module _ (keyed_hash : Bytes → Bytes → Bytes) (sha256 : Bytes → Bytes) where
  -- `PowSecret::issue` at the Unix time `now`, with the random bytes `rnd`.
  unfoldable pub issue : Bytes → Bytes → ℕ → ℕ → Bytes
  issue key rnd now ttl_seconds =
      let expiry = (now + ttl_seconds) % 2 ^ 64 in
      let signed = rnd ++ be_bytes expiry_len expiry in hex_encode (signed ++ keyed_hash key signed)

  -- The checks on the decoded token.
  unfoldable pub verify_bytes : Bytes → ℕ → Bytes → Bytes → ℕ → Bytes → Bool
  verify_bytes key now token nonce difficulty buf =
      let signed = take (random_len + expiry_len) buf in
      let mac = drop (random_len + expiry_len) buf in
      let expiry = from_be 0 (drop random_len signed) in
      let hash = sha256 (token ++ (b'.' ∷ nonce)) in
      if length buf == token_len
      then (if bytes_eq (keyed_hash key signed) mac
          then (if ltb expiry now then false else leb difficulty (leading_zero_bits hash))
          else false)
      else false

  -- `PowSecret::verify` at the Unix time `now`.
  unfoldable pub verify : Bytes → ℕ → Bytes → Bytes → ℕ → Bool
  verify key now token nonce difficulty = elim (from_hex token) [
    | none ↦ false
    | some buf ↦ verify_bytes key now token nonce difficulty buf
  ]
