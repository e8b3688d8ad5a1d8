-- ===== src/Pow/Sound.antt =====
-- What a verified token proves, and that an issued token verifies exactly until it expires.
use native.Mathlib.Nat.{mod-eq_of_lt}
use filehost.Base.{
  ℕ, suc, ◌+◌, ◌%◌, ◌^◌, ◌≤◌, ◌<◌, ◌≡◌, ◌↔◌, ◌∙◌, sym, ap, inl, inr, Option-cases, true, false,
  some, ◌∷◌, ◌++◌, length, length-append, length-take, take, drop, take-append, drop-append,
  take-append-drop, All-append, zero, Bytes, bytes_eq, bytes_eq_refl, bytes_eq_sound, ltb, leb,
  ◌==◌, ==_iff, if◌then◌else◌, arith,
}
use filehost.Ip.Addr.{be_bytes, from_be}
use filehost.Ip.Octets.{length-be_bytes, from_be-be_bytes}
use filehost.Hex.{IsBytes, hex_encode, from_hex, hex_decode-hex_encode}
use filehost.Pow.Token.{
  random_len, expiry_len, mac_len, token_len, leading_zero_bits, issue, verify, verify_bytes,
}

be_bytes-IsBytes : (n x : ℕ) → IsBytes (be_bytes n x)
unfolding be_bytes
be_bytes-IsBytes zero x = tt
be_bytes-IsBytes (suc n) x = (omega arith, be_bytes-IsBytes n x)

-- The documented shape of `blake3::keyed_hash`: 32 bytes.
abbrev pub IsMac : (Bytes → Bytes → Bytes) → Type 0
IsMac keyed_hash =
    (key m : Bytes) → (length (keyed_hash key m) ≡ mac_len) × IsBytes (keyed_hash key m)

module _ (keyed_hash : Bytes → Bytes → Bytes) (sha256 : Bytes → Bytes) where
  -- A token that verifies decodes to a signed part and its own mac under the key, is not expired,
  -- and the nonce solves it.
  pub verify_sound :
      (key : Bytes) (now : ℕ) (token nonce : Bytes) (difficulty : ℕ)
      → verify keyed_hash sha256 key now token nonce difficulty ≡ true
      → (signed : Bytes) × (from_hex token ≡ some (signed ++ keyed_hash key signed))
        × (length signed ≡ random_len + expiry_len)
        × (now ≤ from_be 0 (drop random_len signed))
        × (difficulty ≤ leading_zero_bits (sha256 (token ++ (b'.' ∷ nonce))))
  unfolding verify verify_bytes
  verify_sound key now token nonce difficulty h = elim (Option-cases (from_hex token)) [
    | inl e ↦ absurd (ground arith)
    | inr (buf, e) ↦
        let signed = take (random_len + expiry_len) buf in
        let mac = drop (random_len + expiry_len) buf in
        let genuine : bytes_eq (keyed_hash key signed) mac ≡ true = ground arith in
        let len : length buf ≡ token_len = ground arith in
        let same_mac = bytes_eq_sound (keyed_hash key signed) mac genuine in
        (
          signed,
          rw (same_mac, take-append-drop (random_len + expiry_len) buf) e,
          omega (arith, len, length-take (random_len + expiry_len) buf),
          ground arith,
          ground arith,
        )
  ]

  -- The checks on a signed part of the right length with its own mac come down to time and work.
  verify_bytes_genuine :
      (key : Bytes) (now : ℕ) (token nonce : Bytes) (difficulty : ℕ) (signed : Bytes)
      → IsMac keyed_hash
      → length signed ≡ random_len + expiry_len
      → verify_bytes keyed_hash sha256 key now token nonce difficulty
          (signed ++ keyed_hash key signed)
        ≡ (if ltb (from_be 0 (drop random_len signed)) now
            then false
            else leb difficulty (leading_zero_bits (sha256 (token ++ (b'.' ∷ nonce)))))
  unfolding verify_bytes
  verify_bytes_genuine key now token nonce difficulty signed mac len =
      let m = keyed_hash key signed in
      let front : take 24 (signed ++ m) ≡ signed =
        ap (λ (n : ℕ). take n (signed ++ m)) (sym len) ∙ take-append signed m in
      let back : drop 24 (signed ++ m) ≡ m =
        ap (λ (n : ℕ). drop n (signed ++ m)) (sym len) ∙ drop-append signed m in
      let whole : (length (signed ++ m) == token_len) ≡ true =
        (==_iff _ _).1 (omega (arith, length-append signed m, len, (mac key signed).0)) in
      rw (front, back, whole, bytes_eq_refl m)

  expiry_back :
      (rnd : Bytes) (expiry : ℕ)
      → length rnd ≡ random_len
      → expiry < 2 ^ 64
      → from_be 0 (drop random_len (rnd ++ be_bytes expiry_len expiry)) ≡ expiry
  expiry_back rnd expiry len fits =
      let e : drop 16 (rnd ++ be_bytes 8 expiry) ≡ be_bytes 8 expiry =
        ap (λ (n : ℕ). drop n (rnd ++ be_bytes 8 expiry)) (sym len)
        ∙ drop-append rnd (be_bytes 8 expiry) in
      rw e (omega (arith, from_be-be_bytes 8 0 expiry))

  -- An issued token verifies exactly until its expiry, for a nonce that solves it.
  pub verify-issue :
      (key rnd nonce : Bytes) (now ttl_seconds later difficulty : ℕ)
      → IsMac keyed_hash
      → IsBytes rnd
      → length rnd ≡ random_len
      → now + ttl_seconds < 2 ^ 64
      → let token = issue keyed_hash sha256 key rnd now ttl_seconds in
        (verify keyed_hash sha256 key later token nonce difficulty ≡ true) ↔ (
          (later ≤ now + ttl_seconds)
          × (difficulty ≤ leading_zero_bits (sha256 (token ++ (b'.' ∷ nonce)))))
  unfolding verify issue
  verify-issue key rnd nonce now ttl_seconds later difficulty mac small len fits =
      let expiry = (now + ttl_seconds) % 2 ^ 64 in
      let in_range : expiry ≡ now + ttl_seconds = mod-eq_of_lt fits in
      let signed = rnd ++ be_bytes expiry_len expiry in
      let m = keyed_hash key signed in
      let parts : length signed ≡ random_len + expiry_len = omega (
        arith,
        length-append rnd (be_bytes expiry_len expiry),
        length-be_bytes expiry_len expiry,
      ) in
      let bytes : IsBytes (signed ++ m) =
        All-append _ signed m
          (All-append _ rnd (be_bytes expiry_len expiry) small (be_bytes-IsBytes expiry_len expiry))
          (mac key signed).1 in
      let checked =
        verify_bytes_genuine key later (hex_encode (signed ++ m)) nonce difficulty signed mac
          parts in
      rw
        (
          (hex_decode-hex_encode (signed ++ m) bytes).1,
          verify,
          checked,
          expiry_back rnd expiry len (omega (arith, in_range)),
        )
        (ground (arith, in_range))
