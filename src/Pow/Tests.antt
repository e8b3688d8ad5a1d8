-- ===== src/Pow/Tests.antt =====
-- Tokens at inputs: a mac and a hash of zeros.
use filehost.Base.{
  ℕ, zero, suc, ◌+◌, ◌≤◌, ◌≡◌, ◌↔◌, refl, true, some, [], ◌∷◌, ◌++◌, length, drop, replicate, Bytes,
  ascii, arith,
}
use filehost.Ip.Addr.{from_be}
use filehost.Hex.{IsBytes, from_hex}
use filehost.Pow.Token.{random_len, expiry_len, leading_zeros, leading_zero_bits, issue, verify}
use filehost.Pow.Sound.{IsMac, verify_sound, verify-issue}

abbrev zeros : ℕ → Bytes
zeros n = replicate n 0

abbrev no_mac : Bytes → Bytes → Bytes
no_mac key m = zeros 32

abbrev no_hash : Bytes → Bytes
no_hash m = zeros 32

zeros-IsBytes : (n : ℕ) → IsBytes (zeros n)
zeros-IsBytes zero = tt
zeros-IsBytes (suc n) = (omega arith, zeros-IsBytes n)

no_mac-IsMac : IsMac no_mac
no_mac-IsMac key m = (refl, zeros-IsBytes 32)

leading_zero_bits_example : leading_zero_bits (0 ∷ 0x1f ∷ 0 ∷ []) ≡ 11
unfolding leading_zero_bits leading_zeros
leading_zero_bits_example = refl

abbrev a_token : Bytes
a_token = issue no_mac no_hash (zeros 32) (zeros 16) 1000 300

verify-issue_example :
    (verify no_mac no_hash (zeros 32) 1200 a_token (ascii "7") 20 ≡ true)
    ↔ ((1200 ≤ 1000 + 300) × (20 ≤ leading_zero_bits (no_hash (a_token ++ (b'.' ∷ ascii "7")))))
verify-issue_example =
    verify-issue no_mac no_hash (zeros 32) (zeros 16) (ascii "7") 1000 300 1200 20 no_mac-IsMac
      (zeros-IsBytes 16) refl (omega arith)

enough_work : 20 ≤ leading_zero_bits (zeros 32)
unfolding leading_zero_bits leading_zeros
enough_work = omega arith

accepted : verify no_mac no_hash (zeros 32) 1200 a_token (ascii "7") 20 ≡ true
accepted = verify-issue_example.1 (omega arith, enough_work)

verify_sound_example :
    (signed : Bytes) × (from_hex a_token ≡ some (signed ++ no_mac (zeros 32) signed))
    × (length signed ≡ random_len + expiry_len)
    × (1200 ≤ from_be 0 (drop random_len signed))
    × (20 ≤ leading_zero_bits (no_hash (a_token ++ (b'.' ∷ ascii "7"))))
verify_sound_example = verify_sound no_mac no_hash (zeros 32) 1200 a_token (ascii "7") 20 accepted
