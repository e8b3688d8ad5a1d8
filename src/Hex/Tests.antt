-- ===== src/Hex/Tests.antt =====
-- The decoders at inputs.
use filehost.Base.{◌≡◌, refl, none, some, [], ◌∷◌, Bytes, ascii}
use filehost.Hex.{hex_digit, hex_encode, decode_pairs, hex_decode}
use filehost.Base.{u8_from_str_radix, digits_u8, to_digit}

abbrev two_bytes : Bytes
two_bytes = 0x0f ∷ 0xa0 ∷ []

hex_encode_two : hex_encode two_bytes ≡ ascii "0fa0"
unfolding hex_encode hex_digit
hex_encode_two = refl

hex_decode_odd : hex_decode (ascii "0fa") ≡ none
unfolding hex_decode
hex_decode_odd = refl

hex_decode_upper : hex_decode (ascii "0FA0") ≡ some two_bytes
unfolding hex_decode decode_pairs u8_from_str_radix digits_u8 to_digit
hex_decode_upper = refl
