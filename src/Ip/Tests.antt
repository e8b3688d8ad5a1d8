-- ===== src/Ip/Tests.antt =====
-- The tests of src/ip.rs that are runs at fixed inputs, and the theorems of this part at inputs.
use filehost.Base.{
  ◌-◌, ◌/◌, ◌^◌, ◌+◌, ◌≡◌, ◌↔◌, refl, true, Option, none, some, [], ◌∷◌, ◌++◌, arith, Bytes, ascii,
  trim, u8_from_str_radix, digits_u8, to_digit,
}
use filehost.Ip.Addr.{
  IpAddr, v4, v6, be_bytes, to_db_bytes, from_db_bytes, quota_range, same_family, between, bytes_le,
}
use filehost.Ip.Octets.{rank}
use filehost.Ip.Quota.{network, quota_range_iff}
use filehost.Ip.Cidr.{Cidr, cidr_bounds, block_of, contains, cidr_parts, parse_prefix, parse}
use filehost.Ip.Blocks.{contains-block_of_iff}
use filehost.Ip.Xff.{XffTrust, trusts_peer, entries, forwarded, client_ip}
use filehost.Ip.Trust.{client_ip-append}

abbrev ip_1234 : IpAddr
ip_1234 = v4 0x0102_0304

v4_roundtrips_through_mapped_bytes :
    to_db_bytes ip_1234 ≡ 0 ∷ 0 ∷ 0 ∷ 0 ∷ 0 ∷ 0 ∷ 0 ∷ 0 ∷ 0 ∷ 0 ∷ 0xff ∷ 0xff ∷ 1 ∷ 2 ∷ 3 ∷ 4 ∷ []
unfolding to_db_bytes be_bytes
v4_roundtrips_through_mapped_bytes = refl

from_db_bytes_rejects_wrong_length : from_db_bytes (1 ∷ 2 ∷ 3 ∷ 4 ∷ []) ≡ none
unfolding from_db_bytes
from_db_bytes_rejects_wrong_length = refl

cidr_non_aligned : cidr_bounds 0x0a00_0005 24 32 ≡ some (0x0a00_0000, 0x0a00_00ff)
unfolding cidr_bounds
cidr_non_aligned = refl

-- An address parser for the tests: one letter stands for a v4 address.
abbrev parse_letter : Bytes → Option IpAddr
parse_letter [] = none
parse_letter (c ∷ s) = some (v4 c)

cidr_parse_blocks :
    parse parse_letter (ascii " a/24 ") ≡ some (record { start = v4 0; end = v4 255 })
unfolding parse cidr_parts parse_prefix trim u8_from_str_radix digits_u8 to_digit block_of
    cidr_bounds
cidr_parse_blocks = refl

quota_range_iff_example :
    let (start, end) = quota_range (v6 (2 ^ 64 + 5)) in
    (between (to_db_bytes (v6 9)) (to_db_bytes start) (to_db_bytes end) ≡ true)
    ↔ (network (v6 9) ≡ network (v6 (2 ^ 64 + 5)))
unfolding same_family
quota_range_iff_example = quota_range_iff (v6 (2 ^ 64 + 5)) (v6 9) (omega arith) (omega arith) refl

-- The block ::/0 against a v4 address.
contains-block_of_iff_example :
    (c : Cidr) × (block_of (v6 0) (some 0) ≡ some c)
    × ((contains c ip_1234 ≡ true) ↔ (rank ip_1234 / 2 ^ 128 ≡ rank (v6 0) / 2 ^ 128))
contains-block_of_iff_example =
    contains-block_of_iff (v6 0) ip_1234 (some 0) (omega arith) (omega arith) (omega arith)

abbrev all_v4 : XffTrust
all_v4 = record { proxies = record { start = v4 0; end = v4 (2 ^ 32 - 1) } ∷ []; hops = 2 }

client_reads_right_to_left :
    client_ip parse_letter (some (ascii "x, a ,b")) (some ip_1234) all_v4 ≡ some (v4 b'a')
unfolding client_ip trusts_peer contains bytes_le to_db_bytes be_bytes forwarded entries trim
client_reads_right_to_left = refl

client_ip-append_example :
    client_ip parse_letter (some (ascii "x" ++ (b',' ∷ ascii "a,b"))) (some ip_1234) all_v4
    ≡ client_ip parse_letter (some (ascii "a,b")) (some ip_1234) all_v4
unfolding entries trim
client_ip-append_example =
    client_ip-append parse_letter (ascii "x") (ascii "a,b") (some ip_1234) all_v4 (omega arith)
