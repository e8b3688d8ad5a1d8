-- ===== src/Ip/Addr.antt =====
-- Addresses and their 16-byte stored form (src/ip.rs). A v4 address is a number below 2 ^ 32 and a
-- v6 address one below 2 ^ 128, as `u32::from` and `u128::from` give them.
use filehost.Base.{
  ℕ, zero, suc, ◌+◌, ◌*◌, ◌/◌, ◌%◌, ◌^◌, ◌<◌, ◌≡◌, ◌↔◌, arith, Bool, true, false, ◌&&◌, ◌||◌,
  Option, none, some, [], ◌∷◌, ◌++◌, length, take, replicate, Bytes, ltb, ◌==◌, if◌then◌else◌,
}

pub data IpAddr : Type 0 where
  v4 v6 : ℕ → IpAddr

abbrev pub IsAddr : IpAddr → Type 0
IsAddr (v4 a) = a < 2 ^ 32
IsAddr (v6 a) = a < 2 ^ 128

-- The `n` bytes of a number, most significant first, and back.
unfoldable pub be_bytes : ℕ → ℕ → Bytes
be_bytes zero x = []
be_bytes (suc n) x = (x / 256 ^ n % 256) ∷ be_bytes n x

unfoldable pub from_be : ℕ → Bytes → ℕ
from_be acc [] = acc
from_be acc (b ∷ bs) = from_be (acc * 256 + b) bs

-- `Ipv4Addr::to_ipv6_mapped`: the block ::ffff:0:0/96.
abbrev pub mapped : ℕ → ℕ
mapped a = 0xffff * 2 ^ 32 + a

-- `Ipv6Addr::to_ipv4_mapped`.
unfoldable pub to_ipv4_mapped : ℕ → Option ℕ
to_ipv4_mapped x = if x / 2 ^ 32 == 0xffff then some (x % 2 ^ 32) else none

unfoldable pub to_db_bytes : IpAddr → Bytes
to_db_bytes (v4 a) = be_bytes 16 (mapped a)
to_db_bytes (v6 a) = be_bytes 16 a

-- The v6 value of 16 octets, a v4 address where it is a mapped one.
unfoldable pub of_octets : ℕ → IpAddr
unfolding to_ipv4_mapped
of_octets x = elim (to_ipv4_mapped x) [ some a ↦ v4 a | none ↦ v6 x ]

unfoldable pub from_db_bytes : Bytes → Option IpAddr
unfolding of_octets
from_db_bytes bytes = if length bytes == 16 then some (of_octets (from_be 0 bytes)) else none

unfoldable pub same_family : IpAddr → IpAddr → Bool
same_family (v4 a) (v4 b) = true
same_family (v6 a) (v6 b) = true
same_family _ _ = false

-- `octets[8..].fill(byte)`.
unfoldable pub fill_host : ℕ → ℕ → IpAddr
fill_host byte a = v6 (from_be 0 (take 8 (be_bytes 16 a) ++ replicate 8 byte))

unfoldable pub normalize_for_quota : IpAddr → IpAddr
normalize_for_quota (v4 a) = v4 a
normalize_for_quota (v6 a) = fill_host 0 a

unfoldable pub quota_range : IpAddr → IpAddr × IpAddr
quota_range (v4 a) = (v4 a, v4 a)
quota_range (v6 a) = let start = normalize_for_quota (v6 a) in (start, fill_host 0xff a)

-- `<=` on byte arrays, and on the stored `VARBINARY` values: lexicographic.
unfoldable pub bytes_le : Bytes → Bytes → Bool
bytes_le [] ys = true
bytes_le (x ∷ xs) [] = false
bytes_le (x ∷ xs) (y ∷ ys) = ltb x y || (x == y && bytes_le xs ys)

-- `lo <= ip <= hi` on the stored form; the SQL `? BETWEEN lo AND hi`.
unfoldable pub between : Bytes → Bytes → Bytes → Bool
between x lo hi = bytes_le lo x && bytes_le x hi

-- `==` on addresses.
unfoldable pub ip_eq : IpAddr → IpAddr → Bool
ip_eq (v4 a) (v4 b) = a == b
ip_eq (v6 a) (v6 b) = a == b
ip_eq _ _ = false

pub ip_eq_iff : (a b : IpAddr) → (ip_eq a b ≡ true) ↔ (a ≡ b)
unfolding ip_eq
ip_eq_iff (v4 a) (v4 b) = ground arith
ip_eq_iff (v6 a) (v6 b) = ground arith
ip_eq_iff (v4 a) (v6 b) = ground arith
ip_eq_iff (v6 a) (v4 b) = ground arith
