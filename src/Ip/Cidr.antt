-- ===== src/Ip/Cidr.antt =====
-- CIDR blocks (src/ip.rs): the bounds of a block, parsing and membership. `u128` values are numbers
-- below 2 ^ 128. The text parser of addresses, `str::parse::<IpAddr>`, is the argument `parse_ip`.
use Prim.Native.Nat.{bit_and, bit_or}
use filehost.Base.{
  ℕ, ◌-◌, ◌^◌, Bool, ◌&&◌, Option, none, some, Bytes, ltb, ◌==◌, if◌then◌else◌, trim, split_once,
  u8_from_str_radix,
}
use filehost.Ip.Addr.{IpAddr, v4, v6, to_db_bytes, bytes_le}

abbrev pub u128_max : ℕ
u128_max = 2 ^ 128 - 1

-- `None` if the prefix is wider than the address family allows.
unfoldable pub cidr_bounds : ℕ → ℕ → ℕ → Option (ℕ × ℕ)
cidr_bounds addr prefix width =
    let host_bit_count = width - prefix in
    let host_mask = if host_bit_count == 128 then u128_max else 2 ^ host_bit_count - 1 in
    if ltb width prefix
    then none
    else some (bit_and addr (u128_max - host_mask), bit_or addr host_mask)

pub record Cidr : Type 0 where
  pub start : IpAddr
  pub end : IpAddr

-- `u32::try_from`.
abbrev pub to_u32 : ℕ → Option ℕ
to_u32 n = if ltb n (2 ^ 32) then some n else none

-- `Option::unwrap_or`.
abbrev pub unwrap_or {ℓ} : {A : Type ℓ} → Option A → A → A
unwrap_or none d = d
unwrap_or (some a) d = a

infixl 5 ◌>>=◌
abbrev pub ◌>>=◌ {ℓ κ} : {A : Type ℓ} {B : Type κ} → Option A → (A → Option B) → Option B
none >>= f = none
some a >>= f = f a

-- The block of an address and an optional prefix length: the second half of `Cidr::parse`.
unfoldable pub block_of : IpAddr → Option ℕ → Option Cidr
block_of (v4 a) prefix = do
  (first, last) ← cidr_bounds a (unwrap_or prefix 32) 32
  start ← to_u32 first
  end ← to_u32 last
  some (record { start = v4 start; end = v4 end })
block_of (v6 a) prefix = do
  (first, last) ← cidr_bounds a (unwrap_or prefix 128) 128
  some (record { start = v6 first; end = v6 last })

-- The address part and the prefix part of the text: with no `/` the untrimmed text itself.
unfoldable pub cidr_parts : Bytes → Bytes × Option Bytes
cidr_parts s = elim (split_once b'/' (trim s)) [
  | some (addr, prefix) ↦ (addr, some prefix)
  | none ↦ (s, none)
]

unfoldable pub parse_prefix : Option Bytes → Option (Option ℕ)
parse_prefix none = some none
parse_prefix (some p) = do n ← u8_from_str_radix 10 (trim p); some (some n)

module _ (parse_ip : Bytes → Option IpAddr) where
  -- `Cidr::parse`.
  unfoldable pub parse : Bytes → Option Cidr
  parse s = do
    let (addr_part, prefix_part) = cidr_parts s
    addr ← parse_ip (trim addr_part)
    prefix ← parse_prefix prefix_part
    block_of addr prefix

-- `Cidr::contains`, on the 16-byte form of both families.
unfoldable pub contains : Cidr → IpAddr → Bool
contains c ip =
    let bytes = to_db_bytes ip in
    bytes_le (to_db_bytes c.start) bytes && bytes_le bytes (to_db_bytes c.end)
