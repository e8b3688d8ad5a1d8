-- ===== src/Ip/Octets.antt =====
-- The stored form keeps addresses and their order, and a quota range is one /64.
use mathlib.Core.Path.{ap}
use native.Mathlib.Nat.{
  pow-suc, one-le-pow, div-add-mod, mod_def, mod-lt, mod-eq_of_lt, div-div-eq-div-mul,
}
use filehost.Base.{
  ℕ, zero, suc, ◌+◌, ◌*◌, ◌/◌, ◌%◌, ◌^◌, ◌≤◌, ◌<◌, ◌≡◌, refl, sym, ◌&&◌, ◌||◌, some, arith, length,
  ltb, leb, ◌==◌, if◌then◌else◌,
}
use filehost.Ip.Addr.{
  IpAddr, v4, v6, IsAddr, be_bytes, from_be, mapped, to_db_bytes, from_db_bytes, bytes_le, between,
}

pub length-be_bytes : (n x : ℕ) → length (be_bytes n x) ≡ n
unfolding be_bytes
length-be_bytes zero x = refl
length-be_bytes (suc n) x = ap suc (length-be_bytes n x)

-- The top base-256 digit of a remainder.
mod_digit : (p x : ℕ) → x % (p * 256) ≡ x / p % 256 * p + x % p
mod_digit p x =
    let split : x ≡ p * (x / p) + x % p = sym (div-add-mod x p) in
    let digit : p * (x / p) ≡ p * (256 * (x / p / 256) + x / p % 256) =
      ap (λ (t : ℕ). p * t) (omega arith) in
    let whole : p * 256 * (x / (p * 256)) ≡ p * 256 * (x / p / 256) =
      ap (λ (t : ℕ). p * 256 * t) (sym (div-div-eq-div-mul x p 256)) in
    omega (arith, mod_def x (p * 256), split, digit, whole)

-- Reading the bytes of a number appends its value to what was read before.
pub from_be-be_bytes : (n acc x : ℕ) → from_be acc (be_bytes n x) ≡ acc * 256 ^ n + x % 256 ^ n
unfolding be_bytes from_be
from_be-be_bytes zero acc x = omega arith
from_be-be_bytes (suc n) acc x = omega (
  arith,
  from_be-be_bytes n (acc * 256 + x / 256 ^ n % 256) x,
  mod_digit (256 ^ n) x,
  pow-suc 256 n,
  ap (λ (t : ℕ). acc * t) (pow-suc 256 n),
  ap (λ (t : ℕ). x % t) (pow-suc 256 n),
)

-- The next multiple.
pub mul_step : (a b p : ℕ) → a < b → a * p + p ≤ b * p
mul_step a b p h = grind arith

digits_le :
    (p dx dy rx ry : ℕ)
    → rx < p
    → ry < p
    → (ltb dx dy || (dx == dy && leb rx ry)) ≡ leb (dx * p + rx) (dy * p + ry)
digits_le p dx dy rx ry hx hy = ground (arith, mul_step dx dy p, mul_step dy dx p)

-- Byte strings of one width compare as the numbers that they spell.
bytes_le-be_bytes :
    (n x y : ℕ) → bytes_le (be_bytes n x) (be_bytes n y) ≡ leb (x % 256 ^ n) (y % 256 ^ n)
unfolding be_bytes bytes_le
bytes_le-be_bytes zero x y = ground arith
bytes_le-be_bytes (suc n) x y =
    rw (bytes_le-be_bytes n x y, pow-suc 256 n, mod_digit (256 ^ n) x, mod_digit (256 ^ n) y)
      (digits_le (256 ^ n) (x / 256 ^ n % 256) (y / 256 ^ n % 256) (x % 256 ^ n) (y % 256 ^ n)
        (mod-lt x (one-le-pow n 256 (omega arith))) (mod-lt y (one-le-pow n 256 (omega arith))))

-- The place of an address in the stored order: a v4 address at its mapped v6 address.
abbrev pub rank : IpAddr → ℕ
rank (v4 a) = mapped a
rank (v6 a) = a

-- `IpAddr::to_canonical`: a v6 address of ::ffff:0:0/96 is the v4 address that it maps.
abbrev pub canonical : IpAddr → IpAddr
canonical (v4 a) = v4 a
canonical (v6 a) = if a / 2 ^ 32 == 0xffff then v4 (a % 2 ^ 32) else v6 a

-- An address that is stored and read back is the same, but a v6 address of ::ffff:0:0/96, which
-- comes back as the v4 address that it maps.
pub from_db_bytes-to_db_bytes :
    (ip : IpAddr) → IsAddr ip → from_db_bytes (to_db_bytes ip) ≡ some (canonical ip)
unfolding from_db_bytes to_db_bytes
from_db_bytes-to_db_bytes (v4 a) h =
    rw (length-be_bytes 16 (mapped a), from_be-be_bytes 16 0 (mapped a)) (ground arith)
from_db_bytes-to_db_bytes (v6 a) h =
    rw (length-be_bytes 16 a, from_be-be_bytes 16 0 a) (ground arith)

bytes_le_below :
    (x y : ℕ) → x < 2 ^ 128 → y < 2 ^ 128 → bytes_le (be_bytes 16 x) (be_bytes 16 y) ≡ leb x y
bytes_le_below x y hx hy =
    rw (bytes_le-be_bytes 16 x y, mod-eq_of_lt {m = 2 ^ 128} hx, mod-eq_of_lt {m = 2 ^ 128} hy)

rank-lt : (ip : IpAddr) → IsAddr ip → rank ip < 2 ^ 128
rank-lt (v4 a) h = omega arith
rank-lt (v6 a) h = h

to_db_bytes-eq-rank : (ip : IpAddr) → to_db_bytes ip ≡ be_bytes 16 (rank ip)
unfolding to_db_bytes
to_db_bytes-eq-rank (v4 a) = refl
to_db_bytes-eq-rank (v6 a) = refl

-- The stored bytes of two addresses compare as their numbers do, a v4 address counted as its mapped
-- v6 address: a range over stored bytes is a range of addresses.
pub between-to_db_bytes :
    (ip lo hi : IpAddr)
    → IsAddr ip
    → IsAddr lo
    → IsAddr hi
    → between (to_db_bytes ip) (to_db_bytes lo) (to_db_bytes hi)
      ≡ (leb (rank lo) (rank ip) && leb (rank ip) (rank hi))
unfolding between
between-to_db_bytes ip lo hi h hl hh = simp (
  to_db_bytes-eq-rank,
  bytes_le_below (rank lo) (rank ip) (rank-lt lo hl) (rank-lt ip h),
  bytes_le_below (rank ip) (rank hi) (rank-lt ip h) (rank-lt hi hh),
)
