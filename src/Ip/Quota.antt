-- ===== src/Ip/Quota.antt =====
-- Quotas count a v6 client by its /64: `normalize_for_quota` and `quota_range` of src/ip.rs.
use mathlib.Core.Path.{ap}
use filehost.Base.{ℕ, ◌+◌, ◌*◌, ◌/◌, ◌^◌, ◌<◌, ◌≡◌, ◌↔◌, true, arith}
use filehost.Ip.Addr.{
  IpAddr, v4, v6, IsAddr, be_bytes, from_be, to_db_bytes, fill_host, normalize_for_quota,
  quota_range, between, same_family,
}
use filehost.Ip.Octets.{between-to_db_bytes}

fill_host_value :
    (byte a : ℕ)
    → a < 2 ^ 128
    → fill_host byte a ≡ v6 (a / 2 ^ 64 * 2 ^ 64 + byte * 0x0101_0101_0101_0101)
unfolding fill_host be_bytes from_be
fill_host_value byte a h = ap v6 (omega arith)

-- The network of an address: a v4 address itself, or the first half of a v6 address.
abbrev pub network : IpAddr → IpAddr
network (v4 a) = v4 a
network (v6 a) = v6 (a / 2 ^ 64)

-- Two addresses are normalised to one quota key exactly when they are of one network.
pub normalize_for_quota_iff :
    (a b : IpAddr)
    → IsAddr a
    → IsAddr b
    → (normalize_for_quota a ≡ normalize_for_quota b) ↔ (network a ≡ network b)
unfolding normalize_for_quota
normalize_for_quota_iff (v4 a) (v4 b) h k = ground arith
normalize_for_quota_iff (v4 a) (v6 b) h k = ground (arith, fill_host_value 0 b k)
normalize_for_quota_iff (v6 a) (v4 b) h k = ground (arith, fill_host_value 0 a h)
normalize_for_quota_iff (v6 a) (v6 b) h k =
    ground (arith, fill_host_value 0 a h, fill_host_value 0 b k)

-- A stored v6 address lies in the quota range of a v6 address exactly when it is of its /64, and a
-- stored v4 address in that of a v4 address exactly when it is that address.
pub quota_range_iff :
    (ip other : IpAddr)
    → IsAddr ip
    → IsAddr other
    → same_family ip other ≡ true
    → let (start, end) = quota_range ip in
      (between (to_db_bytes other) (to_db_bytes start) (to_db_bytes end) ≡ true)
      ↔ (network other ≡ network ip)
unfolding quota_range same_family normalize_for_quota
quota_range_iff (v4 a) (v4 b) h k s =
    rw (between-to_db_bytes (v4 b) (v4 a) (v4 a) k h h) (ground arith)
quota_range_iff (v6 a) (v6 b) h k s =
    rw
      (
        fill_host_value 0 a h,
        fill_host_value 0xff a h,
        between-to_db_bytes (v6 b) (v6 (a / 2 ^ 64 * 2 ^ 64 + 0 * 0x0101_0101_0101_0101))
            (v6 (a / 2 ^ 64 * 2 ^ 64 + 0xff * 0x0101_0101_0101_0101)) k (omega arith) (omega arith),
      )
      (ground arith)
quota_range_iff (v4 a) (v6 b) h k s = cc
quota_range_iff (v6 a) (v4 b) h k s = cc
