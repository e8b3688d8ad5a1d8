-- ===== src/Throttle/Bucket.antt =====
-- `ByteThrottle::reserve` and `throttle` (src/rate_limit.rs). The source's `f64` tokens are counted
-- here in billionths of a byte, instants and durations in nanoseconds, and the rate in bytes per
-- second, so that `elapsed * rate` is exact; the rounding of `f64` is not modelled, and a wait is
-- rounded down to a nanosecond.
use filehost.Base.{ℕ, ◌+◌, ◌-◌, ◌*◌, ◌/◌, min, Option, none, some, leb, ◌==◌, if◌then◌else◌}
use filehost.Ip.Addr.{IpAddr, ip_eq}
use filehost.Ttl.Cache.{Entries, get, insert, sweep}

-- One byte, and one second.
abbrev pub giga : ℕ
giga = 1_000_000_000

abbrev pub minute : ℕ
minute = 60 * giga

-- `None`, `Some(wait)`, and the panic of `Duration::from_secs_f64` on an infinite quotient, which a
-- rate of zero gives.
pub data Verdict : Type 0 where
  flow : Verdict
  wait : ℕ → Verdict
  panic : Verdict

pub record Limit : Type 0 where
  pub rate : ℕ
  pub burst : ℕ

-- The last refill and the tokens of one address.
abbrev pub Bucket : Type 0
Bucket = ℕ × ℕ

-- The tokens after the refill.
unfoldable pub refill : Limit → ℕ → Bucket → ℕ
refill limit now (last_refill, tokens) =
    min (tokens + (now - last_refill) * limit.rate) (limit.burst * giga)

-- The charge of `bytes` against the bucket of an address.
unfoldable pub charge : Limit → ℕ → ℕ → Bucket → Verdict × Bucket
charge limit now bytes bucket =
    let tokens = refill limit now bucket in
    let cost = bytes * giga in
    if leb cost tokens
    then (flow, (now, tokens - cost))
    else (if limit.rate == 0 then panic else wait ((cost - tokens) / limit.rate), (now, 0))

-- The buckets of all addresses behind the mutex.
abbrev pub Buckets : Type 0
Buckets = Entries IpAddr ℕ

-- `map.entry(ip).or_insert((now, burst))`.
unfoldable pub bucket_of : Limit → ℕ → IpAddr → Buckets → Bucket
bucket_of limit now ip map = elim (get ip_eq ip map) [
  | some bucket ↦ bucket
  | none ↦ (now, limit.burst * giga)
]

-- `ByteThrottle::reserve`: idle buckets go, and the address is charged.
unfoldable pub reserve : Limit → ℕ → IpAddr → ℕ → Buckets → Verdict × Buckets
reserve limit now ip bytes map =
    let kept = sweep minute now map in
    let (verdict, bucket) = charge limit now bytes (bucket_of limit now ip kept) in
    (verdict, insert ip_eq ip bucket kept)

-- `ByteThrottle::throttle`: the instant at which the caller goes on, unless it panics.
unfoldable pub throttle : Limit → ℕ → IpAddr → ℕ → Buckets → Option ℕ × Buckets
throttle limit now ip bytes map =
    let (verdict, map') = reserve limit now ip bytes map in
    (elim verdict [ flow ↦ some now | wait d ↦ some (now + d) | panic ↦ none ], map')
