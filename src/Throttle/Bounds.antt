-- ===== src/Throttle/Bounds.antt =====
-- How much the bucket lets through, and when an address starts afresh.
use native.Mathlib.Nat.{div-add-mod}
use filehost.Base.{ℕ, ◌+◌, ◌*◌, ◌/◌, ◌%◌, ◌≤◌, ◌<◌, ◌≡◌, false, [], ◌∷◌, All, arith}
use filehost.Ip.Addr.{IpAddr, ip_eq, ip_eq_iff}
use filehost.Ttl.Cache.{get, insert, sweep}
use filehost.Throttle.Bucket.{
  giga, minute, flow, wait, Limit, Bucket, refill, charge, Buckets, reserve,
}

-- The time of a wait is credited again as refill: from an empty bucket a chunk of at most the burst
-- waits for the time of its own bytes, and then the next chunk of that size flows at once, with the
-- bucket empty as before. Twice the configured rate gets through.
pub charge_credits_wait :
    (limit : Limit) (now bytes : ℕ)
    → 0 < limit.rate
    → 0 < bytes
    → bytes ≤ limit.burst
    → bytes * giga % limit.rate ≡ 0
    → let d = bytes * giga / limit.rate in
      (charge limit now bytes (now, 0) ≡ (wait d, (now, 0)))
      × (charge limit (now + d) bytes (now, 0) ≡ (flow, (now + d, 0)))
      × (d * limit.rate ≡ bytes * giga)
unfolding charge refill
charge_credits_wait limit now bytes pos some_bytes fits exact =
    let d = bytes * giga / limit.rate in
    let e : d * limit.rate ≡ bytes * giga = omega (arith, div-add-mod (bytes * giga) limit.rate) in
    (ground arith, ground (arith, e), e)

-- Every bucket holds at most the burst.
abbrev pub IsWithin : Limit → Buckets → Type 0
IsWithin limit = All (λ e. e.1.1 ≤ limit.burst * giga)

charge-le :
    (limit : Limit) (now bytes : ℕ) (bucket : Bucket)
    → (charge limit now bytes bucket).1.1 ≤ limit.burst * giga
unfolding charge refill
charge-le limit now bytes bucket = ground arith

sweep-IsWithin :
    (limit : Limit) (now : ℕ) (map : Buckets)
    → IsWithin limit map
    → IsWithin limit (sweep minute now map)
unfolding sweep
sweep-IsWithin limit now [] h = tt
sweep-IsWithin limit now ((ip, bucket) ∷ map) h = ground (arith, sweep-IsWithin limit now map h.1)

insert-IsWithin :
    (limit : Limit) (ip : IpAddr) (bucket : Bucket) (map : Buckets)
    → bucket.1 ≤ limit.burst * giga
    → IsWithin limit map
    → IsWithin limit (insert ip_eq ip bucket map)
unfolding insert
insert-IsWithin limit ip bucket [] b h = (b, tt)
insert-IsWithin limit ip bucket ((j, x) ∷ map) b h =
    ground (arith, insert-IsWithin limit ip bucket map b h.1)

get-insert_ne :
    (ip other : IpAddr) (bucket : Bucket) (map : Buckets)
    → ip_eq ip other ≡ false
    → get ip_eq other (insert ip_eq ip bucket map) ≡ get ip_eq other map
unfolding get insert
get-insert_ne ip other bucket [] h = ground arith
get-insert_ne ip other bucket ((j, x) ∷ map) h =
    ground (arith, get-insert_ne ip other bucket map h, ip_eq_iff j ip, ip_eq_iff j other)

-- A reservation keeps every bucket within the burst, and touches no other address's bucket but for
-- the eviction of idle ones.
pub reserve-IsWithin :
    (limit : Limit) (now : ℕ) (ip other : IpAddr) (bytes : ℕ) (map : Buckets)
    → IsWithin limit map
    → ip_eq ip other ≡ false
    → let map' = (reserve limit now ip bytes map).1 in
      IsWithin limit map' × (get ip_eq other map' ≡ get ip_eq other (sweep minute now map))
unfolding reserve
reserve-IsWithin limit now ip other bytes map h ne = (
  insert-IsWithin limit ip _ (sweep minute now map) (charge-le limit now bytes _)
      (sweep-IsWithin limit now map h),
  get-insert_ne ip other _ (sweep minute now map) ne,
)
