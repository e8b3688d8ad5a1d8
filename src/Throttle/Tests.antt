-- ===== src/Throttle/Tests.antt =====
-- The throttle at inputs: 1000 bytes per second, with a burst of 500 bytes.
use filehost.Base.{ℕ, ◌+◌, ◌*◌, ◌/◌, ◌≡◌, refl, none, some, List, [], ◌∷◌, ascii, arith}
use filehost.Base.Results.{ok}
use filehost.Ip.Addr.{v4, ip_eq}
use filehost.Ttl.Cache.{get, insert, sweep}
use filehost.Throttle.Bucket.{
  giga, minute, flow, wait, panic, Limit, refill, charge, Buckets, bucket_of, reserve, throttle,
}
use filehost.Throttle.Delivered.{AreDue, drive_delivers}
use filehost.Throttle.Bounds.{charge_credits_wait, IsWithin, reserve-IsWithin}
use filehost.Throttle.Body.{ready, pending, ThrottledBody, pace, poll_inner, poll_next, drive}

abbrev limit : Limit
limit = record { rate = 1000; burst = 500 }

-- 800 bytes at once: 300 of them wait for 0.3 seconds.
throttle_waits : (throttle limit 7 (v4 1) 800 []).0 ≡ some (7 + 300_000_000)
unfolding throttle reserve charge refill bucket_of sweep get insert
throttle_waits = refl

-- A rate of zero makes the second chunk panic.
rate_zero_panics : (reserve (record { rate = 0; burst = 500 }) 7 (v4 1) 501 []).0 ≡ panic
unfolding reserve charge refill bucket_of sweep get
rate_zero_panics = refl

charge_credits_wait_example :
    let d = 400 * giga / limit.rate in
    (charge limit 3 400 (3, 0) ≡ (wait d, (3, 0)))
    × (charge limit (3 + d) 400 (3, 0) ≡ (flow, (3 + d, 0)))
    × (d * limit.rate ≡ 400 * giga)
charge_credits_wait_example =
    charge_credits_wait limit 3 400 (omega arith) (omega arith) (omega arith) refl

abbrev buckets : Buckets
buckets = (v4 1, (0, 5)) ∷ (v4 2, (minute, 500 * giga)) ∷ []

reserve-IsWithin_example :
    let map' = (reserve limit (minute + 1) (v4 1) 10 buckets).1 in
    IsWithin limit map'
    × (get ip_eq (v4 2) map' ≡ get ip_eq (v4 2) (sweep minute (minute + 1) buckets))
unfolding ip_eq
reserve-IsWithin_example =
    reserve-IsWithin limit (minute + 1) (v4 1) (v4 2) 10 buckets (omega arith) refl

-- A burst that a minute at the rate does not pay for.
abbrev large : Limit
large = record { rate = 1; burst = 100 }

abbrev body : ThrottledBody
body = record {
  inner = ready (some (ok (ascii "abc"))) ∷ pending ∷ ready (some (ok (ascii "de"))) ∷ [];
  ip = v4 1;
  limit = record { rate = 1; burst = 1 };
  buffered = none;
}

drive_holds_back : (drive (0 ∷ 1 ∷ 2_000_000_000 ∷ []) body []).0 ≡ ascii "abc" ∷ []
unfolding drive poll_next poll_inner pace reserve charge refill bucket_of sweep get insert
drive_holds_back = refl

-- Six polls, each at or after the deadline that is set then.
abbrev polls : List ℕ
polls = 0 ∷ 9 * giga ∷ 9 * giga ∷ 9 * giga ∷ 99 * giga ∷ 99 * giga ∷ []

polls-AreDue : AreDue polls body []
unfolding poll_next poll_inner pace reserve charge refill bucket_of sweep get insert ip_eq
polls-AreDue = (tt, (omega arith, (tt, (tt, (omega arith, (tt, tt))))))

drive_delivers_example : (drive polls body []).0 ≡ ascii "abc" ∷ ascii "de" ∷ []
drive_delivers_example = drive_delivers polls body [] (omega arith) polls-AreDue (omega arith)
