-- ===== src/Guard/Tests.antt =====
-- A verified address at a state: an address that was marked, 200 of 300 seconds later.
use filehost.Base.{◌≡◌, refl, false, arith}
use filehost.Base.Results.{ok}
use filehost.Ip.Addr.{IpAddr}
use filehost.Db.World.{World}
use filehost.Db.Samples.{sample}
use filehost.Guard.Challenge.{mark_ip_verified, needs_challenge}
use filehost.Guard.Verified.{needs_challenge-mark_ip_verified}

abbrev later : World
later = record sample {
  instant = 1200;
  caches = (mark_ip_verified (IpAddr.v4 7) 86400 sample).1.caches;
}

needs_challenge-mark_ip_verified_example :
    ((mark_ip_verified (IpAddr.v4 7) 86400 sample).0 ≡ ok tt)
    × (needs_challenge 300 (IpAddr.v4 7) 5 later ≡ (ok false, later))
needs_challenge-mark_ip_verified_example =
    needs_challenge-mark_ip_verified 300 86400 (IpAddr.v4 7) 5 sample later refl refl (omega arith)
