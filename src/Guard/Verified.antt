-- ===== src/Guard/Verified.antt =====
-- Who needs no challenge.
use mathlib.Core.Path.{ap}
use filehost.Base.{ℕ, ◌-◌, ◌<◌, ◌≡◌, refl, ◌∙◌, Bool, true, false, some, [], arith}
use filehost.Base.Results.{ok, >>=-ok, pure}
use filehost.Ip.Addr.{IpAddr, ip_eq, ip_eq_iff}
use filehost.Ttl.Cache.{Entries, look, set}
use filehost.Ttl.Laws.{get-insert_self, hit}
use filehost.Db.Model.{Score}
use filehost.Db.World.{World}
use filehost.Db.Bans.{is_ip_challenge_verified, upsert_challenge_verified_ip}
use filehost.Guard.BanCache.{readings}
use filehost.Guard.Challenge.{
  verified_ips, mark_ip_verified, is_ip_verified, is_ip_suspect, needs_challenge,
}

look-set :
    (ttl now stored : ℕ) (ip : IpAddr) (m : Entries IpAddr Bool)
    → now - stored < ttl
    → look ip_eq ttl now ip (set ip_eq stored ip true m) ≡ some true
unfolding look set
look-set ttl now stored ip m h = ground (arith, get-insert_self ip_eq ip_eq_iff ip (stored, true) m)

-- After an address has been marked as verified, where every query is answered, it needs no challenge in
-- any later state whose cache of verified addresses is the one it was marked in, as long as less than
-- the cache's time to live has passed: whatever it uploaded, and whether the database answers then or
-- not.
pub needs_challenge-mark_ip_verified :
    (ttl ttl_seconds : ℕ) (ip : IpAddr) (threshold : Score) (w later : World)
    → w.outages ≡ []
    → later.caches.verified_ips ≡ (mark_ip_verified ip ttl_seconds w).1.caches.verified_ips
    → later.instant - w.instant < ttl
    → ((mark_ip_verified ip ttl_seconds w).0 ≡ ok tt)
      × (needs_challenge ttl ip threshold later ≡ (ok false, later))
unfolding needs_challenge is_ip_verified mark_ip_verified upsert_challenge_verified_ip
needs_challenge-mark_ip_verified ttl ttl_seconds ip threshold w later up kept young =
    let cached : later.caches.verified_ips ≡ set ip_eq w.instant ip true w.caches.verified_ips =
      kept ∙ ground (arith, up) in
    let found : look ip_eq ttl later.instant ip later.caches.verified_ips ≡ some true =
      ap (look ip_eq ttl later.instant ip) cached
      ∙ look-set ttl later.instant w.instant ip w.caches.verified_ips young in
    (
      ground (arith, up),
      >>=-ok (is_ip_verified ttl ip)
          (λ verified. elim verified [ true ↦ pure false | false ↦ is_ip_suspect ttl ip threshold ])
          later true later
          (hit ip_eq ip_eq_iff verified_ips (λ m w. refl) ttl (readings later) ip
            (is_ip_challenge_verified ip) later true found),
    )
