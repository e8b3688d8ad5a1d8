-- ===== src/Guard/Challenge.antt =====
-- `ChallengeCache` (src/challenge.rs) over the shared state.
use filehost.Base.{ℕ, Bool, true, false}
use filehost.Base.Results.{◌>>=◌, ◌>>◌, pure, modify}
use filehost.Ip.Addr.{IpAddr, ip_eq}
use filehost.Ttl.Cache.{Cell, get_or_refresh, set}
use filehost.Db.Model.{Score}
use filehost.Db.World.{World, Query}
use filehost.Db.Uploads.{has_nsfw_upload_last_week}
use filehost.Db.Bans.{is_ip_challenge_verified, upsert_challenge_verified_ip}
use filehost.Guard.BanCache.{readings}

abbrev pub verified_ips : Cell World IpAddr Bool
verified_ips = record {
  read = λ w. w.caches.verified_ips;
  write = λ m w. record w { caches = record w.caches { verified_ips = m } };
}

abbrev pub suspect_ips : Cell World IpAddr Bool
suspect_ips = record {
  read = λ w. w.caches.suspect_ips;
  write = λ m w. record w { caches = record w.caches { suspect_ips = m } };
}

unfoldable pub mark_ip_suspect : IpAddr → World → World
mark_ip_suspect ip w = suspect_ips.write (set ip_eq w.instant ip true (suspect_ips.read w)) w

abbrev pub keep_verified : IpAddr → World → World
keep_verified ip w = verified_ips.write (set ip_eq w.instant ip true (verified_ips.read w)) w

unfoldable pub mark_ip_verified : IpAddr → ℕ → Query (Unit {0})
mark_ip_verified ip ttl_seconds =
    upsert_challenge_verified_ip ip ttl_seconds >> modify (keep_verified ip)

module _ (ttl : ℕ) where
  unfoldable pub is_ip_verified : IpAddr → Query Bool
  is_ip_verified ip w =
      get_or_refresh ip_eq verified_ips ttl (readings w) ip (is_ip_challenge_verified ip) w

  unfoldable pub is_ip_suspect : IpAddr → Score → Query Bool
  is_ip_suspect ip nsfw_threshold w =
      get_or_refresh ip_eq suspect_ips ttl (readings w) ip
        (has_nsfw_upload_last_week ip nsfw_threshold) w

  unfoldable pub needs_challenge : IpAddr → Score → Query Bool
  needs_challenge ip nsfw_threshold = is_ip_verified ip >>= λ verified. elim verified [
    | true ↦ pure false
    | false ↦ is_ip_suspect ip nsfw_threshold
  ]
