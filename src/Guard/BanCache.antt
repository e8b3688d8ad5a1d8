-- ===== src/Guard/BanCache.antt =====
-- `BanCache` (src/ban_cache.rs) over the shared state. A compiled regex is its pattern: `compiles`
-- and `is_match` are the regex library's, and `to_lowercase` is the standard library's. The clock
-- stands still during one call.
use filehost.Base.{ℕ, Bool, true, ◌&&◌, List, map, any, filter, Bytes, bytes_eq, contains, ◌==◌}
use filehost.Base.Results.{◌>>=◌, pure}
use filehost.Ip.Addr.{IpAddr, ip_eq}
use filehost.Ttl.Cache.{Clock, Cell, get_or_refresh, invalidate}
use filehost.Db.Model.{BanType, severity, BannedKey}
use filehost.Db.World.{World, Query}
use filehost.Db.Bans.{
  BanSet, list_banned, banned_filenames, banned_mimes, banned_hashes, banned_user_agents,
}
use filehost.Db.Bans

-- The derived `Eq` of the keys.
abbrev pub same_ban : IpAddr × BanType → IpAddr × BanType → Bool
same_ban (ip, b) (ip', b') = ip_eq ip ip' && (severity b == severity b')

abbrev pub same_unit : Unit {0} → Unit {0} → Bool
same_unit u v = true

-- The four readings of the clock.
abbrev pub readings : World → Clock
readings w = record { first = w.instant; second = w.instant; stored = w.instant; swept = w.instant }

-- The fields of `BanCache`.
abbrev pub ip_bans : Cell World (IpAddr × BanType) Bool
ip_bans = record {
  read = λ w. w.caches.ip_bans;
  write = λ m w. record w { caches = record w.caches { ip_bans = m } };
}

abbrev pub filename_patterns : Cell World (Unit {0}) (List Bytes)
filename_patterns = record {
  read = λ w. w.caches.filename_patterns;
  write = λ m w. record w { caches = record w.caches { filename_patterns = m } };
}

abbrev pub mimes : Cell World (Unit {0}) (List Bytes)
mimes = record {
  read = λ w. w.caches.mimes;
  write = λ m w. record w { caches = record w.caches { mimes = m } };
}

abbrev pub hashes : Cell World (Unit {0}) (List Bytes)
hashes = record {
  read = λ w. w.caches.hashes;
  write = λ m w. record w { caches = record w.caches { hashes = m } };
}

abbrev pub user_agent_patterns : Cell World (Unit {0}) (List Bytes)
user_agent_patterns = record {
  read = λ w. w.caches.user_agent_patterns;
  write = λ m w. record w { caches = record w.caches { user_agent_patterns = m } };
}

-- The keys of a banned set, as the `fetch` closures collect them.
abbrev pub keys : List BannedKey → List Bytes
keys rows = map (λ (r : BannedKey). r.key) rows

module _ (ttl : ℕ) where
  unfoldable pub is_ip_banned : IpAddr → BanType → Query Bool
  is_ip_banned ip ban_type w =
      get_or_refresh same_ban ip_bans ttl (readings w) (ip, ban_type)
        (Bans.is_ip_banned ip ban_type) w

  -- A cached list, from the banned set `s` or as it was.
  unfoldable pub cached :
      Cell World (Unit {0}) (List Bytes) → BanSet → (List Bytes → List Bytes) → Query (List Bytes)
  cached cell s prepare w =
      get_or_refresh same_unit cell ttl (readings w) tt
        (list_banned s >>= λ rows. pure (prepare (keys rows))) w

  unfoldable pub is_in_cached_set : Cell World (Unit {0}) (List Bytes) → BanSet → Bytes → Query Bool
  is_in_cached_set cell s needle =
      cached cell s (λ ks. ks) >>= λ set. pure (any (λ k. bytes_eq k needle) set)

  unfoldable pub is_hash_banned : Bytes → Query Bool
  is_hash_banned hash = is_in_cached_set hashes banned_hashes hash

  module _ (collate lower to_lowercase : Bytes → Bytes) where
    unfoldable pub is_mime_banned : Bytes → Query Bool
    is_mime_banned mime = is_in_cached_set mimes (banned_mimes collate lower) (to_lowercase mime)

    unfoldable pub is_user_agent_banned : Bytes → Query Bool
    is_user_agent_banned user_agent =
        cached user_agent_patterns (banned_user_agents collate lower) (map to_lowercase)
        >>= λ patterns. pure (any (λ p. contains p (to_lowercase user_agent)) patterns)

    module _ (compiles : Bytes → Bool) (is_match : Bytes → Bytes → Bool) where
      -- `filter_map` of `compile_filename_pattern`, which drops what does not compile.
      unfoldable pub is_filename_banned : Bytes → Query Bool
      is_filename_banned filename =
          cached filename_patterns (banned_filenames collate lower) (filter compiles)
          >>= λ patterns. pure (any (λ p. is_match p filename) patterns)

unfoldable pub invalidate_ip_ranges : World → World
invalidate_ip_ranges w = ip_bans.write (invalidate (ip_bans.read w)) w

unfoldable pub invalidate_filenames : World → World
invalidate_filenames w = filename_patterns.write (invalidate (filename_patterns.read w)) w

unfoldable pub invalidate_mimes : World → World
invalidate_mimes w = mimes.write (invalidate (mimes.read w)) w

unfoldable pub invalidate_hashes : World → World
invalidate_hashes w = hashes.write (invalidate (hashes.read w)) w

unfoldable pub invalidate_user_agents : World → World
invalidate_user_agents w = user_agent_patterns.write (invalidate (user_agent_patterns.read w)) w
