-- ===== src/Service/Guards.antt =====
-- The checks of src/ban_cache.rs, src/challenge.rs and the gates of src/handlers.rs leave the uploads.
use filehost.Base.{
  ℕ, ◌≡◌, refl, Bool, true, false, Option, none, some, List, Bytes, any, if◌then◌else◌,
}
use filehost.Base.Results.{pure}
use filehost.Ip.Addr.{IpAddr, ip_eq}
use filehost.Ttl.Cache.{Cell}
use filehost.Db.Model.{Upload, Score, BanType, BannedKey, Tables}
use filehost.Db.World.{World, Query}
use filehost.Db.Uploads.{uploads_count_last_day, uploads_bytes_last_day, has_nsfw_upload_last_week}
use filehost.Db.Bans.{
  BanSet, same_key, list_banned, banned_filenames, banned_mimes, banned_hashes, banned_user_agents,
  is_ip_challenge_verified, upsert_challenge_verified_ip, insert_banned, delete_banned,
}
use filehost.Db.Bans
use filehost.Guard.BanCache.{
  same_ban, same_unit, readings, ip_bans, filename_patterns, mimes, hashes, user_agent_patterns,
  cached, is_in_cached_set, is_ip_banned, is_hash_banned, is_mime_banned, is_user_agent_banned,
  is_filename_banned,
}
use filehost.Guard.Challenge.{
  verified_ips, suspect_ips, mark_ip_verified, keep_verified, is_ip_verified, is_ip_suspect,
  needs_challenge,
}
use filehost.Handlers.Reply.{Settings}
use filehost.Handlers.Gates.{
  respond_to_check, check_not_banned, over, check_under_limit, challenge_gate, agent_gate,
  last_gate, enforce_upload_gates,
}
use filehost.Service.Kept.{
  Kept, Kept-pure, Kept-modify, Kept-same, Kept->>=, Kept-select, Kept-other, Kept-get_or_refresh,
}

-- A banned set that is no part of the table of uploads.
abbrev pub IsApart : BanSet → Type 0
IsApart s = (rows : List BannedKey) (t : Tables) → (s.write rows t).uploads ≡ t.uploads

module _ (P : List Upload → Type 0) where
  is_ip_banned-row : (ip : IpAddr) (b : BanType) → Kept P (Bans.is_ip_banned ip b)
  unfolding Bans.is_ip_banned
  is_ip_banned-row ip b = Kept-select P _

  pub is_ip_banned-Kept : (ttl : ℕ) (ip : IpAddr) (b : BanType) → Kept P (is_ip_banned ttl ip b)
  unfolding is_ip_banned
  is_ip_banned-Kept ttl ip b =
      Kept-get_or_refresh P same_ban ip_bans ttl readings (ip, b) _ (λ m w. refl)
        (is_ip_banned-row ip b)

  pub list_banned-Kept : (s : BanSet) → Kept P (list_banned s)
  unfolding list_banned
  list_banned-Kept s = Kept-select P _

  if_same :
      (b : Bool) (t t' : Tables)
      → t'.uploads ≡ t.uploads
      → (if b then t else t').uploads ≡ t.uploads
  if_same true t t' e = refl
  if_same false t t' e = e

  pub insert_banned-Kept :
      (s : BanSet) (key : Bytes) (reason : Option Bytes)
      → IsApart s
      → Kept P (insert_banned s key reason)
  unfolding insert_banned
  insert_banned-Kept s key reason apart =
      Kept-other P _
        (λ now t. if_same (any (same_key s (s.column (s.key_of key))) (s.rows t)) t _ (apart _ t))

  pub delete_banned-Kept : (s : BanSet) (key : Bytes) → IsApart s → Kept P (delete_banned s key)
  unfolding delete_banned
  delete_banned-Kept s key apart = Kept-other P _ (λ now t. apart _ t)

  module _ (ttl : ℕ) where
    cached-Kept :
        (cell : Cell World (Unit {0}) (List Bytes)) (s : BanSet) (prepare : List Bytes → List Bytes)
        → ((m : List (Unit {0} × (ℕ × List Bytes))) (w : World)
            → (cell.write m w).tables.uploads ≡ w.tables.uploads)
        → Kept P (cached ttl cell s prepare)
    unfolding cached
    cached-Kept cell s prepare apart =
        Kept-get_or_refresh P same_unit cell ttl readings tt _ apart
          (Kept->>= P (list_banned s) _ (list_banned-Kept s) (λ rows. Kept-pure P))

    pub is_hash_banned-Kept : (hash : Bytes) → Kept P (is_hash_banned ttl hash)
    unfolding is_hash_banned is_in_cached_set
    is_hash_banned-Kept hash =
        Kept->>= P (cached ttl hashes banned_hashes (λ ks. ks)) _
          (cached-Kept hashes banned_hashes (λ ks. ks) (λ m w. refl)) (λ ks. Kept-pure P)

    module _ (collate lower to_lowercase : Bytes → Bytes) where
      pub is_mime_banned-Kept :
          (mime : Bytes) → Kept P (is_mime_banned ttl collate lower to_lowercase mime)
      unfolding is_mime_banned is_in_cached_set
      is_mime_banned-Kept mime =
          Kept->>= P (cached ttl mimes (banned_mimes collate lower) (λ ks. ks)) _
            (cached-Kept mimes (banned_mimes collate lower) (λ ks. ks) (λ m w. refl))
            (λ ks. Kept-pure P)

      pub is_user_agent_banned-Kept :
          (ua : Bytes) → Kept P (is_user_agent_banned ttl collate lower to_lowercase ua)
      unfolding is_user_agent_banned
      is_user_agent_banned-Kept ua =
          Kept->>= P _ _
            (cached-Kept user_agent_patterns (banned_user_agents collate lower) _ (λ m w. refl))
            (λ ks. Kept-pure P)

      pub is_filename_banned-Kept :
          (compiles : Bytes → Bool) (is_match : Bytes → Bytes → Bool) (name : Bytes)
          → Kept P (is_filename_banned ttl collate lower to_lowercase compiles is_match name)
      unfolding is_filename_banned
      is_filename_banned-Kept compiles is_match name =
          Kept->>= P _ _
            (cached-Kept filename_patterns (banned_filenames collate lower) _ (λ m w. refl))
            (λ ks. Kept-pure P)

    is_ip_verified-Kept : (ip : IpAddr) → Kept P (is_ip_verified ttl ip)
    unfolding is_ip_verified is_ip_challenge_verified
    is_ip_verified-Kept ip =
        Kept-get_or_refresh P ip_eq verified_ips ttl readings ip _ (λ m w. refl) (Kept-select P _)

    is_ip_suspect-Kept : (ip : IpAddr) (score : Score) → Kept P (is_ip_suspect ttl ip score)
    unfolding is_ip_suspect has_nsfw_upload_last_week
    is_ip_suspect-Kept ip score =
        Kept-get_or_refresh P ip_eq suspect_ips ttl readings ip _ (λ m w. refl) (Kept-select P _)

    pub needs_challenge-Kept : (ip : IpAddr) (score : Score) → Kept P (needs_challenge ttl ip score)
    unfolding needs_challenge
    needs_challenge-Kept ip score =
        Kept->>= P (is_ip_verified ttl ip) _ (is_ip_verified-Kept ip) (λ v.
          elim v
            as (λ b. Kept P (elim b [ true ↦ pure false | false ↦ is_ip_suspect ttl ip score ])) [
              | true ↦ Kept-pure P
              | false ↦ is_ip_suspect-Kept ip score
            ])

  pub mark_ip_verified-Kept : (ip : IpAddr) (seconds : ℕ) → Kept P (mark_ip_verified ip seconds)
  unfolding mark_ip_verified upsert_challenge_verified_ip
  mark_ip_verified-Kept ip seconds =
      Kept->>= P (upsert_challenge_verified_ip ip seconds) _ (Kept-other P _ (λ now t. refl))
        (λ u. Kept-modify P (keep_verified ip) (λ w. refl))

  module _ (show_status : ℕ → Bytes) where
    pub check_not_banned-Kept :
        (check : Query Bool) (message : Bytes)
        → Kept P check
        → Kept P (check_not_banned show_status check message)
    unfolding check_not_banned
    check_not_banned-Kept check message k =
        Kept-same P (λ (r, w). (respond_to_check show_status r 403 message, w)) (λ p. refl) k

    check_under_limit-Kept :
        (limit : Option ℕ) (check : Query ℕ) (message : Bytes)
        → Kept P check
        → Kept P (check_under_limit show_status limit check message)
    unfolding check_under_limit
    check_under_limit-Kept none check message k = Kept-pure P
    check_under_limit-Kept (some l) check message k =
        Kept-same P (λ (r, w). (respond_to_check show_status (over show_status l r) 429 message, w))
          (λ p. refl) k

    module _ (collate lower to_lowercase : Bytes → Bytes) (settings : Settings) where
      pub agent_gate-Kept :
          (ua : Option Bytes)
          → Kept P (agent_gate show_status collate lower to_lowercase settings ua)
      agent_gate-Kept none = Kept-pure P
      agent_gate-Kept (some ua) =
          check_not_banned-Kept _ _
            (is_user_agent_banned-Kept settings.ban_cache_ttl_seconds collate lower to_lowercase ua)

      last_gate-Kept :
          (ip : IpAddr) (formatted : Bool)
          → Kept P (last_gate show_status collate lower to_lowercase settings ip formatted)
      last_gate-Kept ip formatted =
          Kept-same P (λ (r, w). (challenge_gate show_status settings formatted r, w)) (λ p. refl)
            (needs_challenge-Kept settings.ban_cache_ttl_seconds ip settings.nsfw_threshold)

      count-Kept : (ip : IpAddr) → Kept P (uploads_count_last_day ip)
      unfolding uploads_count_last_day
      count-Kept ip = Kept-select P _

      bytes-Kept : (ip : IpAddr) → Kept P (uploads_bytes_last_day ip)
      unfolding uploads_bytes_last_day
      bytes-Kept ip = Kept-select P _

      pub enforce_upload_gates-Kept :
          (ip : Option IpAddr) (ua : Option Bytes) (formatted : Bool)
          → Kept P
              (enforce_upload_gates show_status collate lower to_lowercase settings ip ua formatted)
      unfolding enforce_upload_gates
      enforce_upload_gates-Kept none ua formatted = agent_gate-Kept ua
      enforce_upload_gates-Kept (some ip) ua formatted =
          let ttl = settings.ban_cache_ttl_seconds in
          let last = last_gate-Kept ip formatted in
          let size = check_under_limit-Kept settings.max_bytes_per_day _ _ (bytes-Kept ip) in
          let count = check_under_limit-Kept settings.max_uploads_per_day _ _ (count-Kept ip) in
          let ban = check_not_banned-Kept _ _ (is_ip_banned-Kept ttl ip BanType.read_only) in
          Kept->>= P _ _ ban (λ u.
            Kept->>= P _ _ (agent_gate-Kept ua)
              (λ u. Kept->>= P _ _ count (λ u. Kept->>= P _ _ size (λ u. last))))
