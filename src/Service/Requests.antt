-- ===== src/Service/Requests.antt =====
-- The download, the captcha and the scans (src/handlers.rs), and what they leave of the uploads.
use filehost.Base.{ℕ, refl, inl, inr, Bool-cases, Bool, Option, none, some, List, Bytes, leb}
use filehost.Base.Results.{Result, ok, err, Result-cases}
use filehost.Ip.Addr.{IpAddr}
use filehost.Ip.Xff.{XffTrust}
use filehost.Pow.Token.{verify}
use filehost.Db.Model.{Upload, Uuid, Score, BanType}
use filehost.Db.World.{World, DbError}
use filehost.Db.Uploads.{log_access, get_upload_by_slug}
use filehost.Db.Bans.{insert_banned, banned_hashes}
use filehost.Guard.BanCache.{invalidate_hashes}
use filehost.Guard.Challenge.{mark_ip_suspect}
use filehost.Handlers.Reply.{Settings}
use filehost.Handlers.Types.{Mime}
use filehost.Handlers.Process.{Libraries}
use filehost.Handlers.Upload.{Request, extract_ip}
use filehost.Handlers.Download.{Download, send, find_file, after_challenge, after_ban, get_file}
use filehost.Handlers.Captcha.{VerifyRequest, record_verified, captcha_verify}
use filehost.Handlers.Scans.{ScanResult, ban_hash, clamd_task, nsfw_task}
use filehost.Service.Rows.{Evolves}
use filehost.Service.Kept.{
  Kept, Kept-pure, Kept-then, Kept-option, Kept-result, Kept-if, Kept-select, Kept-other,
}
use filehost.Service.Queries.{delete_by_id-Kept, update_nsfw_score-Kept}
use filehost.Service.Guards.{
  is_ip_banned-Kept, needs_challenge-Kept, insert_banned-Kept, mark_ip_verified-Kept,
}

module _ (P : List Upload → Type 0) where
  log_access-Kept :
      (id : Uuid) (ip : Option IpAddr) (ua : Option Bytes) → Kept P (log_access id ip ua)
  unfolding log_access
  log_access-Kept id ip ua = Kept-other P _ (λ now t. refl)

  module _ (lib : Libraries) (parse_mime : Bytes → Option Mime) (settings : Settings)
      (xff_trust : XffTrust) (req : Request) where
    send-Kept :
        (ip : IpAddr) (row : Upload) → Kept P (send lib parse_mime settings xff_trust req ip row)
    unfolding send
    send-Kept ip row = record {
      after = λ w h. (log_access-Kept row.id (some ip) req.user_agent).after w h;
    }

    get_upload_by_slug-Kept : (slug : Bytes) → Kept P (get_upload_by_slug lib.collate slug)
    unfolding get_upload_by_slug
    get_upload_by_slug-Kept slug = Kept-select P _

    find_file-Kept :
        (ip : IpAddr) (slug : Bytes)
        → Kept P (find_file lib parse_mime settings xff_trust req ip slug)
    unfolding find_file
    find_file-Kept ip slug =
        let answer : Option Upload → World → Download × World = λ found w. elim found [
          | none ↦ (Download.not_found, w)
          | some row ↦ send lib parse_mime settings xff_trust req ip row w
        ] in
        Kept-result P answer (λ e w. (Download.server_error, w)) (get_upload_by_slug-Kept slug)
          (λ found. Kept-option P found _ _ (Kept-pure P) (send-Kept ip)) (λ e. Kept-pure P)

    after_challenge-Kept :
        (ip : IpAddr) (slug : Bytes) (r : Result DbError Bool)
        → Kept P (λ w. after_challenge lib parse_mime settings xff_trust req ip slug (r, w))
    after_challenge-Kept ip slug (err e) = Kept-pure P
    after_challenge-Kept ip slug (ok needed) =
        Kept-if P needed (Kept-pure P) (find_file-Kept ip slug)

    after_ban-Kept :
        (ip : IpAddr) (slug : Bytes) (r : Result DbError Bool)
        → Kept P (λ w. after_ban lib parse_mime settings xff_trust req ip slug (r, w))
    after_ban-Kept ip slug (err e) = Kept-pure P
    after_ban-Kept ip slug (ok banned) = Kept-if P banned (Kept-pure P) (
        Kept-then P (after_challenge lib parse_mime settings xff_trust req ip slug)
          (needs_challenge-Kept P settings.ban_cache_ttl_seconds ip settings.nsfw_threshold)
          (after_challenge-Kept ip slug))

    pub get_file-Kept :
        (slug : Bytes) → Kept P (get_file lib parse_mime settings xff_trust req slug)
    unfolding get_file
    get_file-Kept slug =
        Kept-option P (extract_ip lib.parse_ip req xff_trust) _ _ (Kept-pure P) (λ ip.
          Kept-then P (after_ban lib parse_mime settings xff_trust req ip slug)
            (is_ip_banned-Kept P settings.ban_cache_ttl_seconds ip BanType.full)
            (after_ban-Kept ip slug))

  module _ (lib : Libraries) (settings : Settings) (xff_trust : XffTrust)
      (keyed_hash : Bytes → Bytes → Bytes) (sha256 : Bytes → Bytes) (key : Bytes) where
    record_verified-Kept :
        (ip : Option IpAddr)
        → Kept P (record_verified lib settings xff_trust keyed_hash sha256 key ip)
    unfolding record_verified
    record_verified-Kept none = Kept-pure P
    record_verified-Kept (some ip) =
        Kept-result P _ _ (mark_ip_verified-Kept P ip settings.challenge_verified_ttl_seconds)
          (λ u. Kept-pure P) (λ e. Kept-pure P)

    pub captcha_verify-Kept :
        (req : Request) (body : VerifyRequest) (unix : ℕ)
        → Kept P (captcha_verify lib settings xff_trust keyed_hash sha256 key req body unix)
    unfolding captcha_verify
    captcha_verify-Kept req body unix =
        Kept-if P (verify keyed_hash sha256 key unix body.token body.nonce settings.pow_difficulty)
          (record_verified-Kept (extract_ip lib.parse_ip req xff_trust)) (Kept-pure P)

  ban_hash-Kept :
      (hash reason : Bytes) (w : World)
      → P w.tables.uploads
      → P (ban_hash hash reason w).tables.uploads
  unfolding ban_hash invalidate_hashes
  ban_hash-Kept hash reason w h =
      let k = insert_banned-Kept P banned_hashes hash (some reason) (λ rows t. refl) in
      elim (Result-cases ((insert_banned banned_hashes hash (some reason) w).0)) [
        | inl (u, e) ↦ rw (ban_hash, e) (k.after w h)
        | inr (x, e) ↦ rw (ban_hash, e) (k.after w h)
      ]

  module _ (closed : (us vs : List Upload) → Evolves us vs → P us → P vs) where
    pub clamd_task-Kept :
        (result : Option ScanResult) (id : Uuid) (hash : Bytes)
        → Kept P (λ w. (tt {0}, clamd_task result id hash w))
    unfolding clamd_task
    clamd_task-Kept none id hash = Kept-pure P
    clamd_task-Kept (some ScanResult.clean) id hash = Kept-pure P
    clamd_task-Kept (some (ScanResult.infected name)) id hash = record {
      after = λ w h. (delete_by_id-Kept P closed id).after _ (ban_hash-Kept hash _ w h);
    }

    pub nsfw_task-Kept :
        (score : Option Score) (threshold : Score) (ip : Option IpAddr) (id : Uuid)
        → Kept P (λ w. (tt {0}, nsfw_task score threshold ip id w))
    unfolding nsfw_task mark_ip_suspect
    nsfw_task-Kept none threshold ip id = Kept-pure P
    nsfw_task-Kept (some score) threshold none id = record {
      after = λ w h. (update_nsfw_score-Kept P closed id score).after w h;
    }
    nsfw_task-Kept (some score) threshold (some ip) id = record {
      after = λ w h. elim (Bool-cases (leb threshold score)) [
        | inl e ↦ rw e ((update_nsfw_score-Kept P closed id score).after w h)
        | inr e ↦ rw e ((update_nsfw_score-Kept P closed id score).after w h)
      ];
    }
