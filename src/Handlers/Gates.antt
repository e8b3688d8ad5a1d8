-- ===== src/Handlers/Gates.antt =====
-- `respond_to_check`, the checks made of it and `enforce_upload_gates` (src/handlers.rs). What is only
-- logged is left out.
use filehost.Base.{ℕ, ◌^◌, Bool, ◌||◌, Option, none, some, Bytes, ascii, leb, if◌then◌else◌}
use filehost.Base.Results.{Result, ok, err, Step, ◌>>◌, pure}
use filehost.Ip.Addr.{IpAddr}
use filehost.Db.Model.{BanType}
use filehost.Db.World.{World, Query, DbError}
use filehost.Db.Uploads.{uploads_count_last_day, uploads_bytes_last_day}
use filehost.Guard.BanCache.{is_ip_banned, is_user_agent_banned}
use filehost.Guard.Challenge.{needs_challenge}
use filehost.Handlers.Reply.{
  Settings, Response, error_page, internal_err, challenge_required_response,
}

-- `n >= limit` for a count `n` and a limit, a `usize` cast to `i64`: from 2^63 on it is negative.
unfoldable pub reaches : ℕ → ℕ → Bool
reaches limit n = leb (2 ^ 63) limit || leb limit n

module _ (show_status : ℕ → Bytes) where
  unfoldable pub respond_to_check : Result DbError Bool → ℕ → Bytes → Result Response (Unit {0})
  respond_to_check condition fail_status fail_message = elim condition [
    | ok failed ↦ if failed then err (error_page show_status fail_status fail_message) else ok tt
    | err e ↦ err (internal_err show_status)
  ]

  unfoldable pub check_not_banned : Query Bool → Bytes → Step World Response (Unit {0})
  check_not_banned check forbidden_message w =
      let (r, w') = check w in (respond_to_check r 403 forbidden_message, w')

  -- `Result::map` with the test of the limit.
  abbrev pub over : ℕ → Result DbError ℕ → Result DbError Bool
  over limit (ok n) = ok (reaches limit n)
  over limit (err e) = err e

  unfoldable pub check_under_limit : Option ℕ → Query ℕ → Bytes → Step World Response (Unit {0})
  check_under_limit limit check too_many_message w = elim limit [
    | none ↦ (ok tt, w)
    | some l ↦ let (r, w') = check w in (respond_to_check (over l r) 429 too_many_message, w')
  ]

  -- The last gate: what `needs_challenge` says.
  unfoldable pub challenge_gate : Settings → Bool → Result DbError Bool → Result Response (Unit {0})
  challenge_gate settings formatted needed = elim needed [
    | ok challenge ↦
        if challenge
        then err (challenge_required_response show_status settings (ascii "uploading") formatted)
        else ok tt
    | err e ↦ err (internal_err show_status)
  ]

  module _ (collate lower to_lowercase : Bytes → Bytes) (settings : Settings) where
    abbrev pub ip_gate : IpAddr → Step World Response (Unit {0})
    ip_gate ip =
        check_not_banned (is_ip_banned settings.ban_cache_ttl_seconds ip BanType.read_only)
          (ascii "Your IP is banned from uploading.")

    abbrev pub agent_gate : Option Bytes → Step World Response (Unit {0})
    agent_gate none = pure tt
    agent_gate (some ua) =
        check_not_banned
          (is_user_agent_banned settings.ban_cache_ttl_seconds collate lower to_lowercase ua)
          (ascii "Your client is banned from uploading.")

    abbrev pub count_gate : IpAddr → Step World Response (Unit {0})
    count_gate ip =
        check_under_limit settings.max_uploads_per_day (uploads_count_last_day ip)
          (ascii "Upload limit reached.")

    abbrev pub bytes_gate : IpAddr → Step World Response (Unit {0})
    bytes_gate ip =
        check_under_limit settings.max_bytes_per_day (uploads_bytes_last_day ip)
          (ascii "Daily byte quota reached.")

    abbrev pub last_gate : IpAddr → Bool → Step World Response (Unit {0})
    last_gate ip formatted w =
        let (r, w') = needs_challenge settings.ban_cache_ttl_seconds ip settings.nsfw_threshold w in
        (challenge_gate settings formatted r, w')

    unfoldable pub enforce_upload_gates :
        Option IpAddr → Option Bytes → Bool → Step World Response (Unit {0})
    enforce_upload_gates none user_agent formatted = agent_gate user_agent
    enforce_upload_gates (some ip) user_agent formatted =
        ip_gate ip
        >> (agent_gate user_agent >> (count_gate ip >> (bytes_gate ip >> last_gate ip formatted)))
