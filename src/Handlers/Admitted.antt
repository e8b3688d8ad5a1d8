-- ===== src/Handlers/Admitted.antt =====
-- What an upload that passes the gates has been checked for.
use mathlib.Core.Path.{ap}
use filehost.Base.{ℕ, ◌≡◌, sym, ◌∙◌, inl, inr, Bool, false, Option, none, some, Bytes, arith}
use filehost.Base.Results.{Result, ok, err, Step, ◌>>◌, Result-cases, >>=-ok, >>=-err}
use filehost.Ip.Addr.{IpAddr}
use filehost.Db.Model.{BanType}
use filehost.Db.World.{World, Query, DbError}
use filehost.Db.Uploads.{uploads_count_last_day, uploads_bytes_last_day}
use filehost.Guard.BanCache.{is_ip_banned, is_user_agent_banned}
use filehost.Guard.Challenge.{needs_challenge}
use filehost.Handlers.Reply.{Settings}
use filehost.Handlers.Gates.{
  reaches, respond_to_check, check_not_banned, check_under_limit, challenge_gate, ip_gate,
  agent_gate, count_gate, bytes_gate, last_gate, enforce_upload_gates,
}

-- Where a sequence succeeds, both of its steps do.
then-ok :
    {E A B : Type 0} (m : Step World E A) (k : Step World E B) (w : World) {b : B}
    → ((m >> k) w).0 ≡ ok b
    → ((a : A) × ((m w).0 ≡ ok a)) × ((k (m w).1).0 ≡ ok b)
then-ok m k w h = elim (Result-cases (m w).0) [
  | inl (a, e) ↦
      ((a, e), ap (λ p. p.0) (sym (>>=-ok m (λ u. k) w a (m w).1 (ap (λ r. (r, (m w).1)) e))) ∙ h)
  | inr (x, e) ↦
      let stops : ((m >> k) w).0 ≡ err x =
        ap (λ p. p.0) (>>=-err m (λ u. k) w x (m w).1 (ap (λ r. (r, (m w).1)) e)) in
      absurd (ground (arith, stops))
]

module _ (show_status : ℕ → Bytes) where
  not_banned :
      (check : Query Bool) (message : Bytes) (w : World)
      → (check_not_banned show_status check message w).0 ≡ ok tt
      → (check w).0 ≡ ok false
  unfolding check_not_banned respond_to_check
  not_banned check message w h = ground (arith, Result-cases (check w).0)

  -- The limit is not set, or the query answered a number that does not reach it.
  abbrev pub IsUnder : Option ℕ → Result DbError ℕ → Type 0
  IsUnder none r = Unit
  IsUnder (some limit) r = (n : ℕ) × (r ≡ ok n) × (reaches limit n ≡ false)

  check_under_limit-IsUnder :
      (limit : Option ℕ) (check : Query ℕ) (message : Bytes) (w : World)
      → (check_under_limit show_status limit check message w).0 ≡ ok tt
      → IsUnder limit (check w).0
  unfolding check_under_limit respond_to_check
  check_under_limit-IsUnder none check message w h = tt
  check_under_limit-IsUnder (some limit) check message w h = elim (Result-cases (check w).0) [
    | inl (n, e) ↦ (n, e, ground (arith, e))
    | inr (x, e) ↦ absurd (ground (arith, e))
  ]

  unchallenged :
      (settings : Settings) (formatted : Bool) (needed : Result DbError Bool)
      → challenge_gate show_status settings formatted needed ≡ ok tt
      → needed ≡ ok false
  unfolding challenge_gate
  unchallenged settings formatted needed h = ground (arith, Result-cases needed)

  module _ (collate lower to_lowercase : Bytes → Bytes) (settings : Settings) where
    -- The user agent, if there is one, was found not to be banned.
    abbrev pub IsAgentAllowed : Option Bytes → World → Type 0
    IsAgentAllowed none w = Unit
    IsAgentAllowed (some ua) w =
        (is_user_agent_banned settings.ban_cache_ttl_seconds collate lower to_lowercase ua w).0
        ≡ ok false

    allowed :
        (ua : Option Bytes) (w : World)
        → (agent_gate show_status collate lower to_lowercase settings ua w).0 ≡ ok tt
        → IsAgentAllowed ua w
    allowed none w h = tt
    allowed (some ua) w h =
        not_banned
          (is_user_agent_banned settings.ban_cache_ttl_seconds collate lower to_lowercase ua) _ w h

    -- The states after the first gate, and so on.
    abbrev pub past_ip : IpAddr → World → World
    past_ip ip w = (ip_gate show_status collate lower to_lowercase settings ip w).1

    abbrev pub past_agent : IpAddr → Option Bytes → World → World
    past_agent ip ua w =
        (agent_gate show_status collate lower to_lowercase settings ua (past_ip ip w)).1

    abbrev pub past_count : IpAddr → Option Bytes → World → World
    past_count ip ua w =
        (count_gate show_status collate lower to_lowercase settings ip (past_agent ip ua w)).1

    abbrev pub past_bytes : IpAddr → Option Bytes → World → World
    past_bytes ip ua w =
        (bytes_gate show_status collate lower to_lowercase settings ip (past_count ip ua w)).1

    -- A client with an address passes the gates only where each check was made, in this order, was
    -- answered, and spoke for the client: the address is not banned from uploading, nor the user agent,
    -- the numbers of uploads and of bytes of the last day do not reach their limits, where these are
    -- set, and no challenge is needed. A check that fails never lets an upload through.
    pub enforce_upload_gates-ok :
        (ip : IpAddr) (ua : Option Bytes) (formatted : Bool) (w : World)
        → (enforce_upload_gates show_status collate lower to_lowercase settings
            (some ip)
            ua
            formatted
            w).0
          ≡ ok tt
        → ((is_ip_banned settings.ban_cache_ttl_seconds ip BanType.read_only w).0 ≡ ok false)
          × IsAgentAllowed ua (past_ip ip w)
          × IsUnder settings.max_uploads_per_day (uploads_count_last_day ip (past_agent ip ua w)).0
          × IsUnder settings.max_bytes_per_day (uploads_bytes_last_day ip (past_count ip ua w)).0
          × ((needs_challenge settings.ban_cache_ttl_seconds ip settings.nsfw_threshold
                (past_bytes ip ua w)).0
              ≡ ok false)
    unfolding enforce_upload_gates
    enforce_upload_gates-ok ip ua formatted w h =
        let first = ip_gate show_status collate lower to_lowercase settings ip in
        let agent = agent_gate show_status collate lower to_lowercase settings ua in
        let count = count_gate show_status collate lower to_lowercase settings ip in
        let bytes = bytes_gate show_status collate lower to_lowercase settings ip in
        let last = last_gate show_status collate lower to_lowercase settings ip formatted in
        let ((a, e), h1) = then-ok first (agent >> (count >> (bytes >> last))) w h in
        let ((b, f), h2) = then-ok agent (count >> (bytes >> last)) (past_ip ip w) h1 in
        let ((c, g), h3) = then-ok count (bytes >> last) (past_agent ip ua w) h2 in
        let ((d, k), end) = then-ok bytes last (past_count ip ua w) h3 in
        (
          not_banned (is_ip_banned settings.ban_cache_ttl_seconds ip BanType.read_only) _ w e,
          allowed ua (past_ip ip w) f,
          check_under_limit-IsUnder settings.max_uploads_per_day (uploads_count_last_day ip) _
              (past_agent ip ua w) g,
          check_under_limit-IsUnder settings.max_bytes_per_day (uploads_bytes_last_day ip) _
              (past_count ip ua w) k,
          unchallenged settings formatted _ end,
        )
