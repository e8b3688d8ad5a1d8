-- ===== src/Cli/Agreed.antt =====
-- The two ways to ban, the commands of src/cli.rs and the routes of src/admin.rs, side by side.
use filehost.Base.{
  ℕ, ◌≡◌, ◌≢◌, ◌↔◌, ◌⊎◌, refl, sym, inl, inr, Option, none, some, List, [], ◌∷◌, Bytes, Bool-cases,
  Option-cases, arith, length, ◌==◌,
}
use filehost.Base.Results.{Result, ok, err, ◌>>◌, ◌>>=◌}
use filehost.Ip.Addr.{IpAddr, same_family}
use filehost.Hex.{hex_decode}
use filehost.Db.Model.{BanType}
use filehost.Db.World.{World, DbError}
use filehost.Db.Bans.{
  insert_banned_ip, insert_banned, banned_hashes, banned_filenames, banned_user_agents,
}
use filehost.Guard.BanCache.{
  invalidate_ip_ranges, invalidate_filenames, invalidate_hashes, invalidate_user_agents,
}
use filehost.Admin.Reply.{AdminResponse, respond_created, json_error, internal_err}
use filehost.Admin.Bans.{
  BannedIpRangeCreate, KeyCreate, ban_type_of, banned_reply, new_ban, add_banned_ip,
  add_banned_filename, add_banned_hash, add_banned_user_agent,
}
use filehost.Admin.Bans
use filehost.Cli.Lines.{
  Line, banned_key, banned_range, CliError, CliLibraries, query, prints, parse_ban_type,
}
use filehost.Cli.Bans.{
  add_range, BanKeyCommand, BanIpCommand, ban_ip, ban_filename, ban_hash, ban_user_agent,
}

-- A command and a route leave the same tables, and the command succeeds exactly where the route
-- answers 201.
abbrev pub Agree : Result CliError (List Line) × World → AdminResponse × World → Type 0
Agree (r, w) (answer, w') =
    (w.tables ≡ w'.tables) × (((lines : List Line) × (r ≡ ok lines)) ↔ (answer.status ≡ 201))

created-Agree :
    (q : Result DbError (Unit {0}) × World) (line : Line) (invalidate : World → World) (w : World)
    → ((v : World) → (invalidate v).tables ≡ v.tables)
    → Agree ((query (λ _. q) >> prints line) w) (respond_created q invalidate)
unfolding respond_created internal_err json_error
created-Agree (ok u, w') line invalidate w keeps =
    (sym (keeps w'), (λ h. refl, λ h. (line ∷ [], refl)))
created-Agree (err e, w') line invalidate w keeps =
    (refl, (λ (lines, h). absurd (ground (arith, h)), λ h. absurd (omega (arith, h))))

refused-Agree :
    (e : CliError) (message : Bytes) (w : World) → Agree (err e, w) (json_error 400 message, w)
unfolding json_error
refused-Agree e message w =
    (refl, (λ (lines, h). absurd (ground (arith, h)), λ h. absurd (omega (arith, h))))

module _ (lib : CliLibraries) where
  hash-Agree :
      (hex : Bytes) (reason : Option Bytes) (w : World)
      → Agree
          (ban_hash lib (BanKeyCommand.add hex reason) w)
          (add_banned_hash (record { key = hex; reason = reason }) w)
  unfolding invalidate_hashes ban_hash add_banned_hash
  hash-Agree hex reason w = elim (Option-cases (hex_decode hex)) [
    | inl e ↦ rw (ban_hash, add_banned_hash, e) (refused-Agree CliError.invalid_hash _ w)
    | inr (bytes, e) ↦ elim (Bool-cases (length bytes == 32)) [
      | inl n ↦
          rw (ban_hash, add_banned_hash, e, n)
            (created-Agree (insert_banned banned_hashes bytes reason w) (banned_key hex)
              invalidate_hashes w (λ v. refl))
      | inr n ↦
          rw (ban_hash, add_banned_hash, e, n) (refused-Agree CliError.invalid_hash_length _ w)
    ]
  ]

  filename-Agree :
      (to_lowercase : Bytes → Bytes) (pattern : Bytes) (reason : Option Bytes) (w : World)
      → Agree (ban_filename lib (BanKeyCommand.add pattern reason) w) (
          add_banned_filename lib.collate lib.lower to_lowercase lib.regex_error
            (record { key = pattern; reason = reason })
            w)
  unfolding invalidate_filenames ban_filename add_banned_filename
  filename-Agree to_lowercase pattern reason w = elim (Option-cases (lib.regex_error pattern)) [
    | inl e ↦
        rw (ban_filename, add_banned_filename, e)
          (created-Agree (insert_banned (banned_filenames lib.collate lib.lower) pattern reason w)
            (banned_key pattern) invalidate_filenames w (λ v. refl))
    | inr (message, e) ↦
        rw (ban_filename, add_banned_filename, e)
          (refused-Agree (CliError.invalid_regex message) _ w)
  ]

  user_agent-Agree :
      (to_lowercase : Bytes → Bytes) (pattern : Bytes) (reason : Option Bytes) (w : World)
      → Agree (ban_user_agent lib (BanKeyCommand.add pattern reason) w) (
          add_banned_user_agent lib.collate lib.lower to_lowercase lib.regex_error
            (record { key = pattern; reason = reason })
            w)
  unfolding invalidate_user_agents ban_user_agent add_banned_user_agent
  user_agent-Agree to_lowercase pattern reason w =
      created-Agree (insert_banned (banned_user_agents lib.collate lib.lower) pattern reason w)
        (banned_key pattern) invalidate_user_agents w (λ v. refl)

  -- The two readings of a type agree but on 0, which a body stands for that leaves its type out.
  types-agree :
      (n : ℕ)
      → n ≢ 0
      → ((b : BanType) × (parse_ban_type n ≡ ok b) × (ban_type_of n ≡ some b))
        ⊎ ((parse_ban_type n ≡ err CliError.invalid_type) × (ban_type_of n ≡ none))
  unfolding parse_ban_type ban_type_of
  types-agree n h = elim (Bool-cases (n == 1)) [
    | inl e ↦ inl (BanType.read_only, ground (arith, e), ground (arith, e))
    | inr e ↦ elim (Bool-cases (n == 2)) [
      | inl f ↦ inl (BanType.full, ground (arith, e, f), ground (arith, e, f))
      | inr f ↦ inr (ground (arith, e, f), ground (arith, e, f))
    ]
  ]

  inserted-Agree :
      (q : Result DbError ℕ × World) (start end : IpAddr) (w : World)
      → Agree
          ((query (λ _. q) >>= λ range. prints (banned_range start end range)) w)
          (banned_reply q)
  unfolding banned_reply internal_err json_error invalidate_ip_ranges
  inserted-Agree (ok id, w') start end w =
      (refl, (λ h. refl, λ h. (banned_range start end id ∷ [], refl)))
  inserted-Agree (err e, w') start end w =
      (refl, (λ (lines, h). absurd (ground (arith, h)), λ h. absurd (omega (arith, h))))

  module _ (parse_ip : Bytes → Option IpAddr) (start_ip end_ip : Bytes) (start end : IpAddr)
      (reason expires : Option Bytes) (type_ : ℕ) where
    abbrev body : BannedIpRangeCreate
    body = record {
      start_ip = start_ip;
      end_ip = end_ip;
      reason = reason;
      expires_timestamp = expires;
      blacklist_id = none;
      type_ = type_;
    }

    ip-Agree :
        (w : World)
        → parse_ip start_ip ≡ some start
        → parse_ip end_ip ≡ some end
        → type_ ≢ 0
        → Agree
            (ban_ip lib (BanIpCommand.add start end reason expires type_) w)
            (add_banned_ip parse_ip lib.parse_time body w)
    unfolding ban_ip add_banned_ip
    ip-Agree w s e t = elim (Bool-cases (same_family start end)) [
      | inr f ↦ rw (ban_ip, add_banned_ip, s, e, f) (refused-Agree CliError.mixed_families _ w)
      | inl f ↦ elim (Option-cases (Bans.expiry_of parse_ip lib.parse_time expires)) [
        | inl x ↦ elim (types-agree type_ t) [
          | inr (g, h) ↦
              rw (ban_ip, add_banned_ip, s, e, f, g, x) (refused-Agree CliError.invalid_type _ w)
          | inl (b, g, h) ↦
              rw (ban_ip, add_banned_ip, s, e, f, g, x, add_range)
                (refused-Agree CliError.invalid_expires _ w)
        ]
        | inr (u, x) ↦ elim (types-agree type_ t) [
          | inr (g, h) ↦
              rw (ban_ip, add_banned_ip, s, e, f, g, x, h) (refused-Agree CliError.invalid_type _ w)
          | inl (b, g, h) ↦
              rw (ban_ip, add_banned_ip, s, e, f, g, x, h, add_range)
                (inserted-Agree (insert_banned_ip (new_ban body start end u b) w) start end w)
        ]
      ]
    ]

    -- For a hash, a pattern of names, a pattern of user agents, and a range of addresses that the
    -- request's texts name, without a blacklist and with a type other than 0: the command that bans it
    -- and the route of the admin API that does leave the same tables, and the one succeeds exactly
    -- where the other answers 201, also where the database fails. The bans of file types, whose two
    -- ways lower the case by different functions, are not among these.
    pub ban_lem :
        (to_lowercase : Bytes → Bytes) (key : Bytes) (w : World)
        → parse_ip start_ip ≡ some start
        → parse_ip end_ip ≡ some end
        → type_ ≢ 0
        → let create : KeyCreate = record { key = key; reason = reason } in
          Agree (ban_hash lib (BanKeyCommand.add key reason) w) (add_banned_hash create w)
          × Agree
              (ban_filename lib (BanKeyCommand.add key reason) w)
              (add_banned_filename lib.collate lib.lower to_lowercase lib.regex_error create w)
          × Agree
              (ban_user_agent lib (BanKeyCommand.add key reason) w)
              (add_banned_user_agent lib.collate lib.lower to_lowercase lib.regex_error create w)
          × Agree
              (ban_ip lib (BanIpCommand.add start end reason expires type_) w)
              (add_banned_ip parse_ip lib.parse_time body w)
    ban_lem to_lowercase key w s e t = (
      hash-Agree key reason w,
      filename-Agree to_lowercase key reason w,
      user_agent-Agree to_lowercase key reason w,
      ip-Agree w s e t,
    )
