-- ===== src/Cli/Bans.antt =====
-- The commands of src/cli.rs on the bans.
use filehost.Base.{ℕ, Option, none, some, List, length, Bytes, ascii, ◌^◌, ◌-◌, ◌==◌, if◌then◌else◌}
use filehost.Base.Results.{ok, err, ◌>>=◌, ◌>>◌, pure, fail}
use filehost.Ip.Addr.{IpAddr, same_family}
use filehost.Hex.{hex_encode, hex_decode}
use filehost.Times.{parse_rfc3339}
use filehost.Db.Model.{BanType, BannedKey, BannedIpRange}
use filehost.Db.Bans.{
  NewBan, list_banned_ips, insert_banned_ip, delete_banned_ip, BanSet, list_banned, insert_banned,
  delete_banned, banned_filenames, banned_mimes, banned_hashes, banned_user_agents,
}
use filehost.Admin.Reply.{ip_text}
use filehost.Cli.Lines.{
  Line, range_row, key_row, mime_row, banned_range, banned_key, removed, removed_key, CliError,
  Command, query, prints, parse_ban_type, print_list_or_empty, removal_result, CliLibraries,
  or_dash,
}

-- A command on one of the banned sets.
pub data BanKeyCommand : Type 0 where
  list : BanKeyCommand
  add : Bytes → Option Bytes → BanKeyCommand
  remove : Bytes → BanKeyCommand

pub data BanIpCommand : Type 0 where
  list : BanIpCommand
  add : IpAddr → IpAddr → Option Bytes → Option Bytes → ℕ → BanIpCommand
  remove : ℕ → BanIpCommand

pub data BanTarget : Type 0 where
  ip : BanIpCommand → BanTarget
  filename mime hash user_agent : BanKeyCommand → BanTarget

module _ (lib : CliLibraries) where
  abbrev pub or_never : Option ℕ → Bytes
  or_never none = ascii "never"
  or_never (some t) = lib.formats.format_ts t

  abbrev pub range_line : BannedIpRange → Line
  range_line r =
      range_row r.id (ip_text lib.formats r.start_ip) (ip_text lib.formats r.end_ip) r.ban_type
        (or_dash r.reason) (or_never r.expires_timestamp)

  -- The expiry of `--expires`: none, a time, or a text that is none (the outer `none`).
  abbrev pub expiry_of : Option Bytes → Option (Option ℕ)
  expiry_of none = some none
  expiry_of (some s) = elim (parse_rfc3339 lib.parse_time s) [
    | none ↦ none
    | some t ↦ some (some t)
  ]

  abbrev pub new_ban : IpAddr → IpAddr → Option Bytes → Option ℕ → BanType → NewBan
  new_ban start end reason expires ban_type = record {
    start_ip = start;
    end_ip = end;
    reason = reason;
    expires_timestamp = expires;
    blacklist_id = none;
    ban_type = ban_type;
  }

  abbrev pub add_range :
      IpAddr → IpAddr → Option Bytes → Option Bytes → BanType → Command (List Line)
  add_range start end reason expires ban_type = elim (expiry_of expires) [
    | none ↦ fail CliError.invalid_expires
    | some e ↦ query (insert_banned_ip (new_ban start end reason e ban_type)) >>= λ range.
        prints (banned_range start end range)
  ]

  -- `ban_ip`; the limit of the listing is `i64::MAX`.
  unfoldable pub ban_ip : BanIpCommand → Command (List Line)
  ban_ip BanIpCommand.list = query (list_banned_ips (2 ^ 63 - 1) 0) >>= λ entries.
      pure (print_list_or_empty entries (ascii "No banned IP ranges.") range_line)
  ban_ip (BanIpCommand.add start end reason expires type_) =
      if same_family start end
      then (elim (parse_ban_type type_) [
        | err e ↦ fail e
        | ok ban_type ↦ add_range start end reason expires ban_type
      ])
      else fail CliError.mixed_families
  ban_ip (BanIpCommand.remove range) =
      query (delete_banned_ip range) >>= λ found. removal_result found (removed range)

  -- The calls that the four sets' commands make.
  abbrev pub list_keys : BanSet → Bytes → (BannedKey → Line) → Command (List Line)
  list_keys s empty_msg print_one =
      query (list_banned s) >>= λ entries. pure (print_list_or_empty entries empty_msg print_one)

  abbrev pub add_key : BanSet → Bytes → Bytes → Option Bytes → Command (List Line)
  add_key s shown key reason = query (insert_banned s key reason) >> prints (banned_key shown)

  abbrev pub remove_key : BanSet → Bytes → Bytes → Command (List Line)
  remove_key s shown key =
      query (delete_banned s key) >>= λ found. removal_result found (removed_key shown)

  abbrev pub key_line : BannedKey → Line
  key_line e = key_row e.key (or_dash e.reason)

  unfoldable pub ban_filename : BanKeyCommand → Command (List Line)
  ban_filename BanKeyCommand.list =
      list_keys (banned_filenames lib.collate lib.lower) (ascii "No banned filename patterns.")
        key_line
  ban_filename (BanKeyCommand.add pattern reason) = elim (lib.regex_error pattern) [
    | some message ↦ fail (CliError.invalid_regex message)
    | none ↦ add_key (banned_filenames lib.collate lib.lower) pattern pattern reason
  ]
  ban_filename (BanKeyCommand.remove pattern) =
      remove_key (banned_filenames lib.collate lib.lower) pattern pattern

  -- A mime is added without a reason.
  unfoldable pub ban_mime : BanKeyCommand → Command (List Line)
  ban_mime BanKeyCommand.list =
      list_keys (banned_mimes lib.collate lib.lower) (ascii "No banned mime types.")
        (λ e. mime_row e.key)
  ban_mime (BanKeyCommand.add key reason) =
      add_key (banned_mimes lib.collate lib.lower) key key none
  ban_mime (BanKeyCommand.remove key) = remove_key (banned_mimes lib.collate lib.lower) key key

  unfoldable pub ban_hash : BanKeyCommand → Command (List Line)
  ban_hash BanKeyCommand.list =
      list_keys banned_hashes (ascii "No banned hashes.")
        (λ e. key_row (hex_encode e.key) (or_dash e.reason))
  ban_hash (BanKeyCommand.add hex reason) = elim (hex_decode hex) [
    | none ↦ fail CliError.invalid_hash
    | some bytes ↦
        if length bytes == 32
        then (add_key banned_hashes hex bytes reason)
        else fail CliError.invalid_hash_length
  ]
  ban_hash (BanKeyCommand.remove hex) = elim (hex_decode hex) [
    | none ↦ fail CliError.invalid_hash
    | some bytes ↦ remove_key banned_hashes hex bytes
  ]

  unfoldable pub ban_user_agent : BanKeyCommand → Command (List Line)
  ban_user_agent BanKeyCommand.list =
      list_keys (banned_user_agents lib.collate lib.lower) (ascii "No banned user agent patterns.")
        key_line
  ban_user_agent (BanKeyCommand.add pattern reason) =
      add_key (banned_user_agents lib.collate lib.lower) pattern pattern reason
  ban_user_agent (BanKeyCommand.remove pattern) =
      remove_key (banned_user_agents lib.collate lib.lower) pattern pattern

  unfoldable pub ban : BanTarget → Command (List Line)
  ban (BanTarget.ip c) = ban_ip c
  ban (BanTarget.filename c) = ban_filename c
  ban (BanTarget.mime c) = ban_mime c
  ban (BanTarget.hash c) = ban_hash c
  ban (BanTarget.user_agent c) = ban_user_agent c
