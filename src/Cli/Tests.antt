-- ===== src/Cli/Tests.antt =====
-- A ban by the command line and by the admin API, at a state.
use filehost.Base.{refl, none, some, [], Bytes, ascii, bytes_eq, if◌then◌else◌, Option, arith}
use filehost.Ip.Addr.{IpAddr}
use filehost.Db.Samples.{sample}
use filehost.Admin.Bans.{
  KeyCreate, BannedIpRangeCreate, add_banned_ip, add_banned_filename, add_banned_hash,
  add_banned_user_agent,
}
use filehost.Cli.Lines.{CliLibraries}
use filehost.Cli.Bans.{BanKeyCommand, BanIpCommand, ban_ip, ban_filename, ban_hash, ban_user_agent}
use filehost.Cli.Agreed.{Agree, ban_lem}

abbrev libraries : CliLibraries
libraries = record {
  formats = record {
    show_uuid = λ id. [];
    format_ts = λ t. [];
    format_hour = λ t. [];
    show_ip = λ ip. [];
  };
  show_time = λ t. [];
  parse_time = λ s. none;
  regex_error = λ s. none;
  collate = λ s. s;
  lower = λ s. s;
  parse_v4 = λ s. none;
  request = λ url. none;
}

abbrev parse_ip : Bytes → Option IpAddr
parse_ip s = if bytes_eq s (ascii "a") then some (IpAddr.v4 5) else some (IpAddr.v4 9)

abbrev key_body : KeyCreate
key_body = record { key = ascii "ab"; reason = none }

abbrev range_body : BannedIpRangeCreate
range_body = record {
  start_ip = ascii "a";
  end_ip = ascii "b";
  reason = none;
  expires_timestamp = none;
  blacklist_id = none;
  type_ = 2;
}

ban_lem_example :
    Agree
      (ban_hash libraries (BanKeyCommand.add (ascii "ab") none) sample)
      (add_banned_hash key_body sample)
    × Agree
        (ban_filename libraries (BanKeyCommand.add (ascii "ab") none) sample)
        (add_banned_filename (λ s. s) (λ s. s) (λ s. s) (λ s. none) key_body sample)
    × Agree
        (ban_user_agent libraries (BanKeyCommand.add (ascii "ab") none) sample)
        (add_banned_user_agent (λ s. s) (λ s. s) (λ s. s) (λ s. none) key_body sample)
    × Agree
        (ban_ip libraries (BanIpCommand.add (IpAddr.v4 5) (IpAddr.v4 9) none none 2) sample)
        (add_banned_ip parse_ip (λ s. none) range_body sample)
ban_lem_example =
    ban_lem libraries parse_ip (ascii "a") (ascii "b") (IpAddr.v4 5) (IpAddr.v4 9) none none 2
      (λ s. s) (ascii "ab") sample refl refl (ground arith)
