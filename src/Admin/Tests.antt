-- ===== src/Admin/Tests.antt =====
-- Calls of the admin API at a state.
use filehost.Base.{
  u8_from_str_radix, digits_u8, to_digit, zero, suc, min, ℕ, ◌≡◌, ◌≢◌, ◌⊎◌, refl, true, not, ◌&&◌,
  ◌||◌, Option, none, some, [], ◌∷◌, ◌++◌, any, Bytes, bytes_eq, ascii, leb, arith, if◌then◌else◌,
}
use filehost.Base.Results.{ok}
use filehost.Ip.Addr.{IpAddr, to_db_bytes, same_family}
use filehost.Ip.Octets.{rank}
use filehost.Hex.{hex_decode, decode_pairs}
use filehost.Times.{OffsetDateTime, parse_rfc3339}
use filehost.Db.Columns.{chars}
use filehost.Db.Model.{BanType, BannedKey, severity}
use filehost.Db.Bans.{varchar, covers, unexpired}
use filehost.Db.Samples.{sample, sample_tables}
use filehost.Guard.BanCache.{is_ip_banned, is_filename_banned, is_hash_banned}
use filehost.Admin.Auth.{Denied}
use filehost.Admin.Reply.{Body}
use filehost.Admin.Bans.{
  BannedIpRangeCreate, KeyCreate, ban_type_of, expiry_of, add_banned_ip, add_banned_filename,
  add_banned_hash, remove_banned_hash,
}
use filehost.Admin.Api.{AdminRequest, AdminLibraries, denied, route, serve_admin}
use filehost.Admin.Guarded.{serve_admin_cases}
use filehost.Admin.Enforced.{add_banned_ip_lem, add_banned_filename_lem}
use filehost.Admin.Unbanned.{remove_banned_hash-add_banned_hash}

abbrev parse_ip : Bytes → Option IpAddr
parse_ip s =
    if bytes_eq s (ascii "0.0.0.5")
    then some (IpAddr.v4 5)
    else (if bytes_eq s (ascii "0.0.0.9") then some (IpAddr.v4 9) else none)

abbrev parse_time : Bytes → Option OffsetDateTime
parse_time s = some (record { date_time = 150; ahead = 0; behind = 0 })

abbrev body : BannedIpRangeCreate
body = record {
  start_ip = ascii "0.0.0.5";
  end_ip = ascii "0.0.0.9";
  reason = none;
  expires_timestamp = some (ascii "then");
  blacklist_id = none;
  type_ = 2;
}

body_expiry : expiry_of parse_ip parse_time body.expires_timestamp ≡ some (some 150)
unfolding parse_rfc3339
body_expiry = refl

body_type : ban_type_of 2 ≡ some BanType.full
unfolding ban_type_of
body_type = refl

one_family : same_family (IpAddr.v4 5) (IpAddr.v4 9) ≡ true
unfolding same_family
one_family = refl

add_banned_ip_lem_example :
    ((add_banned_ip parse_ip parse_time body sample).0 ≡ record { status = 201; body = Body.id 2 })
    × ((is_ip_banned 300
          (IpAddr.v4 7)
          BanType.full
          (add_banned_ip parse_ip parse_time body sample).1).0
        ≡ ok (
            any (covers (to_db_bytes (IpAddr.v4 7)) BanType.full 100) sample_tables.banned_ip_ranges
            || (((leb (rank (IpAddr.v4 5)) (rank (IpAddr.v4 7))
                    && leb (rank (IpAddr.v4 7)) (rank (IpAddr.v4 9)))
                  && leb (severity BanType.full) (severity BanType.full))
                && unexpired 100 (some 150))))
add_banned_ip_lem_example =
    add_banned_ip_lem parse_ip parse_time body (IpAddr.v4 5) (IpAddr.v4 9) (some 150) BanType.full
      sample 300 (IpAddr.v4 7) BanType.full refl refl refl one_family body_expiry body_type
      (omega arith) (omega arith) (omega arith)

abbrev pattern_body : KeyCreate
pattern_body = record { key = ascii "x"; reason = none }

add_banned_filename_lem_example :
    ((add_banned_filename (λ b. b) (λ b. b) (λ b. b) (λ b. none) pattern_body sample).0
      ≡ record { status = 201; body = Body.empty })
    × ((is_filename_banned 300
          (λ b. b)
          (λ b. b)
          (λ b. b)
          (λ b. true)
          bytes_eq
          (ascii "x")
          (add_banned_filename (λ b. b) (λ b. b) (λ b. b) (λ b. none) pattern_body sample).1).0
        ≡ ok (
            any (λ (r : BannedKey). bytes_eq r.key (ascii "x")) sample_tables.banned_filenames
            || (not (
                  any
                    (λ (r : BannedKey). bytes_eq r.key (ascii "x"))
                    sample_tables.banned_filenames)
                && bytes_eq (ascii "x") (ascii "x"))))
    × ((cut : Bytes) × (ascii "x" ≡ ascii "x" ++ cut))
    × (chars (ascii "x") ≡ min (chars (ascii "x")) 255)
unfolding varchar
add_banned_filename_lem_example =
    add_banned_filename_lem (λ b. b) (λ b. b) (λ b. b) (λ b. none) (λ b. true) bytes_eq 300
      pattern_body (ascii "x") sample refl refl

abbrev hash : ℕ → Bytes
hash zero = []
hash (suc n) = 171 ∷ hash n

abbrev digits : ℕ → Bytes
digits zero = []
digits (suc n) = ascii "ab" ++ digits n

abbrev hash_body : KeyCreate
hash_body = record { key = digits 32; reason = none }

decoded : hex_decode (digits 32) ≡ some (hash 32)
unfolding hex_decode decode_pairs u8_from_str_radix digits_u8 to_digit
decoded = refl

remove_banned_hash-add_banned_hash_example :
    ((add_banned_hash hash_body sample).0 ≡ record { status = 201; body = Body.empty })
    × ((remove_banned_hash (digits 32) (add_banned_hash hash_body sample).1).0
        ≡ record { status = 204; body = Body.empty })
    × ((remove_banned_hash (digits 32) (add_banned_hash hash_body sample).1).1.tables
        ≡ sample_tables)
    × ((is_hash_banned 300 (hash 32) (add_banned_hash hash_body sample).1).0 ≡ ok true)
    × ((is_hash_banned 300
          (ascii "x")
          (remove_banned_hash (digits 32) (add_banned_hash hash_body sample).1).1).0
        ≡ ok (any (λ (r : BannedKey). bytes_eq r.key (ascii "x")) sample_tables.banned_file_hashes))
remove_banned_hash-add_banned_hash_example =
    remove_banned_hash-add_banned_hash 300 hash_body (hash 32) (ascii "x") sample refl decoded refl
      refl

abbrev libraries : AdminLibraries
libraries = record {
  formats = record {
    show_uuid = λ id. [];
    format_ts = λ t. [];
    format_hour = λ t. [];
    show_ip = λ ip. [];
  };
  parse_ip = parse_ip;
  parse_uuid = λ b. none;
  parse_time = parse_time;
  regex_error = λ b. none;
  collate = λ b. b;
  lower = λ b. b;
  to_lowercase = λ b. b;
  average = λ scores. 0;
  order = λ q us. us;
}

serve_admin_cases_example :
    (((token : Bytes) × (some (ascii "secret") ≡ some token)
        × (some (ascii "Bearer secret") ≡ some (ascii "Bearer " ++ token)))
      × (serve_admin libraries 5
            (some (ascii "secret"))
            (some (ascii "Bearer secret"))
            AdminRequest.stats
            sample
          ≡ route libraries 5 AdminRequest.stats sample))
    ⊎ (((token : Bytes)
          → some (ascii "secret") ≡ some token
          → some (ascii "Bearer secret") ≢ some (ascii "Bearer " ++ token))
        × (d : Denied) × (serve_admin libraries 5
              (some (ascii "secret"))
              (some (ascii "Bearer secret"))
              AdminRequest.stats
              sample
            ≡ (denied d, sample)))
serve_admin_cases_example =
    serve_admin_cases libraries 5 (some (ascii "secret")) (some (ascii "Bearer secret"))
      AdminRequest.stats sample

-- Two characters, of which the second has two bytes.
cut : varchar 2 (97 ∷ 195 ∷ 188 ∷ 98 ∷ []) ≡ 97 ∷ 195 ∷ 188 ∷ []
unfolding varchar
cut = refl
