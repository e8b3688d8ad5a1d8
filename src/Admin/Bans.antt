-- ===== src/Admin/Bans.antt =====
-- The routes on bans (src/admin.rs). `parse_ip`, `parse_time` and `regex_error` stand for the
-- libraries' parsers; `to_lowercase` is the standard library's.
use filehost.Base.{ℕ, Option, none, some, Bytes, ascii, ◌++◌, length, ◌==◌, if◌then◌else◌}
use filehost.Base.Results.{Result, ok, err}
use filehost.Ip.Addr.{IpAddr, same_family}
use filehost.Hex.{hex_decode}
use filehost.Times.{OffsetDateTime, parse_rfc3339}
use filehost.Db.Model.{BanType, BannedKey}
use filehost.Db.World.{World, DbError}
use filehost.Db.Bans
use filehost.Db.Bans.{
  NewBan, insert_banned_ip, delete_banned_ip, BanSet, list_banned, insert_banned, delete_banned,
  banned_hashes, banned_filenames, banned_mimes, banned_user_agents,
}
use filehost.Guard.BanCache.{
  invalidate_ip_ranges, invalidate_filenames, invalidate_mimes, invalidate_hashes,
  invalidate_user_agents,
}
use filehost.Admin.Reply.{
  Formats, Body, AdminResponse, internal_err, banned_ip_range_dto, banned_hash_dto, respond_list,
  respond_created, respond_removed,
}
use filehost.Admin.Uploads.{ℤ, page_limit, page_offset, bad_request}

pub record BannedIpRangeCreate : Type 0 where
  pub start_ip : Bytes
  pub end_ip : Bytes
  pub reason : Option Bytes
  pub expires_timestamp : Option Bytes
  pub blacklist_id : Option ℕ
  -- 0 where the body leaves it out
  pub type_ : ℕ

-- The match on `body.type_`.
unfoldable pub ban_type_of : ℕ → Option BanType
ban_type_of n =
    if n == 0
    then some BanType.read_only
    else if n == 1
    then some BanType.read_only
    else if n == 2
    then some BanType.full
    else none

-- A body with a key of a banned set.
pub record KeyCreate : Type 0 where
  pub key : Bytes
  pub reason : Option Bytes

-- The answer to `add_banned_ip`: only a ban that was written empties the cache.
unfoldable pub banned_reply : Result DbError ℕ × World → AdminResponse × World
banned_reply (r, w) = elim r [
  | ok id ↦ (record { status = 201; body = Body.id id }, invalidate_ip_ranges w)
  | err e ↦ (internal_err, w)
]

abbrev pub new_ban : BannedIpRangeCreate → IpAddr → IpAddr → Option ℕ → BanType → NewBan
new_ban body start_ip end_ip expires ban_type = record {
  start_ip = start_ip;
  end_ip = end_ip;
  reason = body.reason;
  expires_timestamp = expires;
  blacklist_id = body.blacklist_id;
  ban_type = ban_type;
}

unfoldable pub remove_banned_ip : ℕ → World → AdminResponse × World
remove_banned_ip id w = respond_removed (delete_banned_ip id w) invalidate_ip_ranges

module _ (parse_ip : Bytes → Option IpAddr) (parse_time : Bytes → Option OffsetDateTime) where
  -- The expiry of a body: none, a time, or a text that is none (the outer `none`).
  abbrev pub expiry_of : Option Bytes → Option (Option ℕ)
  expiry_of none = some none
  expiry_of (some s) = elim (parse_rfc3339 parse_time s) [ none ↦ none | some t ↦ some (some t) ]

  abbrev pub add_range : BannedIpRangeCreate → IpAddr → IpAddr → World → AdminResponse × World
  add_range body start_ip end_ip w = elim (expiry_of body.expires_timestamp) [
    | none ↦ bad_request (ascii "Invalid expires_timestamp") w
    | some expires ↦ elim (ban_type_of body.type_) [
      | none ↦ bad_request (ascii "Invalid type (expected 1 or 2)") w
      | some ban_type ↦
          banned_reply (insert_banned_ip (new_ban body start_ip end_ip expires ban_type) w)
    ]
  ]

  unfoldable pub add_banned_ip : BannedIpRangeCreate → World → AdminResponse × World
  add_banned_ip body w = elim (parse_ip body.start_ip) [
    | none ↦ bad_request (ascii "Invalid start_ip") w
    | some start_ip ↦ elim (parse_ip body.end_ip) [
      | none ↦ bad_request (ascii "Invalid end_ip") w
      | some end_ip ↦
          if same_family start_ip end_ip
          then (add_range body start_ip end_ip w)
          else (bad_request (ascii "start_ip and end_ip must be the same IP version") w)
    ]
  ]

unfoldable pub list_banned_ips : Formats → Option ℤ → Option ℤ → World → AdminResponse × World
list_banned_ips formats limit offset w =
    let (r, w') = Bans.list_banned_ips (page_limit limit) (page_offset offset) w in
    (respond_list r (banned_ip_range_dto formats) Body.ranges, w')

-- The three routes of one banned set, over the functions that the source calls.
abbrev pub list_keys : BanSet → (BannedKey → BannedKey) → World → AdminResponse × World
list_keys s dto w = let (r, w') = list_banned s w in (respond_list r dto Body.keys, w')

abbrev pub add_key : BanSet → (World → World) → Bytes → Option Bytes → World → AdminResponse × World
add_key s invalidate key reason w = respond_created (insert_banned s key reason w) invalidate

abbrev pub remove_key : BanSet → (World → World) → Bytes → World → AdminResponse × World
remove_key s invalidate key w = respond_removed (delete_banned s key w) invalidate

unfoldable pub list_banned_hashes : World → AdminResponse × World
list_banned_hashes w = list_keys banned_hashes banned_hash_dto w

unfoldable pub add_banned_hash : KeyCreate → World → AdminResponse × World
add_banned_hash body w = elim (hex_decode body.key) [
  | none ↦ bad_request (ascii "Invalid hash (expected lowercase hex)") w
  | some hash ↦
      if length hash == 32
      then (add_key banned_hashes invalidate_hashes hash body.reason w)
      else (bad_request (ascii "Invalid hash length (expected 32-byte BLAKE3)") w)
]

unfoldable pub remove_banned_hash : Bytes → World → AdminResponse × World
remove_banned_hash hex w = elim (hex_decode hex) [
  | none ↦ bad_request (ascii "Invalid hash (expected lowercase hex)") w
  | some hash ↦ remove_key banned_hashes invalidate_hashes hash w
]

module _ (collate lower to_lowercase : Bytes → Bytes) (regex_error : Bytes → Option Bytes) where
  unfoldable pub list_banned_filenames : World → AdminResponse × World
  list_banned_filenames w = list_keys (banned_filenames collate lower) (λ k. k) w

  -- `regex_error` is the error of `Regex::new`, as it is shown, on a text that is no pattern.
  unfoldable pub add_banned_filename : KeyCreate → World → AdminResponse × World
  add_banned_filename body w = elim (regex_error body.key) [
    | some message ↦ bad_request (ascii "Invalid regex: " ++ message) w
    | none ↦ add_key (banned_filenames collate lower) invalidate_filenames body.key body.reason w
  ]

  unfoldable pub remove_banned_filename : Bytes → World → AdminResponse × World
  remove_banned_filename pattern w =
      remove_key (banned_filenames collate lower) invalidate_filenames pattern w

  unfoldable pub list_banned_mimes : World → AdminResponse × World
  list_banned_mimes w = list_keys (banned_mimes collate lower) (λ k. k) w

  unfoldable pub add_banned_mime : Bytes → World → AdminResponse × World
  add_banned_mime mime w =
      add_key (banned_mimes collate lower) invalidate_mimes (to_lowercase mime) none w

  unfoldable pub remove_banned_mime : Bytes → World → AdminResponse × World
  remove_banned_mime mime w =
      remove_key (banned_mimes collate lower) invalidate_mimes (to_lowercase mime) w

  unfoldable pub list_banned_user_agents : World → AdminResponse × World
  list_banned_user_agents w = list_keys (banned_user_agents collate lower) (λ k. k) w

  unfoldable pub add_banned_user_agent : KeyCreate → World → AdminResponse × World
  add_banned_user_agent body w =
      add_key (banned_user_agents collate lower) invalidate_user_agents body.key body.reason w

  unfoldable pub remove_banned_user_agent : Bytes → World → AdminResponse × World
  remove_banned_user_agent pattern w =
      remove_key (banned_user_agents collate lower) invalidate_user_agents pattern w
