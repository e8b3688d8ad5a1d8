-- ===== src/Admin/Reply.antt =====
-- What the admin API answers (src/admin.rs), and `respond_list`, `respond_created` and
-- `respond_removed`. A body is the value that is written as JSON. What is only logged is left out.
use filehost.Base.{ℕ, Bool, Option, none, some, List, map, Bytes, ascii, if◌then◌else◌}
use filehost.Base.Results.{Result, ok, err}
use filehost.Hex.{hex_encode}
use filehost.Ip.Addr.{IpAddr, from_db_bytes}
use filehost.Db.Model.{Upload, BannedIpRange, BannedKey, severity, Uuid, Score}
use filehost.Db.World.{World, DbError}
use filehost.Db.Uploads.{is_some}
use filehost.Db.Stats.{MimeUploadCount, GlobalStats}

-- The texts of ids, times and addresses: the libraries'.
pub record Formats : Type 0 where
  pub show_uuid : Uuid → Bytes
  pub format_ts : ℕ → Bytes
  pub format_hour : ℕ → Bytes
  pub show_ip : IpAddr → Bytes

pub record UploadDto : Type 0 where
  pub id : Bytes
  pub upload_timestamp : Bytes
  pub expiry_timestamp : Bytes
  pub deleted : Bool
  pub original_name : Bytes
  pub slug : Bytes
  pub file_size : ℕ
  pub hash : Option Bytes
  pub uploader_ip : Option Bytes
  pub content_type : Option Bytes
  pub user_agent : Option Bytes
  pub nsfw_score : Option Score

pub record BannedIpRangeDto : Type 0 where
  pub id : ℕ
  pub start_ip : Bytes
  pub end_ip : Bytes
  pub reason : Option Bytes
  pub banned_timestamp : Bytes
  pub expires_timestamp : Option Bytes
  pub blacklist_id : Option ℕ
  pub type_ : ℕ

pub record TopUploaderDto : Type 0 where
  pub ip : Bytes
  pub count : ℕ
  pub bytes : ℕ

pub record TopNsfwUploaderDto : Type 0 where
  pub ip : Bytes
  pub count : ℕ
  pub avg_score : Score

pub record StatsDto : Type 0 where
  pub stats : GlobalStats
  pub top_uploaders : List TopUploaderDto
  pub top_nsfw_uploaders : List TopNsfwUploaderDto

pub record HourlyCountDto : Type 0 where
  pub hour : Bytes
  pub count : ℕ

pub record IpStatsDto : Type 0 where
  pub hourly : List HourlyCountDto
  pub top_mimes : List MimeUploadCount

pub data Body : Type 0 where
  empty : Body
  -- the JSON of `ErrorBody`, and the plain text of an error of the framework
  error plain : Bytes → Body
  deleted : ℕ → Body
  id : ℕ → Body
  uploads : List UploadDto → Body
  ranges : List BannedIpRangeDto → Body
  keys : List BannedKey → Body
  stats : StatsDto → Body
  ip_stats : IpStatsDto → Body

pub record AdminResponse : Type 0 where
  pub status : ℕ
  pub body : Body

unfoldable pub json_error : ℕ → Bytes → AdminResponse
json_error status message = record { status = status; body = Body.error message }

unfoldable pub internal_err : AdminResponse
internal_err = json_error 500 (ascii "Something went wrong.")

abbrev pub json : Body → AdminResponse
json body = record { status = 200; body = body }

module _ (formats : Formats) where
  -- `from_db_bytes(…).map(|ip| ip.to_string())`.
  abbrev pub stored_ip : Bytes → Option Bytes
  stored_ip b = elim (from_db_bytes b) [ none ↦ none | some ip ↦ some (formats.show_ip ip) ]

  -- `unwrap_or_default` of that.
  abbrev pub ip_text : Bytes → Bytes
  ip_text b = elim (from_db_bytes b) [ none ↦ ascii "" | some ip ↦ formats.show_ip ip ]

  unfoldable pub upload_dto : Upload → UploadDto
  upload_dto u = record {
    id = formats.show_uuid u.id;
    upload_timestamp = formats.format_ts u.upload_timestamp;
    expiry_timestamp = formats.format_ts u.expiry_timestamp;
    deleted = is_some u.deleted_timestamp;
    original_name = u.original_name;
    slug = u.slug;
    file_size = u.file_size;
    hash = elim u.hash [ none ↦ none | some h ↦ some (hex_encode h) ];
    uploader_ip = elim u.uploader_ip [ none ↦ none | some b ↦ stored_ip b ];
    content_type = u.content_type;
    user_agent = u.user_agent;
    nsfw_score = u.nsfw_score;
  }

  unfoldable pub banned_ip_range_dto : BannedIpRange → BannedIpRangeDto
  banned_ip_range_dto b = record {
    id = b.id;
    start_ip = ip_text b.start_ip;
    end_ip = ip_text b.end_ip;
    reason = b.reason;
    banned_timestamp = formats.format_ts b.banned_timestamp;
    expires_timestamp = elim b.expires_timestamp [
      | none ↦ none
      | some t ↦ some (formats.format_ts t)
    ];
    blacklist_id = b.blacklist_id;
    type_ = severity b.ban_type;
  }

-- `BannedHashDto`: the key in hexadecimal digits.
unfoldable pub banned_hash_dto : BannedKey → BannedKey
banned_hash_dto b = record b { key = hex_encode b.key }

-- The status and body of `respond_list`.
unfoldable pub respond_list :
    {T U : Type 0} → Result DbError (List T) → (T → U) → (List U → Body) → AdminResponse
respond_list (ok rows) f body = json (body (map f rows))
respond_list (err e) f body = internal_err

unfoldable pub respond_created :
    Result DbError (Unit {0}) × World → (World → World) → AdminResponse × World
respond_created (r, w) invalidate = elim r [
  | ok u ↦ (record { status = 201; body = Body.empty }, invalidate w)
  | err e ↦ (internal_err, w)
]

unfoldable pub respond_removed :
    Result DbError Bool × World → (World → World) → AdminResponse × World
respond_removed (r, w) invalidate = elim r [
  | ok removed ↦
      if removed
      then (record { status = 204; body = Body.empty }, invalidate w)
      else (json_error 404 (ascii "Not found"), w)
  | err e ↦ (internal_err, w)
]
