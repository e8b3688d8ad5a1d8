-- ===== src/Admin/Uploads.antt =====
-- The routes on uploads and statistics (src/admin.rs). A path or a query holds texts, which the
-- libraries' parsers `parse_ip` and `parse_uuid` read.
use filehost.Base.{ℕ, min, max, ◌*◌, Bool, false, Option, none, some, List, map, Bytes, ascii}
use filehost.Base.Results.{Result, ok, err}
use filehost.Ip.Addr.{IpAddr}
use filehost.Db.Model.{Upload, Uuid, Score}
use filehost.Db.World.{World, DbError}
use filehost.Db.Deletes.{delete_by_id, delete_by_slug, delete_by_ip}
use filehost.Db.Listing.{ListUploads}
use filehost.Db.Stats.{
  TopUploader, TopNsfwUploader, HourlyUploadCount, MimeUploadCount, GlobalStats, global_stats,
  top_uploader_ips, top_nsfw_uploader_ips, uploads_hourly_counts, uploads_top_mimes,
}
use filehost.Admin.Reply.{
  Formats, Body, AdminResponse, TopUploaderDto, TopNsfwUploaderDto, HourlyCountDto, json_error,
  internal_err, json, upload_dto, ip_text, respond_list,
}
use filehost.Db.Listing

-- An `i64`: a number, or the negative of the successor of one.
pub data ℤ : Type 0 where
  pos negsuc : ℕ → ℤ

-- `limit.unwrap_or(100).clamp(1, 1000)`.
unfoldable pub page_limit : Option ℤ → ℕ
page_limit none = 100
page_limit (some (ℤ.pos n)) = min (max n 1) 1000
page_limit (some (ℤ.negsuc n)) = 1

-- `offset.unwrap_or(0).max(0)`.
unfoldable pub page_offset : Option ℤ → ℕ
page_offset none = 0
page_offset (some (ℤ.pos n)) = n
page_offset (some (ℤ.negsuc n)) = 0

pub record ListUploadsQuery : Type 0 where
  pub ip : Option Bytes
  pub slug : Option Bytes
  pub include_deleted : Option Bool
  pub min_nsfw_score : Option Score
  pub limit : Option ℤ
  pub offset : Option ℤ

abbrev pub bad_request : Bytes → World → AdminResponse × World
bad_request message w = (json_error 400 message, w)

-- The answer to a delete.
unfoldable pub deleted_reply : Result DbError ℕ × World → AdminResponse × World
deleted_reply (r, w) = elim r [ ok n ↦ (json (Body.deleted n), w) | err e ↦ (internal_err, w) ]

abbrev pub top_uploaders_limit : ℕ
top_uploaders_limit = 10

abbrev pub ip_stats_hours : ℕ
ip_stats_hours = 24 * 7

module _ (formats : Formats) (parse_ip : Bytes → Option IpAddr) (parse_uuid : Bytes → Option Uuid)
    (collate : Bytes → Bytes) (average : List Score → Score)
    (order : ListUploads → List Upload → List Upload) where
  abbrev pub top_uploader_dto : TopUploader → TopUploaderDto
  top_uploader_dto u = record { ip = ip_text formats u.ip; count = u.count; bytes = u.bytes }

  abbrev pub top_nsfw_uploader_dto : TopNsfwUploader → TopNsfwUploaderDto
  top_nsfw_uploader_dto u = record {
    ip = ip_text formats u.ip;
    count = u.count;
    avg_score = u.avg_score;
  }

  abbrev pub stats_of : GlobalStats → List TopUploader → List TopNsfwUploader → AdminResponse
  stats_of s top nsfw = json (
      Body.stats (record {
        stats = s;
        top_uploaders = map top_uploader_dto top;
        top_nsfw_uploaders = map top_nsfw_uploader_dto nsfw;
      }))

  unfoldable pub stats : Score → World → AdminResponse × World
  stats nsfw_threshold w =
      let (r, w1) = global_stats w in
      elim r [
        | err e ↦ (internal_err, w1)
        | ok s ↦
            let (q, w2) = top_uploader_ips top_uploaders_limit w1 in
            elim q [
              | err e ↦ (internal_err, w2)
              | ok top ↦
                  let (p, w3) =
                    top_nsfw_uploader_ips average nsfw_threshold top_uploaders_limit w2 in
                  elim p [ err e ↦ (internal_err, w3) | ok nsfw ↦ (stats_of s top nsfw, w3) ]
            ]
      ]

  abbrev pub hourly_count_dto : HourlyUploadCount → HourlyCountDto
  hourly_count_dto h = record { hour = formats.format_hour h.hour; count = h.count }

  abbrev pub ip_stats_of : List HourlyUploadCount → List MimeUploadCount → AdminResponse
  ip_stats_of hourly top =
      json (Body.ip_stats (record { hourly = map hourly_count_dto hourly; top_mimes = top }))

  unfoldable pub ip_stats : Bytes → World → AdminResponse × World
  ip_stats path w = elim (parse_ip path) [
    | none ↦ bad_request (ascii "Invalid ip") w
    | some ip ↦
        let (r, w1) = uploads_hourly_counts ip ip_stats_hours w in
        elim r [
          | err e ↦ (internal_err, w1)
          | ok hourly ↦
              let (q, w2) = uploads_top_mimes collate ip 5 w1 in
              elim q [ err e ↦ (internal_err, w2) | ok top ↦ (ip_stats_of hourly top, w2) ]
        ]
  ]

  -- The query of `list_uploads`, with the address that was read.
  abbrev pub listing_of : ListUploadsQuery → Option IpAddr → ListUploads
  listing_of q ip = record {
    ip = ip;
    slug = q.slug;
    include_deleted = elim q.include_deleted [ none ↦ false | some b ↦ b ];
    min_nsfw_score = q.min_nsfw_score;
    limit = page_limit q.limit;
    offset = page_offset q.offset;
  }

  abbrev pub listing : ListUploadsQuery → Option IpAddr → World → AdminResponse × World
  listing q ip w =
      let (r, w') = Listing.list_uploads collate order (listing_of q ip) w in
      (respond_list r (upload_dto formats) Body.uploads, w')

  unfoldable pub list_uploads : ListUploadsQuery → World → AdminResponse × World
  list_uploads q w = elim q.ip [
    | none ↦ listing q none w
    | some s ↦ elim (parse_ip s) [
      | none ↦ bad_request (ascii "Invalid ip") w
      | some ip ↦ listing q (some ip) w
    ]
  ]

  unfoldable pub delete_upload : Bytes → World → AdminResponse × World
  delete_upload path w = elim (parse_uuid path) [
    | none ↦ bad_request (ascii "Invalid id") w
    | some id ↦ deleted_reply (delete_by_id id w)
  ]

  unfoldable pub delete_upload_by_slug : Bytes → World → AdminResponse × World
  delete_upload_by_slug slug w = deleted_reply (delete_by_slug collate slug w)

  unfoldable pub delete_upload_by_ip : Bytes → World → AdminResponse × World
  delete_upload_by_ip path w = elim (parse_ip path) [
    | none ↦ bad_request (ascii "Invalid ip") w
    | some ip ↦ deleted_reply (delete_by_ip ip w)
  ]
