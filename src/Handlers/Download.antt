-- ===== src/Handlers/Download.antt =====
-- `get_file` (src/handlers.rs), up to the opening of the file: who is refused, and how the file found
-- is served. `parse_mime` is the mime library's.
use filehost.Base.{Bool, false, Option, none, some, ◌++◌, any, Bytes, ascii, ◌==◌, if◌then◌else◌}
use filehost.Base.Results.{Result, ok, err}
use filehost.Ip.Addr.{IpAddr}
use filehost.Db.Model.{Upload, Uuid, BanType}
use filehost.Ip.Xff.{XffTrust}
use filehost.Db.World.{World, DbError}
use filehost.Db.Uploads.{get_upload_by_slug, log_access}
use filehost.Guard.BanCache.{is_ip_banned}
use filehost.Guard.Challenge.{needs_challenge}
use filehost.Handlers.Reply.{
  Settings, Response, error_page, captcha_url, challenge_required_response,
}
use filehost.Handlers.Types.{Mime, DispositionType, disposition, serve_mime, octet_stream}
use filehost.Handlers.Process.{Libraries}
use filehost.Handlers.Upload.{Request, wants_html, extract_ip}

-- The file that is sent, and with what headers.
pub record Served : Type 0 where
  pub id : Uuid
  pub content_type : Mime
  pub disposition : DispositionType
  pub filename : Bytes

-- How a download ends: a page, the redirect to the captcha, a failed query (a bare 500), an unknown
-- slug (404), a file that cannot be opened, or the file.
pub data Download : Type 0 where
  page : Response → Download
  redirect : Bytes → Download
  server_error not_found missing : Download
  serve : Served → Download

abbrev pub unknown_type : Mime
unknown_type = record {
  text = octet_stream;
  type_ = ascii "application";
  subtype = ascii "octet-stream";
}

abbrev pub or_unknown : Option Mime → Mime
or_unknown none = unknown_type
or_unknown (some m) = m

module _ (lib : Libraries) (parse_mime : Bytes → Option Mime) (settings : Settings)
    (xff_trust : XffTrust) where
  unfoldable pub mime_of : Upload → Mime
  mime_of row = elim row.content_type [ none ↦ unknown_type | some s ↦ or_unknown (parse_mime s) ]

  unfoldable pub served : Upload → Served
  served row = record {
    id = row.id;
    content_type = serve_mime (mime_of row);
    disposition = disposition (mime_of row);
    filename = row.original_name;
  }

  -- The part from the row on: the access is logged by a task of its own, here at once.
  unfoldable pub send : Request → IpAddr → Upload → World → Download × World
  send req ip row w =
      let w' = (log_access row.id (some ip) req.user_agent w).1 in
      (if any (λ f. f == row.id) w.files then Download.serve (served row) else Download.missing, w')

  unfoldable pub challenged : Request → Bytes → Download
  challenged req slug =
      if wants_html req
      then Download.redirect
          (captcha_url settings ++ ascii "?next=" ++ lib.utf8_percent_encode slug)
      else Download.page
          (challenge_required_response lib.show_status settings (ascii "downloading") false)

  unfoldable pub find_file : Request → IpAddr → Bytes → World → Download × World
  find_file req ip slug w =
      let (r, w') = get_upload_by_slug lib.collate slug w in
      elim r [
        | err e ↦ (Download.server_error, w')
        | ok found ↦ elim found [ none ↦ (Download.not_found, w') | some row ↦ send req ip row w' ]
      ]

  abbrev pub after_challenge :
      Request → IpAddr → Bytes → Result DbError Bool × World → Download × World
  after_challenge req ip slug (r, w) = elim r [
    | err e ↦ (Download.server_error, w)
    | ok needed ↦ if needed then (challenged req slug, w) else (find_file req ip slug w)
  ]

  abbrev pub after_ban : Request → IpAddr → Bytes → Result DbError Bool × World → Download × World
  after_ban req ip slug (r, w) = elim r [
    | err e ↦ (Download.server_error, w)
    | ok banned ↦
        if banned
        then (Download.page (error_page lib.show_status 403 (ascii "Your IP is banned.")), w)
        else (after_challenge req ip slug
            (needs_challenge settings.ban_cache_ttl_seconds ip settings.nsfw_threshold w))
  ]

  unfoldable pub get_file : Request → Bytes → World → Download × World
  get_file req slug w = elim (extract_ip lib.parse_ip req xff_trust) [
    | none ↦ (
      Download.page (error_page lib.show_status 403 (ascii "Could not determine your IP address.")),
      w,
    )
    | some ip ↦
        after_ban req ip slug (is_ip_banned settings.ban_cache_ttl_seconds ip BanType.full w)
  ]
