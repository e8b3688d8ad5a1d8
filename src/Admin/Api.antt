-- ===== src/Admin/Api.antt =====
-- The routes that `configure` registers (src/admin.rs), each behind the guard.
use filehost.Base.{ℕ, Option, List, Bytes, ascii}
use filehost.Base.Results.{ok, err}
use filehost.Ip.Addr.{IpAddr}
use filehost.Times.{OffsetDateTime}
use filehost.Db.Model.{Upload, Uuid, Score}
use filehost.Db.Listing.{ListUploads}
use filehost.Db.World.{World}
use filehost.Admin.Auth.{Denied, from_request}
use filehost.Admin.Reply.{Formats, Body, AdminResponse}
use filehost.Admin.Uploads.{ℤ, ListUploadsQuery}
use filehost.Admin.Uploads
use filehost.Admin.Bans.{BannedIpRangeCreate, KeyCreate}
use filehost.Admin.Bans

-- A request to a route, with its path, query or body.
pub data AdminRequest : Type 0 where
  stats : AdminRequest
  list_uploads : ListUploadsQuery → AdminRequest
  delete_upload delete_upload_by_slug delete_upload_by_ip ip_stats : Bytes → AdminRequest
  list_banned_ips : Option ℤ → Option ℤ → AdminRequest
  add_banned_ip : BannedIpRangeCreate → AdminRequest
  remove_banned_ip : ℕ → AdminRequest
  list_banned_filenames list_banned_mimes list_banned_hashes list_banned_user_agents : AdminRequest
  add_banned_filename add_banned_hash add_banned_user_agent : KeyCreate → AdminRequest
  add_banned_mime : Bytes → AdminRequest
  remove_banned_filename remove_banned_mime remove_banned_hash remove_banned_user_agent :
      Bytes → AdminRequest

-- What the routes call of the libraries.
pub record AdminLibraries : Type 0 where
  pub formats : Formats
  pub parse_ip : Bytes → Option IpAddr
  pub parse_uuid : Bytes → Option Uuid
  pub parse_time : Bytes → Option OffsetDateTime
  pub regex_error : Bytes → Option Bytes
  pub collate : Bytes → Bytes
  pub lower : Bytes → Bytes
  pub to_lowercase : Bytes → Bytes
  pub average : List Score → Score
  pub order : ListUploads → List Upload → List Upload

-- The framework's page for an error of the guard.
abbrev pub denied : Denied → AdminResponse
denied Denied.not_found = record { status = 404; body = Body.plain (ascii "Not found") }
denied Denied.unauthorized = record {
  status = 401;
  body = Body.plain (ascii "Missing or malformed Authorization header");
}
denied Denied.forbidden = record { status = 403; body = Body.plain (ascii "Invalid admin token") }

module _ (lib : AdminLibraries) (nsfw_threshold : Score) where
  unfoldable pub route : AdminRequest → World → AdminResponse × World
  route stats w =
      Uploads.stats lib.formats lib.parse_ip lib.parse_uuid lib.collate lib.average lib.order
        nsfw_threshold w
  route (list_uploads q) w =
      Uploads.list_uploads lib.formats lib.parse_ip lib.parse_uuid lib.collate lib.average lib.order
        q w
  route (delete_upload id) w =
      Uploads.delete_upload lib.formats lib.parse_ip lib.parse_uuid lib.collate lib.average
        lib.order id w
  route (delete_upload_by_slug slug) w =
      Uploads.delete_upload_by_slug lib.formats lib.parse_ip lib.parse_uuid lib.collate lib.average
        lib.order slug w
  route (delete_upload_by_ip ip) w =
      Uploads.delete_upload_by_ip lib.formats lib.parse_ip lib.parse_uuid lib.collate lib.average
        lib.order ip w
  route (ip_stats ip) w =
      Uploads.ip_stats lib.formats lib.parse_ip lib.parse_uuid lib.collate lib.average lib.order ip
        w
  route (list_banned_ips limit offset) w = Bans.list_banned_ips lib.formats limit offset w
  route (add_banned_ip body) w = Bans.add_banned_ip lib.parse_ip lib.parse_time body w
  route (remove_banned_ip id) w = Bans.remove_banned_ip id w
  route list_banned_filenames w =
      Bans.list_banned_filenames lib.collate lib.lower lib.to_lowercase lib.regex_error w
  route list_banned_mimes w =
      Bans.list_banned_mimes lib.collate lib.lower lib.to_lowercase lib.regex_error w
  route list_banned_hashes w = Bans.list_banned_hashes w
  route list_banned_user_agents w =
      Bans.list_banned_user_agents lib.collate lib.lower lib.to_lowercase lib.regex_error w
  route (add_banned_filename body) w =
      Bans.add_banned_filename lib.collate lib.lower lib.to_lowercase lib.regex_error body w
  route (add_banned_hash body) w = Bans.add_banned_hash body w
  route (add_banned_user_agent body) w =
      Bans.add_banned_user_agent lib.collate lib.lower lib.to_lowercase lib.regex_error body w
  route (add_banned_mime mime) w =
      Bans.add_banned_mime lib.collate lib.lower lib.to_lowercase lib.regex_error mime w
  route (remove_banned_filename pattern) w =
      Bans.remove_banned_filename lib.collate lib.lower lib.to_lowercase lib.regex_error pattern w
  route (remove_banned_mime mime) w =
      Bans.remove_banned_mime lib.collate lib.lower lib.to_lowercase lib.regex_error mime w
  route (remove_banned_hash hash) w = Bans.remove_banned_hash hash w
  route (remove_banned_user_agent pattern) w =
      Bans.remove_banned_user_agent lib.collate lib.lower lib.to_lowercase lib.regex_error pattern w

  -- A request with its header `Authorization`; every route takes the guard as an argument.
  unfoldable pub serve_admin :
      Option Bytes → Option Bytes → AdminRequest → World → AdminResponse × World
  serve_admin configured_token authorization request w =
      elim (from_request configured_token authorization) [
        | err d ↦ (denied d, w)
        | ok u ↦ route request w
      ]
