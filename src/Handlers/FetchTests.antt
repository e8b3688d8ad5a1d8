-- ===== src/Handlers/FetchTests.antt =====
-- A file that is uploaded and then downloaded.
use filehost.Base.{◌≡◌, refl, false, none, some, [], Bytes, arith}
use filehost.Base.Results.{ok}
use filehost.Ip.Addr.{IpAddr, to_db_bytes, between, bytes_le, be_bytes, quota_range}
use filehost.Ttl.Cache.{get_or_refresh, refresh, look, get, insert, sweep}
use filehost.Db.Model.{BanType}
use filehost.Db.Uploads.{has_nsfw_upload_last_week, in_quota}
use filehost.Db.Bans.{covers, is_ip_challenge_verified, list_banned, order_by_key, put}
use filehost.Db.Bans
use filehost.Db.Samples.{sample}
use filehost.Guard.BanCache.{is_ip_banned}
use filehost.Guard.Challenge.{needs_challenge, is_ip_verified, is_ip_suspect}
use filehost.Handlers.Slug.{
  build_slug, slug_base, slug_ext, sanitize_filename_stem, allocate_unique_slug,
}
use filehost.Handlers.Process.{link, store}
use filehost.Handlers.Allocated.{is_taken}
use filehost.Handlers.Stored.{slug_of, with_upload}
use filehost.Handlers.Upload.{extract_ip}
use filehost.Ip.Xff.{untrusted, client_ip}
use filehost.Handlers.Download.{Download, served, get_file}
use filehost.Handlers.Samples.{settings, lib, draw, file, request}
use filehost.Handlers.Process.{store, new_slug, save, link}
use filehost.Handlers.Slug.{
  allocate_unique_slug, attempts, build_slug, slug_base, slug_ext, sanitize_filename_stem,
}
use filehost.Db.World.{World}
use filehost.Db.Uploads.{is_slug_taken, insert_upload_row}
use filehost.Handlers.Upload.{extract_ip}
use filehost.Ip.Xff.{untrusted, client_ip}
use filehost.Handlers.Allocated.{is_taken}
use filehost.Handlers.Stored.{slug_of, with_upload}
use filehost.Handlers.Fetched.{new_row, get_file-store}
use filehost.Handlers.Download.{Download, served, get_file}

abbrev slug : Bytes
slug = slug_of lib settings draw file (IpAddr.v4 9) none 3 false 0

-- The state that the upload leaves, and those after each check of the download.
abbrev after_upload : World
after_upload = with_upload lib settings draw file (IpAddr.v4 9) none 3 false slug sample

abbrev after_ban_check : World
after_ban_check = (is_ip_banned 300 (IpAddr.v4 7) BanType.full after_upload).1

abbrev after_challenge_check : World
after_challenge_check = (needs_challenge 300 (IpAddr.v4 7) 5 after_ban_check).1

slug_is_free : is_taken lib.collate slug sample ≡ false
unfolding build_slug slug_base slug_ext sanitize_filename_stem
slug_is_free = refl

has_ip : extract_ip lib.parse_ip request untrusted ≡ some (IpAddr.v4 7)
unfolding extract_ip client_ip
has_ip = refl

not_banned : is_ip_banned 300 (IpAddr.v4 7) BanType.full after_upload ≡ (ok false, after_ban_check)
unfolding is_ip_banned get_or_refresh refresh look get insert sweep Bans.is_ip_banned covers between
    to_db_bytes bytes_le be_bytes
not_banned = refl

not_challenged :
    needs_challenge 300 (IpAddr.v4 7) 5 after_ban_check ≡ (ok false, after_challenge_check)
unfolding is_ip_banned get_or_refresh refresh look get insert sweep Bans.is_ip_banned covers between
    to_db_bytes bytes_le be_bytes needs_challenge is_ip_verified is_ip_suspect
    is_ip_challenge_verified has_nsfw_upload_last_week quota_range in_quota
not_challenged = refl

is_as_left :
    (after_challenge_check.outages ≡ [])
    × (after_challenge_check.tables.uploads
        ≡ (store lib settings draw file (IpAddr.v4 9) none 3 false sample).1.tables.uploads)
    × (after_challenge_check.files
        ≡ (store lib settings draw file (IpAddr.v4 9) none 3 false sample).1.files)
unfolding is_ip_banned get_or_refresh refresh look get insert sweep Bans.is_ip_banned covers between
    to_db_bytes bytes_le be_bytes needs_challenge is_ip_verified is_ip_suspect
    is_ip_challenge_verified has_nsfw_upload_last_week quota_range in_quota store new_slug save
    allocate_unique_slug attempts is_slug_taken insert_upload_row build_slug slug_base slug_ext
    sanitize_filename_stem
is_as_left = (refl, refl, refl)

get_file-store_example :
    (s : Bytes) × ((store lib settings draw file (IpAddr.v4 9) none 3 false sample).0
      ≡ link lib settings s)
    × ((get_file lib (λ t. none) settings untrusted request s after_upload).0
        ≡ Download.serve (
            served lib
              (λ t. none)
              settings
              untrusted
              (new_row lib settings draw file (IpAddr.v4 9) none 3 false s sample)))
get_file-store_example =
    get_file-store lib settings draw file (IpAddr.v4 9) none 3 false (λ t. none) untrusted request 0
      (IpAddr.v4 7) sample after_upload after_ban_check after_challenge_check refl refl refl
      (omega arith) slug_is_free has_ip not_banned not_challenged is_as_left.0 is_as_left.1
      is_as_left.2
