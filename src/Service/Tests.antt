-- ===== src/Service/Tests.antt =====
-- The service from a state on.
use filehost.Base.{
  ◌+◌, ◌≤◌, ◌<◌, ◌≡◌, ◌≢◌, refl, inl, inr, ◌⊎◌, true, false, none, some, List, [], ◌∷◌, Bytes,
  ascii,
}
use filehost.Base.Results.{Result, ok}
use filehost.Ip.Addr.{IpAddr, to_db_bytes, between, bytes_le, be_bytes, quota_range}
use filehost.Ip.Xff.{untrusted, client_ip}
use filehost.Ttl.Cache.{get_or_refresh, refresh, look, get, insert, sweep}
use filehost.Db.Model.{Upload}
use filehost.Db.World.{World}
use filehost.Db.Uploads.{
  NewUpload, has_slug, is_active, in_quota, newest, find_active_upload_by_hash, is_slug_taken,
  insert_upload_row, get_upload_by_slug, log_access, has_nsfw_upload_last_week, update_where_id,
}
use filehost.Db.Bans.{
  covers, list_banned, order_by_key, put, is_ip_challenge_verified, insert_banned,
}
use filehost.Db.Bans
use filehost.Db.Deletes.{mark, delete_one, delete_each, delete_matching, delete_by_id, remove_file}
use filehost.Db.Samples.{upload_row, sample, sample_tables}
use filehost.Guard.BanCache.{
  is_ip_banned, is_filename_banned, is_hash_banned, is_in_cached_set, cached, invalidate_hashes,
}
use filehost.Guard.Challenge.{needs_challenge, is_ip_verified, is_ip_suspect}
use filehost.Handlers.Reply.{Response}
use filehost.Handlers.Samples.{settings, lib, draw, file, request}
use filehost.Handlers.Process.{
  Draw, Stop, process_file, file_checks, existing, store, new_slug, save,
}
use filehost.Handlers.Slug.{
  allocate_unique_slug, attempts, build_slug, slug_base, slug_ext, sanitize_filename_stem,
}
use filehost.Handlers.Gates.{check_not_banned, respond_to_check}
use filehost.Service.Links.{LinksTo, process_files-LinksTo}
use filehost.Handlers.Types.{HashedTempFile, determine_content_type, reconcile_content_type_for_db}
use filehost.Handlers.Upload.{UploadForm, extract_ip, process_files, upload}
use filehost.Handlers.Download.{Served, Download, served, send, find_file, get_file}
use filehost.Handlers.Scans.{ScanResult, clamd_task, ban_hash}
use filehost.Admin.Api.{AdminLibraries}
use filehost.Cli.Lines.{CliLibraries}
use filehost.Service.Rows.{Later}
use filehost.Service.Sound.{IsSound}
use filehost.Service.Reach.{Deployment, Moves, Reach}
use filehost.Service.Named.{Has, Reach-IsSound, Reach-get_upload_by_slug}
use filehost.Db.Deleted.{IsKeyed}
use filehost.Service.Overlapped.{Overlaps, Overlaps-get_upload_by_slug}
use filehost.Service.Gone.{Reach-get_file}
use filehost.Service.Daily.{day_count, at_count, upload-day_count}

abbrev admin : AdminLibraries
admin = record {
  formats = record {
    show_uuid = λ id. [];
    format_ts = λ t. [];
    format_hour = λ t. [];
    show_ip = λ ip. [];
  };
  parse_ip = λ b. none;
  parse_uuid = λ b. some 2;
  parse_time = λ b. none;
  regex_error = λ b. none;
  collate = λ b. b;
  lower = λ b. b;
  to_lowercase = λ b. b;
  average = λ ns. 0;
  order = λ q us. us;
}

abbrev cli : CliLibraries
cli = record {
  formats = admin.formats;
  show_time = λ t. [];
  parse_time = λ b. none;
  regex_error = λ b. none;
  collate = λ b. b;
  lower = λ b. b;
  parse_v4 = λ b. none;
  request = λ b. none;
}

abbrev deployment : Deployment
deployment = record {
  lib = lib;
  parse_mime = λ s. none;
  settings = settings;
  xff_trust = untrusted;
  keyed_hash = λ k s. [];
  sha256 = λ s. [];
  key = [];
  admin = admin;
  admin_token = some (ascii "t");
  cli = cli;
}

-- Two files.
abbrev second_draw : Draw
second_draw = record draw { uuid = 10; random_string = λ k len. ascii "r8z" }

abbrev files : List (HashedTempFile × Draw)
files = (file, draw) ∷ (file, second_draw) ∷ []

abbrev form : Result Response UploadForm
form = ok (record { files = files; id_length = none; keep_name = false })

abbrev sample-IsSound : IsSound lib.collate sample_tables.uploads
sample-IsSound = (((refl, tt), (tt, tt)), ((refl, tt), (tt, tt)))

-- An upload, and then a scan that finds the upload 1 infected.
abbrev uploaded : World
uploaded = (upload lib settings untrusted request form sample).1

abbrev scan : World → World
scan = clamd_task (some (ScanResult.infected (ascii "Eicar"))) 1 (ascii "h")

Reach-IsSound_example : IsSound lib.collate (scan uploaded).tables.uploads
Reach-IsSound_example =
    Reach-IsSound deployment sample (scan uploaded)
      (Reach.then
        (Moves.uploaded request form ((refl, (refl, tt)), (refl, tt), ((refl, (refl, tt)), tt, tt)))
        (Reach.then (Moves.virus_scanned (some (ScanResult.infected (ascii "Eicar"))) 1 (ascii "h"))
          Reach.here))
      sample-IsSound

answered : (scan sample).outages ≡ []
unfolding clamd_task ban_hash insert_banned invalidate_hashes delete_by_id delete_matching
    delete_each delete_one remove_file update_where_id
answered = refl

Reach-get_upload_by_slug_example :
    let u = upload_row 2 (ascii "abd") 500 in
    (x : Upload) × Has x (scan sample).tables.uploads
    × Later u x
    × ((is_active x ≡ false)
        ⊎ (get_upload_by_slug lib.collate (ascii "abd") (scan sample) ≡ (ok (some x), scan sample)))
Reach-get_upload_by_slug_example =
    Reach-get_upload_by_slug deployment sample (scan sample) (upload_row 2 (ascii "abd") 500)
      (Reach.then (Moves.virus_scanned (some (ScanResult.infected (ascii "Eicar"))) 1 (ascii "h"))
        Reach.here)
      sample-IsSound (inr (inl refl)) answered

-- An upload that found the slug abd free before the upload 2 took it.
abbrev late : NewUpload
late = record {
  id = 9;
  original_name = [];
  expiry_timestamp = 900;
  slug = ascii "abd";
  file_size = 1;
  hash = ascii "z";
  uploader_ip = IpAddr.v4 7;
  content_type = [];
  user_agent = none;
}

abbrev raced : World
raced = (insert_upload_row late sample).1

raced_answered : raced.outages ≡ []
unfolding insert_upload_row
raced_answered = refl

Overlaps-get_upload_by_slug_example :
    let u = upload_row 2 (ascii "abd") 500 in
    IsKeyed raced.tables.uploads
    × ((x : Upload) × Has x raced.tables.uploads
        × Later u x
        × ((is_active x ≡ false)
            ⊎ ((y : Upload) × Has y raced.tables.uploads
                × (has_slug lib.collate (ascii "abd") y ≡ true)
                × (get_upload_by_slug lib.collate (ascii "abd") raced ≡ (ok (some y), raced)))))
Overlaps-get_upload_by_slug_example =
    Overlaps-get_upload_by_slug deployment sample raced (upload_row 2 (ascii "abd") 500)
      (Overlaps.inserted late (refl, (refl, tt)) Overlaps.here) sample-IsSound.0 (inr (inl refl))
      raced_answered

-- The first upload was deleted, and another one has its slug.
abbrev reused : World
reused = record sample {
  tables = record sample_tables {
    uploads = mark 60 (upload_row 1 (ascii "abd") 95) ∷ upload_row 2 (ascii "abd") 500 ∷ [];
  };
}

abbrev sent : Served
sent = served lib (λ s. none) settings untrusted (upload_row 2 (ascii "abd") 500)

downloaded :
    (get_file lib (λ s. none) settings untrusted request (ascii "abd") reused).0
    ≡ Download.serve sent
unfolding get_file extract_ip client_ip find_file send is_ip_banned get_or_refresh refresh look get
    insert sweep Bans.is_ip_banned covers between to_db_bytes bytes_le be_bytes in_quota quota_range
    needs_challenge is_ip_verified is_ip_suspect is_ip_challenge_verified has_nsfw_upload_last_week
    get_upload_by_slug log_access
downloaded = refl

Reach-get_file_example : sent.id ≢ 1
Reach-get_file_example =
    Reach-get_file deployment reused reused (mark 60 (upload_row 1 (ascii "abd") 95)) request
      (ascii "abd") sent Reach.here (((refl, tt), (tt, tt)), ((refl, tt), (tt, tt))) (inl refl) refl
      downloaded

known : extract_ip lib.parse_ip request untrusted ≡ some (IpAddr.v4 7)
unfolding extract_ip client_ip
known = refl

upload-day_count_example :
    let now = (at_count lib settings (IpAddr.v4 7) none sample).now in
    (uploaded.tables.uploads ≡ sample_tables.uploads)
    ⊎ ((day_count (IpAddr.v4 7) now sample_tables.uploads < 2)
        × (day_count (IpAddr.v4 7) now uploaded.tables.uploads
            ≤ day_count (IpAddr.v4 7) now sample_tables.uploads + 2))
upload-day_count_example =
    upload-day_count lib settings untrusted request form sample (IpAddr.v4 7) 2 known refl

-- A file with new content, twice.
abbrev twice : List (HashedTempFile × Draw)
twice =
    let new_file = record file { hash = ascii "z" } in
    (new_file, draw) ∷ (new_file, second_draw) ∷ []

abbrev run : Result Stop (List Bytes) × World
run = process_files lib settings untrusted twice (IpAddr.v4 7) none 3 false [] sample

abbrev answered_links : List Bytes
answered_links = ascii "http://h/q7z" ∷ ascii "http://h/q7z" ∷ []

linked : run.0 ≡ ok answered_links
unfolding process_files process_file file_checks check_not_banned respond_to_check
    is_filename_banned cached get_or_refresh look get refresh list_banned order_by_key put
    is_hash_banned is_in_cached_set existing find_active_upload_by_hash newest insert sweep store
    new_slug save allocate_unique_slug attempts build_slug slug_base slug_ext sanitize_filename_stem
    is_slug_taken insert_upload_row determine_content_type reconcile_content_type_for_db
linked = refl

process_files-LinksTo_example : LinksTo lib settings twice answered_links run.1.tables.uploads
process_files-LinksTo_example =
    process_files-LinksTo lib settings untrusted (IpAddr.v4 7) none 3 false twice answered_links
      sample linked
