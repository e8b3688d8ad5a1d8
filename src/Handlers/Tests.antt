-- ===== src/Handlers/Tests.antt =====
-- The handlers at a state.
use filehost.Base.{
  ℕ, ◌+◌, ◌/◌, ◌≤◌, ◌<◌, ◌≡◌, refl, true, false, none, some, Bytes, ascii, ◌==◌, if◌then◌else◌,
  arith,
}
use filehost.Base.Results.{ok}
use filehost.Ip.Addr.{IpAddr, to_db_bytes, between, bytes_le, be_bytes, quota_range}
use filehost.Ttl.Cache.{get_or_refresh, refresh, look, get, insert, sweep}
use filehost.Db.Model.{BanType}
use filehost.Db.Uploads.{
  uploads_count_last_day, uploads_bytes_last_day, has_nsfw_upload_last_week, in_quota,
}
use filehost.Db.Bans.{covers, is_ip_challenge_verified, list_banned, order_by_key, put}
use filehost.Db.Bans
use filehost.Db.Samples.{sample, sample_tables}
use filehost.Guard.BanCache.{is_ip_banned, is_hash_banned}
use filehost.Guard.Challenge.{needs_challenge, is_ip_verified, is_ip_suspect}
use filehost.Handlers.Samples.{settings, lib, draw, file, request}
use filehost.Handlers.Gates.{
  reaches, respond_to_check, check_not_banned, check_under_limit, challenge_gate,
  enforce_upload_gates,
}
use filehost.Handlers.Admitted.{
  IsUnder, IsAgentAllowed, past_ip, past_agent, past_count, past_bytes, enforce_upload_gates-ok,
}
use filehost.Handlers.Slug.{
  Search, build_slug, slug_base, slug_ext, sanitize_filename_stem, allocate_unique_slug,
  max_slug_attempts,
}
use filehost.Handlers.Types.{Mime}
use filehost.Handlers.Process.{store}
use filehost.Handlers.Scans.{ScanResult, clamd_task}
use filehost.Handlers.Allocated.{is_taken, allocate_unique_slug_lem}
use filehost.Handlers.Stored.{slug_of, link_to, with_upload, store_lem}
use filehost.Db.Uploads.{get_upload_by_slug, log_access}
use filehost.Db.Samples.{upload_row}
use filehost.Handlers.Upload.{extract_ip}
use filehost.Ip.Xff.{untrusted, client_ip}
use filehost.Handlers.Download.{Served, Download, served, send, find_file, get_file}
use filehost.Handlers.Downloaded.{IsFound, past_ban, past_both, get_file-serve}
use filehost.Db.Deleted.{all_deleted}
use filehost.Handlers.Infected.{clamd_task-infected}

admitted :
    (enforce_upload_gates lib.show_status lib.collate lib.lower lib.to_lowercase settings
      (some (IpAddr.v4 9))
      none
      true
      sample).0
    ≡ ok tt
unfolding enforce_upload_gates check_not_banned respond_to_check is_ip_banned get_or_refresh refresh
    look get insert sweep Bans.is_ip_banned covers between to_db_bytes bytes_le be_bytes
    check_under_limit uploads_count_last_day in_quota quota_range reaches challenge_gate
    needs_challenge is_ip_verified is_ip_suspect is_ip_challenge_verified has_nsfw_upload_last_week
admitted = refl

enforce_upload_gates-ok_example :
    let past = past_agent lib.show_status lib.collate lib.lower lib.to_lowercase settings in
    let counted = past_count lib.show_status lib.collate lib.lower lib.to_lowercase settings in
    let weighed = past_bytes lib.show_status lib.collate lib.lower lib.to_lowercase settings in
    ((is_ip_banned 300 (IpAddr.v4 9) BanType.read_only sample).0 ≡ ok false)
    × IsAgentAllowed lib.show_status lib.collate lib.lower lib.to_lowercase settings none (
        past_ip lib.show_status lib.collate lib.lower lib.to_lowercase settings
          (IpAddr.v4 9)
          sample)
    × IsUnder lib.show_status
        (some 2)
        (uploads_count_last_day (IpAddr.v4 9) (past (IpAddr.v4 9) none sample)).0
    × IsUnder lib.show_status none
        (uploads_bytes_last_day (IpAddr.v4 9) (counted (IpAddr.v4 9) none sample)).0
    × ((needs_challenge 300 (IpAddr.v4 9) 5 (weighed (IpAddr.v4 9) none sample)).0 ≡ ok false)
enforce_upload_gates-ok_example =
    enforce_upload_gates-ok lib.show_status lib.collate lib.lower lib.to_lowercase settings
      (IpAddr.v4 9) none true sample admitted

-- A first candidate that is taken, and others that are free.
abbrev first_taken : ℕ → ℕ → Bytes
first_taken k len = if k == 0 then ascii "abc" else ascii "xyz"

allocate_unique_slug_lem_example :
    (i : ℕ) × (allocate_unique_slug lib.collate first_taken 5 3 sample
      ≡ (Search.found (first_taken i (3 + i / max_slug_attempts)), sample))
    × (i ≤ 1)
    × (is_taken lib.collate (first_taken i (3 + i / max_slug_attempts)) sample ≡ false)
    × ((n : ℕ)
        → n < i
        → is_taken lib.collate (first_taken n (3 + n / max_slug_attempts)) sample ≡ true)
allocate_unique_slug_lem_example =
    allocate_unique_slug_lem lib.collate first_taken 5 3 1 sample refl (omega arith) refl

free :
    is_taken lib.collate (slug_of lib settings draw file (IpAddr.v4 9) none 3 false 0) sample
    ≡ false
unfolding build_slug slug_base slug_ext sanitize_filename_stem
free = refl

store_lem_example :
    (i : ℕ) × (is_taken lib.collate
        (slug_of lib settings draw file (IpAddr.v4 9) none 3 false i)
        sample
      ≡ false)
    × (store lib settings draw file (IpAddr.v4 9) none 3 false sample ≡ (
      link_to lib settings draw file
          (IpAddr.v4 9)
          none
          3
          false
          (slug_of lib settings draw file (IpAddr.v4 9) none 3 false i),
      with_upload lib settings draw file
          (IpAddr.v4 9)
          none
          3
          false
          (slug_of lib settings draw file (IpAddr.v4 9) none 3 false i)
          sample,
    ))
store_lem_example =
    store_lem lib settings draw file (IpAddr.v4 9) none 3 false 0 sample refl refl refl
      (omega arith) free

abbrev html : Mime
html = record { text = ascii "text/html"; type_ = ascii "text"; subtype = ascii "html" }

clamd_task-infected_example :
    let w' = clamd_task (some (ScanResult.infected (ascii "Eicar"))) 2 (ascii "h") sample in
    (w'.tables.uploads ≡ all_deleted (λ u. u.id == 2) 100 sample_tables.uploads)
    × ((is_hash_banned 300 (ascii "h") w').0 ≡ ok true)
clamd_task-infected_example =
    clamd_task-infected (ascii "Eicar") 2 (ascii "h") 300 sample refl ((refl, tt), (tt, tt))

abbrev sent : Served
sent = served lib (λ s. none) settings untrusted (upload_row 2 (ascii "abd") 500)

downloaded :
    (get_file lib (λ s. none) settings untrusted request (ascii "abd") sample).0
    ≡ Download.serve sent
unfolding get_file extract_ip client_ip find_file send is_ip_banned get_or_refresh refresh look get
    insert sweep Bans.is_ip_banned covers between to_db_bytes bytes_le be_bytes in_quota quota_range
    needs_challenge is_ip_verified is_ip_suspect is_ip_challenge_verified has_nsfw_upload_last_week
    get_upload_by_slug log_access
downloaded = refl

get_file-serve_example :
    (ip : IpAddr) × (extract_ip lib.parse_ip request untrusted ≡ some ip)
    × ((is_ip_banned 300 ip BanType.full sample).0 ≡ ok false)
    × ((needs_challenge 300 ip 5
          (past_ban lib (λ s. none) settings untrusted request (ascii "abd") ip sample)).0
        ≡ ok false)
    × IsFound lib
        (λ s. none)
        settings
        untrusted
        request
        (ascii "abd")
        ip
        sent
        (past_both lib (λ s. none) settings untrusted request (ascii "abd") ip sample)
get_file-serve_example =
    get_file-serve lib (λ s. none) settings untrusted request (ascii "abd") sent sample downloaded
