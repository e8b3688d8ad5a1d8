-- ===== src/Service/Administration.antt =====
-- The routes of the admin API (src/admin.rs), and what they leave of the uploads.
use filehost.Base.{ℕ, ◌≡◌, refl, Option, none, some, List, Bytes}
use filehost.Base.Results.{Result, ok, err}
use filehost.Ip.Addr.{IpAddr}
use filehost.Db.Model.{Upload, Score}
use filehost.Db.World.{World, DbError}
use filehost.Db.Bans.{banned_filenames, banned_mimes, banned_user_agents}
use filehost.Db.Stats.{
  GlobalStats, TopUploader, TopNsfwUploader, HourlyUploadCount, global_stats, top_uploader_ips,
  top_nsfw_uploader_ips, uploads_hourly_counts, uploads_top_mimes,
}
use filehost.Db.Listing
use filehost.Guard.BanCache.{invalidate_filenames, invalidate_mimes, invalidate_user_agents}
use filehost.Admin.Reply.{Body, AdminResponse, respond_list, upload_dto, internal_err}
use filehost.Admin.Uploads.{
  ListUploadsQuery, listing, stats, stats_of, ip_stats, ip_stats_of, list_uploads, delete_upload,
  delete_upload_by_slug, delete_upload_by_ip, deleted_reply, top_uploaders_limit, ip_stats_hours,
}
use filehost.Admin.Bans.{
  list_banned_hashes, list_banned_filenames, list_banned_mimes, list_banned_user_agents,
  add_banned_mime, add_banned_user_agent, remove_banned_filename, remove_banned_mime,
  remove_banned_user_agent,
}
use filehost.Admin.Auth.{from_request}
use filehost.Admin.Api.{AdminRequest, AdminLibraries, route, serve_admin}
use filehost.Service.Rows.{Evolves}
use filehost.Service.Kept.{
  Kept, Kept-pure, Kept-same, Kept-case, Kept-option, Kept-result, Kept-select,
}
use filehost.Service.Queries.{delete_by_id-Kept, delete_by_ip-Kept, delete_by_slug-Kept}
use filehost.Service.Moderation.{
  list_keys-Kept, add_key-Kept, remove_key-Kept, list_banned_ips-Kept, remove_banned_ip-Kept,
  add_banned_ip-Kept, add_banned_hash-Kept, remove_banned_hash-Kept, add_banned_filename-Kept,
}

deleted_same : (p : Result DbError ℕ × World) → (deleted_reply p).1 ≡ p.1
unfolding deleted_reply
deleted_same (ok n, w) = refl
deleted_same (err e, w) = refl

module _ (P : List Upload → Type 0) where
  global_stats-Kept : Kept P global_stats
  unfolding global_stats
  global_stats-Kept = Kept-select P _

  top_uploader_ips-Kept : (n : ℕ) → Kept P (top_uploader_ips n)
  unfolding top_uploader_ips
  top_uploader_ips-Kept n = Kept-select P _

  hourly-Kept : (ip : IpAddr) (hours : ℕ) → Kept P (uploads_hourly_counts ip hours)
  unfolding uploads_hourly_counts
  hourly-Kept ip hours = Kept-select P _

  module _ (lib : AdminLibraries) (threshold : Score) where
    mimes-Kept : (ip : IpAddr) (n : ℕ) → Kept P (uploads_top_mimes lib.collate ip n)
    unfolding uploads_top_mimes
    mimes-Kept ip n = Kept-select P _

    nsfw-Kept : (n : ℕ) → Kept P (top_nsfw_uploader_ips lib.average threshold n)
    unfolding top_nsfw_uploader_ips
    nsfw-Kept n = Kept-select P _

    stats-Kept :
        Kept P (
          stats lib.formats lib.parse_ip lib.parse_uuid lib.collate lib.average lib.order threshold)
    unfolding stats
    stats-Kept =
        let read : GlobalStats → List TopUploader → List TopNsfwUploader → AdminResponse =
          stats_of lib.formats lib.parse_ip lib.parse_uuid lib.collate lib.average lib.order in
        let third : GlobalStats → List TopUploader → World → AdminResponse × World = λ s top w2.
          let (p, w3) = top_nsfw_uploader_ips lib.average threshold top_uploaders_limit w2 in
          elim p [ err e ↦ (internal_err, w3) | ok nsfw ↦ (read s top nsfw, w3) ] in
        let second : GlobalStats → World → AdminResponse × World = λ s w1.
          let (q, w2) = top_uploader_ips top_uploaders_limit w1 in
          elim q [ err e ↦ (internal_err, w2) | ok top ↦ third s top w2 ] in
        Kept-result P second (λ e w. (internal_err, w)) global_stats-Kept
          (λ s.
            Kept-result P (third s) (λ e w. (internal_err, w))
              (top_uploader_ips-Kept top_uploaders_limit)
              (λ top.
                Kept-result P (λ nsfw w. (read s top nsfw, w)) (λ e w. (internal_err, w))
                  (nsfw-Kept top_uploaders_limit) (λ nsfw. Kept-pure P) (λ e. Kept-pure P))
              (λ e. Kept-pure P))
          (λ e. Kept-pure P)

    ip_stats-Kept :
        (path : Bytes)
        → Kept P (
            ip_stats lib.formats lib.parse_ip lib.parse_uuid lib.collate lib.average lib.order path)
    unfolding ip_stats
    ip_stats-Kept path = Kept-option P (lib.parse_ip path) _ _ (Kept-pure P) (λ ip.
        let second : List HourlyUploadCount → World → AdminResponse × World = λ hourly w1.
          let (q, w2) = uploads_top_mimes lib.collate ip 5 w1 in
          elim q [
            | err e ↦ (internal_err, w2)
            | ok top ↦ (
              ip_stats_of lib.formats lib.parse_ip lib.parse_uuid lib.collate lib.average lib.order
                  hourly top,
              w2,
            )
          ] in
        Kept-result P second (λ e w. (internal_err, w)) (hourly-Kept ip ip_stats_hours)
          (λ hourly.
            Kept-result P _ (λ e w. (internal_err, w)) (mimes-Kept ip 5) (λ top. Kept-pure P)
              (λ e. Kept-pure P))
          (λ e. Kept-pure P))

    listed-Kept : (q : Listing.ListUploads) → Kept P (Listing.list_uploads lib.collate lib.order q)
    unfolding Listing.list_uploads
    listed-Kept q = Kept-select P _

    listing-Kept :
        (q : ListUploadsQuery) (ip : Option IpAddr)
        → Kept P
            (listing lib.formats lib.parse_ip lib.parse_uuid lib.collate lib.average lib.order q ip)
    listing-Kept q ip =
        Kept-same P (λ (r, w). (respond_list r (upload_dto lib.formats) Body.uploads, w))
          (λ p. refl) (listed-Kept _)

    list_uploads-Kept :
        (q : ListUploadsQuery)
        → Kept P (
            list_uploads lib.formats lib.parse_ip lib.parse_uuid lib.collate lib.average lib.order
              q)
    unfolding list_uploads
    list_uploads-Kept q =
        Kept-option P q.ip _ _ (listing-Kept q none)
          (λ s. Kept-option P (lib.parse_ip s) _ _ (Kept-pure P) (λ ip. listing-Kept q (some ip)))

    module _ (closed : (us vs : List Upload) → Evolves us vs → P us → P vs) where
      route-Kept : (request : AdminRequest) → Kept P (route lib threshold request)
      unfolding route delete_upload delete_upload_by_ip delete_upload_by_slug list_banned_hashes
          list_banned_filenames list_banned_mimes list_banned_user_agents add_banned_mime
          add_banned_user_agent remove_banned_filename remove_banned_mime remove_banned_user_agent
          invalidate_filenames invalidate_mimes invalidate_user_agents
      route-Kept AdminRequest.stats = stats-Kept
      route-Kept (AdminRequest.list_uploads q) = list_uploads-Kept q
      route-Kept (AdminRequest.delete_upload path) =
          Kept-option P (lib.parse_uuid path) _ _ (Kept-pure P)
            (λ id. Kept-same P deleted_reply deleted_same (delete_by_id-Kept P closed id))
      route-Kept (AdminRequest.delete_upload_by_slug slug) =
          Kept-same P deleted_reply deleted_same (delete_by_slug-Kept P closed lib.collate slug)
      route-Kept (AdminRequest.delete_upload_by_ip path) =
          Kept-option P (lib.parse_ip path) _ _ (Kept-pure P)
            (λ ip. Kept-same P deleted_reply deleted_same (delete_by_ip-Kept P closed ip))
      route-Kept (AdminRequest.ip_stats path) = ip_stats-Kept path
      route-Kept (AdminRequest.list_banned_ips limit offset) =
          list_banned_ips-Kept P lib.formats limit offset
      route-Kept (AdminRequest.add_banned_ip body) =
          add_banned_ip-Kept P lib.parse_ip lib.parse_time body
      route-Kept (AdminRequest.remove_banned_ip id) = remove_banned_ip-Kept P id
      route-Kept AdminRequest.list_banned_filenames = list_keys-Kept P _ _
      route-Kept AdminRequest.list_banned_mimes = list_keys-Kept P _ _
      route-Kept AdminRequest.list_banned_hashes = list_keys-Kept P _ _
      route-Kept AdminRequest.list_banned_user_agents = list_keys-Kept P _ _
      route-Kept (AdminRequest.add_banned_filename body) =
          add_banned_filename-Kept P lib.collate lib.lower lib.to_lowercase lib.regex_error body
      route-Kept (AdminRequest.add_banned_hash body) = add_banned_hash-Kept P body
      route-Kept (AdminRequest.add_banned_user_agent body) =
          add_key-Kept P (banned_user_agents lib.collate lib.lower) invalidate_user_agents body.key
            body.reason (λ rows t. refl) (λ w. refl)
      route-Kept (AdminRequest.add_banned_mime mime) =
          add_key-Kept P (banned_mimes lib.collate lib.lower) invalidate_mimes
            (lib.to_lowercase mime) none (λ rows t. refl) (λ w. refl)
      route-Kept (AdminRequest.remove_banned_filename pattern) =
          remove_key-Kept P (banned_filenames lib.collate lib.lower) invalidate_filenames pattern
            (λ rows t. refl) (λ w. refl)
      route-Kept (AdminRequest.remove_banned_mime mime) =
          remove_key-Kept P (banned_mimes lib.collate lib.lower) invalidate_mimes
            (lib.to_lowercase mime) (λ rows t. refl) (λ w. refl)
      route-Kept (AdminRequest.remove_banned_hash hash) = remove_banned_hash-Kept P hash
      route-Kept (AdminRequest.remove_banned_user_agent pattern) =
          remove_key-Kept P (banned_user_agents lib.collate lib.lower) invalidate_user_agents
            pattern (λ rows t. refl) (λ w. refl)

      pub serve_admin-Kept :
          (configured_token authorization : Option Bytes) (request : AdminRequest)
          → Kept P (serve_admin lib threshold configured_token authorization request)
      unfolding serve_admin
      serve_admin-Kept configured_token authorization request =
          Kept-case P (from_request configured_token authorization) _ _ (λ u. route-Kept request)
            (λ d. Kept-pure P)
