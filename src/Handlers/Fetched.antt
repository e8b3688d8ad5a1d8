-- ===== src/Handlers/Fetched.antt =====
-- That what an upload stores is what a download serves (src/handlers.rs).
use mathlib.Core.Path.{ap}
use filehost.Base.{
  ℕ, ◌<◌, ◌≡◌, refl, ◌∙◌, inl, inr, Bool, true, false, Option, some, List, [], ◌∷◌, ◌++◌, filter,
  any, Bytes, bytes_eq_refl, Bool-cases, ◌==◌, ==_iff, arith,
}
use filehost.Base.Results.{ok}
use filehost.Ip.Addr.{IpAddr}
use filehost.Ip.Xff.{XffTrust}
use filehost.Db.Model.{Upload, BanType}
use filehost.Db.World.{World}
use filehost.Db.Uploads.{first, is_some, has_slug, row_of, get_upload_by_slug}
use filehost.Db.Answered.{select-answered}
use filehost.Guard.BanCache.{is_ip_banned}
use filehost.Guard.Challenge.{needs_challenge}
use filehost.Handlers.Reply.{Settings}
use filehost.Handlers.Types.{Mime, HashedTempFile}
use filehost.Handlers.Process.{Libraries, Draw, row, store, link}
use filehost.Handlers.Allocated.{is_taken}
use filehost.Handlers.Stored.{slug_of, with_upload, store_lem}
use filehost.Handlers.Upload.{Request, extract_ip}
use filehost.Handlers.Download.{Download, served, send, find_file, get_file}

-- Behind rows of which none meets a test, the first that meets it is one that does.
first_behind :
    {A : Type 0} (p : A → Bool) (xs : List A) (x : A)
    → is_some (first (filter p xs)) ≡ false
    → p x ≡ true
    → first (filter p (xs ++ (x ∷ []))) ≡ some x
first_behind p [] x h met = ground (arith, met)
first_behind p (y ∷ xs) x h met = elim (Bool-cases (p y)) [
  | inl e ↦ absurd (ground (arith, e))
  | inr e ↦
      let rest : is_some (first (filter p xs)) ≡ false = ground (arith, e) in
      rw e (first_behind p xs x rest met)
]

module _ (lib : Libraries) (settings : Settings) (draw : Draw) (file : HashedTempFile)
    (uploader : IpAddr) (ua : Option Bytes) (id_len : ℕ) (keep_name : Bool) where
  -- The row of the upload at a slug.
  abbrev pub new_row : Bytes → World → Upload
  new_row slug w = row_of w.now (row lib settings draw file uploader ua id_len keep_name slug)

  abbrev pub uploaded : Bytes → World → World
  uploaded = with_upload lib settings draw file uploader ua id_len keep_name

  get_upload_by_slug-uploaded :
      (slug : Bytes) (w v : World)
      → is_taken lib.collate slug w ≡ false
      → v.outages ≡ []
      → v.tables.uploads ≡ (uploaded slug w).tables.uploads
      → get_upload_by_slug lib.collate slug v ≡ (ok (some (new_row slug w)), v)
  unfolding get_upload_by_slug
  get_upload_by_slug-uploaded slug w v free up rows =
      let met : has_slug lib.collate slug (new_row slug w) ≡ true =
        ground (arith, bytes_eq_refl (lib.collate slug)) in
      select-answered (λ now t. first (filter (has_slug lib.collate slug) t.uploads)) v up
      ∙ ap (λ us. (ok (first (filter (has_slug lib.collate slug) us)), v)) rows
      ∙ ap (λ o. (ok o, v))
          (first_behind (has_slug lib.collate slug) w.tables.uploads (new_row slug w) free met)

  module _ (parse_mime : Bytes → Option Mime) (xff_trust : XffTrust) (req : Request) where
    find_file-uploaded :
        (ip : IpAddr) (slug : Bytes) (w v : World)
        → is_taken lib.collate slug w ≡ false
        → v.outages ≡ []
        → v.tables.uploads ≡ (uploaded slug w).tables.uploads
        → v.files ≡ (uploaded slug w).files
        → (find_file lib parse_mime settings xff_trust req ip slug v).0
          ≡ Download.serve (served lib parse_mime settings xff_trust (new_row slug w))
    unfolding find_file send
    find_file-uploaded ip slug w v free up rows files =
        let there : any (λ f. f == draw.uuid) v.files ≡ true =
          ground (arith, files, (==_iff draw.uuid draw.uuid).1 refl) in
        ground (arith, get_upload_by_slug-uploaded slug w v free up rows, there)

    get_file-find_file :
        (ip : IpAddr) (slug : Bytes) (before between_ v : World)
        → extract_ip lib.parse_ip req xff_trust ≡ some ip
        → is_ip_banned settings.ban_cache_ttl_seconds ip BanType.full before ≡ (ok false, between_)
        → needs_challenge settings.ban_cache_ttl_seconds ip settings.nsfw_threshold between_
          ≡ (ok false, v)
        → get_file lib parse_mime settings xff_trust req slug before
          ≡ find_file lib parse_mime settings xff_trust req ip slug v
    unfolding get_file
    get_file-find_file ip slug before between_ v known allowed clear =
        ground (arith, known, allowed, clear)

    -- What is stored is what is served. Where every query is answered, the file can be saved and some
    -- attempt `j` within the fuel builds a slug that no active upload has, the upload answers the link
    -- to a slug, and a download of this slug serves the new upload with its file, its name and its
    -- type: for any client with an address that is not banned and needs no challenge, as long as the
    -- uploads and the files are as the upload left them and the query for the slug is answered.
    pub get_file-store :
        (j : ℕ) (ip : IpAddr) (w before between_ v : World)
        → w.outages ≡ []
        → draw.created ≡ true
        → draw.saved ≡ true
        → j < draw.fuel
        → is_taken lib.collate (slug_of lib settings draw file uploader ua id_len keep_name j) w
          ≡ false
        → extract_ip lib.parse_ip req xff_trust ≡ some ip
        → is_ip_banned settings.ban_cache_ttl_seconds ip BanType.full before ≡ (ok false, between_)
        → needs_challenge settings.ban_cache_ttl_seconds ip settings.nsfw_threshold between_
          ≡ (ok false, v)
        → v.outages ≡ []
        → v.tables.uploads
          ≡ (store lib settings draw file uploader ua id_len keep_name w).1.tables.uploads
        → v.files ≡ (store lib settings draw file uploader ua id_len keep_name w).1.files
        → (slug : Bytes) × ((store lib settings draw file uploader ua id_len keep_name w).0
            ≡ link lib settings slug)
          × ((get_file lib parse_mime settings xff_trust req slug before).0
              ≡ Download.serve (served lib parse_mime settings xff_trust (new_row slug w)))
    get_file-store j ip w before between_ v up c s h free known allowed clear up' rows files =
        let (i, taken, run) =
          store_lem lib settings draw file uploader ua id_len keep_name j w up c s h free in
        let slug = slug_of lib settings draw file uploader ua id_len keep_name i in
        (
          slug,
          ap (λ q. q.0) run,
          ap (λ q. q.0) (get_file-find_file ip slug before between_ v known allowed clear)
              ∙ find_file-uploaded ip slug w v taken up' (rows ∙ ap (λ q. q.1.tables.uploads) run)
                  (files ∙ ap (λ q. q.1.files) run),
        )
