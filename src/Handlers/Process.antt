-- ===== src/Handlers/Process.antt =====
-- `process_file` (src/handlers.rs): the checks of one file, the slug, the file and the row. The scans
-- that it spawns are steps of their own (Handlers/Scans).
use filehost.Base.{ℕ, Bool, not, ◌&&◌, Option, none, some, ◌∷◌, ◌++◌, Bytes, ascii, if◌then◌else◌}
use filehost.Base.Results.{Result, ok, err, Step, ◌>>=◌, ◌>>◌, pure}
use filehost.Ip.Addr.{IpAddr}
use filehost.Db.Model.{Uuid}
use filehost.Db.World.{World, Query, DbError}
use filehost.Db.Uploads.{NewUpload, insert_upload_row, find_active_upload_by_hash}
use filehost.Guard.BanCache.{is_filename_banned, is_mime_banned, is_hash_banned}
use filehost.Handlers.Reply.{Settings, Response, internal_err}
use filehost.Handlers.Gates.{check_not_banned}
use filehost.Handlers.Slug.{Names, build_slug, Search, allocate_unique_slug}
use filehost.Handlers.Types.{
  Mime, HashedTempFile, determine_content_type, reconcile_content_type_for_db,
}

-- The libraries that the handler calls: the database's collation and LOWER, the standard library's
-- lower case, regexes, paths, addresses, percent-encoding, the guess of a type, and the status codes.
pub record Libraries : Type 0 where
  pub show_status : ℕ → Bytes
  pub collate : Bytes → Bytes
  pub lower : Bytes → Bytes
  pub to_lowercase : Bytes → Bytes
  pub compiles : Bytes → Bool
  pub is_match : Bytes → Bytes → Bool
  pub names : Names
  pub guess : Bytes → Option Mime
  pub utf8_percent_encode : Bytes → Bytes
  pub parse_ip : Bytes → Option IpAddr

-- What one file's run draws from outside: the new UUID, the random strings by attempt and length, the
-- expiry that `calculate_expiry` computes in floating point, whether the directory could be made and
-- the file saved, and how many attempts for a slug the run is followed.
pub record Draw : Type 0 where
  pub uuid : Uuid
  pub random_string : ℕ → ℕ → Bytes
  pub expiry : ℕ
  pub created : Bool
  pub saved : Bool
  pub fuel : ℕ

-- A file's run ends with a response, with the `unwrap` of a missing base URL, or is still in search of
-- a slug when its fuel ends.
pub data Stop : Type 0 where
  reply : Response → Stop
  panic : Stop
  unfinished : Stop

abbrev pub stopping : {A : Type 0} → Result Response A → Result Stop A
stopping (ok a) = ok a
stopping (err r) = err (Stop.reply r)

-- `?` on a step that fails with a response.
abbrev pub orelse : {A : Type 0} → Step World Response A → Step World Stop A
orelse m w = let (r, w') = m w in (stopping r, w')

module _ (lib : Libraries) (settings : Settings) where
  abbrev pub answer : {A : Type 0} → Result DbError A → Result Stop A
  answer (ok a) = ok a
  answer (err e) = err (Stop.reply (internal_err lib.show_status))

  -- `map_err` of a failed query into the 500 page.
  abbrev pub query : {A : Type 0} → Query A → Step World Stop A
  query q w = let (r, w') = q w in (answer r, w')

  abbrev pub link : Bytes → Result Stop Bytes
  link slug = elim settings.base_url [
    | none ↦ err Stop.panic
    | some base ↦ ok (base ++ lib.utf8_percent_encode slug)
  ]

  abbrev pub mime_check : Option Mime → Step World Response (Unit {0})
  mime_check none = pure tt
  mime_check (some ct) =
      check_not_banned lib.show_status
        (is_mime_banned settings.ban_cache_ttl_seconds lib.collate lib.lower lib.to_lowercase
          ct.text)
        (ascii "Your upload was rejected.")

  abbrev pub name_of : HashedTempFile → Bytes
  name_of file = elim file.file_name [ none ↦ ascii "unknown" | some n ↦ n ]

  -- The checks before the deduplication.
  unfoldable pub file_checks : HashedTempFile → Step World Response (Unit {0})
  file_checks file =
      check_not_banned lib.show_status
        (is_filename_banned settings.ban_cache_ttl_seconds lib.collate lib.lower lib.to_lowercase
          lib.compiles lib.is_match (name_of file))
        (ascii "File type not allowed.")
      >> mime_check file.content_type
      >> mime_check file.detected_content_type
      >> check_not_banned lib.show_status (is_hash_banned settings.ban_cache_ttl_seconds file.hash)
          (ascii "Your upload was rejected.")

  -- The dedup branch: the active upload with the same content, if dedup is on.
  unfoldable pub existing : Bytes → Query (Option (Uuid × Bytes))
  existing hash w = if settings.dedup then (find_active_upload_by_hash hash w) else (ok none, w)

  module _ (draw : Draw) (file : HashedTempFile) (uploader_ip : IpAddr) (user_agent : Option Bytes)
      (id_len : ℕ) (keep_name : Bool) where
    abbrev pub candidate : ℕ → ℕ → Bytes
    candidate k len =
        build_slug lib.names (draw.random_string k len) (name_of file)
          ((determine_content_type lib.guess file (name_of file)).1) settings.auto_file_ext
          settings.max_ext_len keep_name

    abbrev pub slug_step : Search → Result Stop Bytes
    slug_step s = elim s [
      | Search.found slug ↦ ok slug
      | Search.failed e ↦ err (Stop.reply (internal_err lib.show_status))
      | Search.searching ↦ err Stop.unfinished
    ]

    unfoldable pub new_slug : Step World Stop Bytes
    new_slug w =
        let (s, w') = allocate_unique_slug lib.collate candidate draw.fuel id_len w in
        (slug_step s, w')

    -- `create_dir_all` and `save_file`.
    unfoldable pub save : Step World Stop (Unit {0})
    save w =
        if not (draw.created && draw.saved)
        then (err (Stop.reply (internal_err lib.show_status)), w)
        else (ok tt, record w { files = draw.uuid ∷ w.files })

    abbrev pub row : Bytes → NewUpload
    row slug = record {
      id = draw.uuid;
      original_name = name_of file;
      expiry_timestamp = draw.expiry;
      slug = slug;
      file_size = file.size;
      hash = file.hash;
      uploader_ip = uploader_ip;
      content_type =
          reconcile_content_type_for_db file.detected_content_type
            ((determine_content_type lib.guess file (name_of file)).0);
      user_agent = user_agent;
    }

    -- The part from the new UUID on.
    unfoldable pub store : Step World Stop Bytes
    store = new_slug >>= λ slug. save >> query (insert_upload_row (row slug)) >> λ w. (link slug, w)

    unfoldable pub process_file : Step World Stop Bytes
    process_file = orelse (file_checks file) >> query (existing file.hash) >>= λ found. elim found [
      | some (id, slug) ↦ λ w. (link slug, w)
      | none ↦ store
    ]
