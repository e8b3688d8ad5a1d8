-- ===== src/Handlers/Stored.antt =====
-- What a new file's run leaves behind.
use mathlib.Core.Path.{ap}
use filehost.Base.{
  ℕ, ◌+◌, ◌/◌, ◌<◌, ◌≡◌, ◌∙◌, Bool, true, false, Option, none, some, [], ◌∷◌, ◌++◌, Bytes, ascii,
  arith,
}
use filehost.Base.Results.{Result, ok, err, >>=-ok, ◌>>◌, Step}
use filehost.Ip.Addr.{IpAddr, to_db_bytes}
use filehost.Db.Model.{Upload}
use filehost.Db.World.{World}
use filehost.Db.Uploads.{row_of, insert_upload_row, NewUpload}
use filehost.Handlers.Reply.{Settings}
use filehost.Handlers.Slug.{max_slug_attempts}
use filehost.Handlers.Types.{HashedTempFile, determine_content_type, reconcile_content_type_for_db}
use filehost.Handlers.Process.{
  Libraries, Draw, Stop, candidate, new_slug, slug_step, save, row, store, link, query,
}
use filehost.Handlers.Allocated.{is_taken, allocate_unique_slug_lem}

module _ (lib : Libraries) (settings : Settings) (draw : Draw) (file : HashedTempFile) (ip : IpAddr)
    (ua : Option Bytes) (id_len : ℕ) (keep_name : Bool) where
  -- The slug of attempt `k`.
  abbrev pub slug_of : ℕ → Bytes
  slug_of k =
      candidate lib settings draw file ip ua id_len keep_name k (id_len + k / max_slug_attempts)

  -- The row of the file at a slug.
  abbrev pub stored_row : ℕ → Bytes → Upload
  stored_row now slug =
      let name : Bytes = elim file.file_name [ none ↦ ascii "unknown" | some n ↦ n ] in
      record {
        id = draw.uuid;
        upload_timestamp = now;
        expiry_timestamp = draw.expiry;
        deleted_timestamp = none;
        original_name = name;
        slug = slug;
        file_size = file.size;
        hash = some file.hash;
        uploader_ip = some (to_db_bytes ip);
        content_type = some (
            reconcile_content_type_for_db file.detected_content_type
              ((determine_content_type lib.guess file name).0));
        user_agent = ua;
        nsfw_score = none;
      }

  -- The base URL with the slug after it; without a base URL the run panics.
  abbrev pub link_to : Bytes → Result Stop Bytes
  link_to slug = elim settings.base_url [
    | none ↦ err Stop.panic
    | some base ↦ ok (base ++ lib.utf8_percent_encode slug)
  ]

  -- The state with the file and the row of an upload at a slug.
  abbrev pub with_upload : Bytes → World → World
  with_upload slug w = record w {
    files = draw.uuid ∷ w.files;
    tables = record w.tables { uploads = w.tables.uploads ++ (stored_row w.now slug ∷ []) };
  }

  save-run :
      (w : World)
      → draw.created ≡ true
      → draw.saved ≡ true
      → save lib settings draw file ip ua id_len keep_name w
        ≡ (ok tt, record w { files = draw.uuid ∷ w.files })
  unfolding save
  save-run w c s = ground (arith, c, s)

  insert-run :
      (n : NewUpload) (w : World)
      → w.outages ≡ []
      → query lib settings (insert_upload_row n) w ≡ (
        ok tt,
        record w {
          tables = record w.tables { uploads = w.tables.uploads ++ (row_of w.now n ∷ []) };
        },
      )
  unfolding insert_upload_row
  insert-run n w up = ground (arith, up)

  -- What stands after the slug.
  abbrev write : Bytes → Step World Stop Bytes
  write slug =
      save lib settings draw file ip ua id_len keep_name
      >> query lib settings
          (insert_upload_row (row lib settings draw file ip ua id_len keep_name slug))
      >> λ w. (link lib settings slug, w)

  write-run :
      (slug : Bytes) (w : World)
      → w.outages ≡ []
      → draw.created ≡ true
      → draw.saved ≡ true
      → write slug w ≡ (link lib settings slug, with_upload slug w)
  write-run slug w up c s =
      let saved : World = record w { files = draw.uuid ∷ w.files } in
      let n = row lib settings draw file ip ua id_len keep_name slug in
      let put = save lib settings draw file ip ua id_len keep_name in
      let both =
        >>=-ok put (λ u. query lib settings (insert_upload_row n)) w tt saved (save-run w c s)
        ∙ insert-run n saved up in
      >>=-ok (put >> query lib settings (insert_upload_row n)) (λ u w. (link lib settings slug, w))
        w tt (with_upload slug w) both

  -- Where every query is answered, the file can be saved and some attempt `j` within the fuel builds a
  -- slug that no active upload has, the run stores the file under its id and adds exactly one row, at the
  -- end: active, uploaded now, with the drawn id and expiry, the name, size, hash and type of the file,
  -- the client's address and agent, and a slug that no active upload had. It answers the base URL with
  -- that slug after it.
  pub store_lem :
      (j : ℕ) (w : World)
      → w.outages ≡ []
      → draw.created ≡ true
      → draw.saved ≡ true
      → j < draw.fuel
      → is_taken lib.collate (slug_of j) w ≡ false
      → (i : ℕ) × (is_taken lib.collate (slug_of i) w ≡ false)
        × (store lib settings draw file ip ua id_len keep_name w
            ≡ (link_to (slug_of i), with_upload (slug_of i) w))
  unfolding store new_slug
  store_lem j w up c s h f =
      let (i, run, le, free, taken) =
        allocate_unique_slug_lem lib.collate
          (candidate lib settings draw file ip ua id_len keep_name) draw.fuel id_len j w up h f in
      let slugged =
        ap (λ p. (slug_step lib settings draw file ip ua id_len keep_name p.0, p.1)) run in
      (
        i,
        free,
        >>=-ok (new_slug lib settings draw file ip ua id_len keep_name) write w (slug_of i) w
              slugged
            ∙ write-run (slug_of i) w up c s,
      )
