-- ===== src/Db/Uploads.antt =====
-- The queries on `uploads` and `accesses` (src/db.rs), one function for each. `collate` gives the
-- sort key of a text under the collation of the text columns, which the database's configuration
-- decides. Where the source's SQL leaves the order of rows open, it is that of the table.
use filehost.Base.{
  ℕ, ◌+◌, ◌*◌, Bool, true, false, not, ◌&&◌, ◌||◌, Option, none, some, List, [], ◌∷◌, ◌++◌, map,
  length, any, filter, Bytes, bytes_eq, ascii, starts_with, ltb, leb, ◌==◌, if◌then◌else◌,
}
use filehost.Ip.Addr.{IpAddr, to_db_bytes, between, quota_range}
use filehost.Db.Model.{Upload, Uuid, Score}
use filehost.Db.World.{Query, statement, select}

-- `deleted_timestamp IS NULL`.
abbrev pub is_active : Upload → Bool
is_active u = elim u.deleted_timestamp [ none ↦ true | some t ↦ false ]

-- The first row, as `fetch_optional` gives it.
abbrev pub first : {A : Type 0} → List A → Option A
first [] = none
first (x ∷ xs) = some x

abbrev pub is_some : {A : Type 0} → Option A → Bool
is_some none = false
is_some (some a) = true

-- `hash = ?`, which no row without a hash meets.
abbrev pub has_hash : Bytes → Upload → Bool
has_hash hash u = elim u.hash [ none ↦ false | some h ↦ bytes_eq h hash ]

-- `ORDER BY upload_timestamp DESC LIMIT 1`.
unfoldable pub newest : List Upload → Option Upload
newest [] = none
newest (u ∷ us) = elim (newest us) [
  | none ↦ some u
  | some v ↦ some (if ltb u.upload_timestamp v.upload_timestamp then v else u)
]

unfoldable pub find_active_upload_by_hash : Bytes → Query (Option (Uuid × Bytes))
find_active_upload_by_hash hash = select (λ now t.
    elim (newest (filter (λ u. has_hash hash u && is_active u) t.uploads)) [
      | none ↦ none
      | some u ↦ some (u.id, u.slug)
    ])

unfoldable pub uploads_missing_hash : Query (List Uuid)
uploads_missing_hash =
    select (λ now t. map (λ u. u.id) (filter (λ u. not (is_some u.hash) && is_active u) t.uploads))

-- The `LIKE 'image/%'` of the scan, on the column's text.
abbrev pub is_image : Upload → Bool
is_image u = elim u.content_type [ none ↦ false | some ct ↦ starts_with (ascii "image/") ct ]

unfoldable pub uploads_for_nsfw_scan : Bool → Query (List Uuid)
uploads_for_nsfw_scan all = select (λ now t.
    map (λ u. u.id)
      (filter (λ u. is_active u && is_image u && (all || not (is_some u.nsfw_score))) t.uploads))

-- `UPDATE uploads SET … WHERE id = ?`.
unfoldable pub update_where_id : Uuid → (Upload → Upload) → List Upload → List Upload
update_where_id id f [] = []
update_where_id id f (u ∷ us) = (if u.id == id then f u else u) ∷ update_where_id id f us

unfoldable pub update_upload_hash : Uuid → Bytes → Query (Unit {0})
update_upload_hash id hash = statement (λ now t.
    (tt, record t { uploads = update_where_id id (λ u. record u { hash = some hash }) t.uploads }))

unfoldable pub update_nsfw_score : Uuid → Score → Query (Unit {0})
update_nsfw_score id score = statement (λ now t. (
  tt,
  record t { uploads = update_where_id id (λ u. record u { nsfw_score = some score }) t.uploads },
))

-- The arguments of `insert_upload_row`; the expiry is given, the upload time is the default NOW().
pub record NewUpload : Type 0 where
  pub id : Uuid
  pub original_name : Bytes
  pub expiry_timestamp : ℕ
  pub slug : Bytes
  pub file_size : ℕ
  pub hash : Bytes
  pub uploader_ip : IpAddr
  pub content_type : Bytes
  pub user_agent : Option Bytes

abbrev pub row_of : ℕ → NewUpload → Upload
row_of now n = record {
  id = n.id;
  upload_timestamp = now;
  expiry_timestamp = n.expiry_timestamp;
  deleted_timestamp = none;
  original_name = n.original_name;
  slug = n.slug;
  file_size = n.file_size;
  hash = some n.hash;
  uploader_ip = some (to_db_bytes n.uploader_ip);
  content_type = some n.content_type;
  user_agent = n.user_agent;
  nsfw_score = none;
}

unfoldable pub insert_upload_row : NewUpload → Query (Unit {0})
insert_upload_row n =
    statement (λ now t. (tt, record t { uploads = t.uploads ++ (row_of now n ∷ []) }))

-- `uploader_ip = ?` and `uploader_ip BETWEEN ? AND ?`, which no row without an address meets.
abbrev pub stored_eq : Option Bytes → Bytes → Bool
stored_eq none ip = false
stored_eq (some b) ip = bytes_eq b ip

abbrev pub stored_between : Option Bytes → Bytes → Bytes → Bool
stored_between none start end = false
stored_between (some b) start end = between b start end

-- `uploader_ip BETWEEN ? AND ? AND upload_timestamp > NOW() - INTERVAL … `, for the quota range.
unfoldable pub in_quota : IpAddr → ℕ → ℕ → Upload → Bool
in_quota ip now interval u =
    let (start, end) = quota_range ip in
    stored_between u.uploader_ip (to_db_bytes start) (to_db_bytes end)
    && ltb now (u.upload_timestamp + interval)

abbrev pub day : ℕ
day = 24 * 3600

unfoldable pub uploads_count_last_day : IpAddr → Query ℕ
uploads_count_last_day ip = select (λ now t. length (filter (in_quota ip now day) t.uploads))

abbrev pub sum_sizes : List Upload → ℕ
sum_sizes [] = 0
sum_sizes (u ∷ us) = u.file_size + sum_sizes us

unfoldable pub uploads_bytes_last_day : IpAddr → Query ℕ
uploads_bytes_last_day ip = select (λ now t. sum_sizes (filter (in_quota ip now day) t.uploads))

-- `nsfw_score >= ?`.
abbrev pub scored : Score → Upload → Bool
scored min_score u = elim u.nsfw_score [ none ↦ false | some s ↦ leb min_score s ]

unfoldable pub has_nsfw_upload_last_week : IpAddr → Score → Query Bool
has_nsfw_upload_last_week ip min_score =
    select (λ now t. any (λ u. in_quota ip now (7 * day) u && scored min_score u) t.uploads)

unfoldable pub log_access : Uuid → Option IpAddr → Option Bytes → Query (Unit {0})
log_access upload_id ip user_agent =
    let stored : Option Bytes = elim ip [ none ↦ none | some a ↦ some (to_db_bytes a) ] in
    statement (λ now t. (
      tt,
      record t {
        accesses =
            t.accesses
            ++ (record {
              upload_id = upload_id;
              timestamp = now;
              ip = stored;
              user_agent = user_agent;
            }
                ∷ []);
      },
    ))

module _ (collate : Bytes → Bytes) where
  -- `slug = ? AND deleted_timestamp IS NULL`.
  abbrev pub has_slug : Bytes → Upload → Bool
  has_slug slug u = bytes_eq (collate u.slug) (collate slug) && is_active u

  unfoldable pub is_slug_taken : Bytes → Query Bool
  is_slug_taken slug = select (λ now t. is_some (first (filter (has_slug slug) t.uploads)))

  unfoldable pub get_upload_by_slug : Bytes → Query (Option Upload)
  get_upload_by_slug slug = select (λ now t. first (filter (has_slug slug) t.uploads))
