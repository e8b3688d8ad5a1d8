-- ===== src/Db/Stats.antt =====
-- The statistics of src/db.rs. A group of `GROUP BY` is its key with its rows, in the order in which
-- the keys are first met. `average` is the database's AVG of scores.
use filehost.Base.{
  ℕ, zero, suc, ◌+◌, ◌-◌, ◌*◌, ◌/◌, Bool, not, ◌&&◌, Option, none, some, List, [], ◌∷◌, ◌++◌, map,
  filter, take, length, Bytes, bytes_eq, ltb, ◌==◌, if◌then◌else◌,
}
use filehost.Ip.Addr.{IpAddr, to_db_bytes}
use filehost.Db.Model.{Upload, Score}
use filehost.Db.World.{Query, select}
use filehost.Db.Uploads.{is_active, scored, stored_eq, sum_sizes, day}

pub record GlobalStats : Type 0 where
  pub active_uploads : ℕ
  pub active_bytes : ℕ
  pub deleted_uploads : ℕ
  pub uploads_last_24h : ℕ
  pub bytes_last_24h : ℕ

-- `upload_timestamp > NOW() - INTERVAL …`.
abbrev pub is_since : ℕ → ℕ → Upload → Bool
is_since now interval u = ltb now (u.upload_timestamp + interval)

unfoldable pub global_stats : Query GlobalStats
global_stats = select (λ now t. record {
  active_uploads = length (filter is_active t.uploads);
  active_bytes = sum_sizes (filter is_active t.uploads);
  deleted_uploads = length (filter (λ u. not (is_active u)) t.uploads);
  uploads_last_24h = length (filter (is_since now day) t.uploads);
  bytes_last_24h = sum_sizes (filter (is_since now day) t.uploads);
})

abbrev pub Group : Type 0
Group = Bytes × List Upload

module _ (sort_key : Bytes → Bytes) where
  -- A row put to the group of its key; `sort_key` is the column's collation.
  unfoldable pub put_row : Bytes → Upload → List Group → List Group
  put_row key u [] = (key, u ∷ []) ∷ []
  put_row key u ((k, us) ∷ groups) =
      if bytes_eq (sort_key k) (sort_key key)
      then (k, us ++ (u ∷ [])) ∷ groups
      else (k, us) ∷ put_row key u groups

  -- `GROUP BY` a column, without the rows where it is NULL.
  unfoldable pub group_by : (Upload → Option Bytes) → List Group → List Upload → List Group
  group_by column groups [] = groups
  group_by column groups (u ∷ us) = elim (column u) [
    | none ↦ group_by column groups us
    | some key ↦ group_by column (put_row key u groups) us
  ]

-- `ORDER BY COUNT(*) DESC`.
unfoldable pub put_group : Group → List Group → List Group
put_group g [] = g ∷ []
put_group g (h ∷ hs) = if ltb (length g.1) (length h.1) then h ∷ put_group g hs else g ∷ h ∷ hs

unfoldable pub most_first : List Group → List Group
most_first [] = []
most_first (g ∷ gs) = put_group g (most_first gs)

abbrev pub top_groups : (Bytes → Bytes) → (Upload → Option Bytes) → ℕ → List Upload → List Group
top_groups sort_key column limit us = take limit (most_first (group_by sort_key column [] us))

pub record TopUploader : Type 0 where
  pub ip : Bytes
  pub count : ℕ
  pub bytes : ℕ

abbrev pub top_uploader : Group → TopUploader
top_uploader (ip, us) = record { ip = ip; count = length us; bytes = sum_sizes us }

unfoldable pub top_uploader_ips : ℕ → Query (List TopUploader)
top_uploader_ips limit = select (λ now t.
    map top_uploader (top_groups (λ b. b) (λ u. u.uploader_ip) limit (filter is_active t.uploads)))

pub record TopNsfwUploader : Type 0 where
  pub ip : Bytes
  pub count : ℕ
  pub avg_score : Score

abbrev pub scores : List Upload → List Score
scores [] = []
scores (u ∷ us) = elim u.nsfw_score [ none ↦ scores us | some s ↦ s ∷ scores us ]

module _ (average : List Score → Score) where
  abbrev pub top_nsfw : Group → TopNsfwUploader
  top_nsfw (ip, us) = record { ip = ip; count = length us; avg_score = average (scores us) }

  unfoldable pub top_nsfw_uploader_ips : Score → ℕ → Query (List TopNsfwUploader)
  top_nsfw_uploader_ips min_score limit = select (λ now t. map top_nsfw (
      top_groups (λ b. b) (λ u. u.uploader_ip) limit
        (filter (λ u. is_active u && scored min_score u) t.uploads)))

-- An hour is its number since the epoch: the buckets of `DATE_FORMAT`.
pub record HourlyUploadCount : Type 0 where
  pub hour : ℕ
  pub count : ℕ

abbrev pub hour_of : Upload → ℕ
hour_of u = u.upload_timestamp / 3600

-- The rows that the query groups by the hour.
unfoldable pub in_hours : Bytes → ℕ → ℕ → Upload → Bool
in_hours ip hours now u = stored_eq u.uploader_ip ip && is_active u && is_since now (hours * 3600) u

-- The slots, from `left - 1` hours before the present one on; the clock is past as many hours.
unfoldable pub hourly_slots : ℕ → ℕ → List Upload → List HourlyUploadCount
hourly_slots zero now_hour us = []
hourly_slots (suc left) now_hour us =
    record {
      hour = now_hour - left;
      count = length (filter (λ u. hour_of u == now_hour - left) us);
    }
    ∷ hourly_slots left now_hour us

unfoldable pub uploads_hourly_counts : IpAddr → ℕ → Query (List HourlyUploadCount)
uploads_hourly_counts ip hours = select (λ now t.
    hourly_slots hours (now / 3600) (filter (in_hours (to_db_bytes ip) hours now) t.uploads))

pub record MimeUploadCount : Type 0 where
  pub mime : Bytes
  pub count : ℕ

abbrev pub mime_count : Group → MimeUploadCount
mime_count (mime, us) = record { mime = mime; count = length us }

unfoldable pub uploads_top_mimes : (Bytes → Bytes) → IpAddr → ℕ → Query (List MimeUploadCount)
uploads_top_mimes collate ip limit = select (λ now t. map mime_count (
    top_groups collate (λ u. u.content_type) limit
      (filter (λ u. stored_eq u.uploader_ip (to_db_bytes ip) && is_active u) t.uploads)))
