-- ===== src/Db/Tests.antt =====
-- Deletes and bans at a state.
use filehost.Base.{
  ℕ, ◌≡◌, refl, Bool, true, ◌&&◌, ◌||◌, none, some, any, length, filter, leb, arith, List,
}
use filehost.Base.Results.{ok}
use filehost.Ip.Addr.{IpAddr, to_db_bytes, between, be_bytes, bytes_le}
use filehost.Ip.Octets.{rank}
use filehost.Db.Model.{Upload, BanType, severity}
use filehost.Db.Deletes.{delete_matching}
use filehost.Db.Deleted.{is_target, all_deleted, delete_matching_lem}
use filehost.Db.Bans.{NewBan, covers, unexpired, is_ip_banned, insert_banned_ip}
use filehost.Db.Banned.{is_ip_banned-insert_banned_ip}
use filehost.Db.Listing.{ListUploads}
use filehost.Db.Stats.{HourlyUploadCount, uploads_hourly_counts}
use filehost.Db.Hourly.{total, in_week, uploads_hourly_counts_lem}
use filehost.Db.Samples.{sample, sample_tables}

-- The clause of `delete_expired`.
abbrev expired : ℕ → Upload → Bool
expired now u = leb u.expiry_timestamp now

delete_matching_lem_example :
    ((delete_matching expired sample).0
      ≡ ok (length (filter (is_target (expired 100)) sample_tables.uploads)))
    × ((delete_matching expired sample).1.tables.uploads
        ≡ all_deleted (expired 100) 100 sample_tables.uploads)
delete_matching_lem_example = delete_matching_lem expired sample refl ((refl, tt), (tt, tt))

banned_fully : (is_ip_banned (IpAddr.v4 150) BanType.full sample).0 ≡ ok true
unfolding is_ip_banned covers between to_db_bytes bytes_le be_bytes
banned_fully = refl

abbrev new_ban : NewBan
new_ban = record {
  start_ip = IpAddr.v4 5;
  end_ip = IpAddr.v4 9;
  reason = none;
  expires_timestamp = some 150;
  blacklist_id = none;
  ban_type = BanType.read_only;
}

is_ip_banned-insert_banned_ip_example :
    (is_ip_banned (IpAddr.v4 7) BanType.full (insert_banned_ip new_ban sample).1).0
    ≡ ok (
        any (covers (to_db_bytes (IpAddr.v4 7)) BanType.full 100) sample_tables.banned_ip_ranges
        || (((leb (rank (IpAddr.v4 5)) (rank (IpAddr.v4 7))
                && leb (rank (IpAddr.v4 7)) (rank (IpAddr.v4 9)))
              && leb (severity BanType.full) (severity BanType.read_only))
            && unexpired 100 (some 150)))
is_ip_banned-insert_banned_ip_example =
    is_ip_banned-insert_banned_ip new_ban (IpAddr.v4 7) BanType.full sample refl (omega arith)
      (omega arith) (omega arith)

-- Every upload, in pages of one.
abbrev by_one : ListUploads
by_one = record {
  ip = none;
  slug = none;
  include_deleted = true;
  min_nsfw_score = none;
  limit = 1;
  offset = 0;
}

uploads_hourly_counts_lem_example :
    (counts : List HourlyUploadCount) × (uploads_hourly_counts (IpAddr.v4 7) 1 sample
      ≡ (ok counts, sample))
    × (length counts ≡ 1)
    × (total counts
        ≡ length (filter (in_week (to_db_bytes (IpAddr.v4 7)) 1 0) sample_tables.uploads))
uploads_hourly_counts_lem_example =
    uploads_hourly_counts_lem (IpAddr.v4 7) 1 sample refl (omega arith, (omega arith, tt))
      (omega arith)
