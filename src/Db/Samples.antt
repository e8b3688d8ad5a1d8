-- ===== src/Db/Samples.antt =====
-- A state to try the definitions on: two uploads, one ban, and nothing cached.
use filehost.Base.{ℕ, false, none, some, [], ◌∷◌, Bytes, ascii}
use filehost.Ip.Addr.{IpAddr, to_db_bytes}
use filehost.Db.Model.{Upload, BanType, BannedIpRange, Blacklist, Tables, Uuid}
use filehost.Db.World.{World, Caches}

abbrev pub upload_row : Uuid → Bytes → ℕ → Upload
upload_row id slug expiry = record {
  id = id;
  upload_timestamp = 90;
  expiry_timestamp = expiry;
  deleted_timestamp = none;
  original_name = ascii "a.txt";
  slug = slug;
  file_size = 10;
  hash = none;
  uploader_ip = some (to_db_bytes (IpAddr.v4 7));
  content_type = none;
  user_agent = none;
  nsfw_score = none;
}

abbrev pub ban_row : BannedIpRange
ban_row = record {
  id = 1;
  start_ip = to_db_bytes (IpAddr.v4 100);
  end_ip = to_db_bytes (IpAddr.v4 200);
  reason = none;
  banned_timestamp = 50;
  expires_timestamp = none;
  ban_type = BanType.full;
  blacklist_id = some 3;
}

abbrev pub sample_list : Blacklist
sample_list = record {
  id = 3;
  url = ascii "http://list";
  ban_type = BanType.read_only;
  last_update = none;
  update_interval_seconds = 86400;
}

abbrev pub sample_tables : Tables
sample_tables = record {
  uploads = upload_row 1 (ascii "abc") 95 ∷ upload_row 2 (ascii "abd") 500 ∷ [];
  accesses = [];
  banned_ip_ranges = ban_row ∷ [];
  banned_filenames = [];
  banned_file_mimes = [];
  banned_file_hashes = [];
  banned_user_agents = [];
  challenge_verified_ips = [];
  blacklist = sample_list ∷ [];
  next_ban_id = 2;
  next_blacklist_id = 4;
}

abbrev pub no_caches : Caches
no_caches = record {
  ip_bans = [];
  filename_patterns = [];
  mimes = [];
  hashes = [];
  user_agent_patterns = [];
  verified_ips = [];
  suspect_ips = [];
}

abbrev pub sample : World
sample = record {
  tables = sample_tables;
  now = 100;
  instant = 1000;
  outages = [];
  files = 1 ∷ 2 ∷ [];
  locked = λ id. false;
  caches = no_caches;
}
