-- ===== src/Handlers/Samples.antt =====
-- Settings, libraries, a file and a request to try the handlers on.
use filehost.Base.{true, false, none, some, [], ascii, bytes_eq}
use filehost.Ip.Addr.{IpAddr}
use filehost.Handlers.Reply.{Settings}
use filehost.Handlers.Slug.{Names}
use filehost.Handlers.Types.{HashedTempFile}
use filehost.Handlers.Process.{Libraries, Draw}
use filehost.Handlers.Upload.{Request}

abbrev pub settings : Settings
settings = record {
  base_url = some (ascii "http://h/");
  min_id_length = 3;
  max_id_length = 24;
  max_ext_len = 7;
  auto_file_ext = false;
  nsfw_threshold = 5;
  max_uploads_per_day = some 2;
  max_bytes_per_day = none;
  dedup = true;
  ban_cache_ttl_seconds = 300;
  pow_difficulty = 3;
  pow_challenge_ttl_seconds = 300;
  challenge_verified_ttl_seconds = 86400;
}

abbrev pub names : Names
names = record { file_stem = λ s. some s; extension = λ s. none; is_alphanumeric = λ c. true }

abbrev pub lib : Libraries
lib = record {
  show_status = λ n. [];
  collate = λ s. s;
  lower = λ s. s;
  to_lowercase = λ s. s;
  compiles = λ s. true;
  is_match = bytes_eq;
  names = names;
  guess = λ s. none;
  utf8_percent_encode = λ s. s;
  parse_ip = λ s. none;
}

abbrev pub draw : Draw
draw = record {
  uuid = 9;
  random_string = λ k len. ascii "q7z";
  expiry = 900;
  created = true;
  saved = true;
  fuel = 4;
}

abbrev pub file : HashedTempFile
file = record {
  content_type = none;
  detected_content_type = none;
  file_name = none;
  size = 12;
  hash = ascii "h";
}

abbrev pub request : Request
request = record {
  x_forwarded_for = none;
  peer_addr = some (IpAddr.v4 7);
  user_agent = none;
  accept = none;
}
