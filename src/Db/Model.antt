-- ===== src/Db/Model.antt =====
-- The rows of src/model.rs. A UUID is its 128-bit number, a timestamp the seconds of a `DATETIME`,
-- and a score, a non-negative `f32`, its bit pattern: that keeps the order, which is all that the
-- queries use.
use filehost.Base.{ℕ, Option, List, Bytes}

abbrev pub Uuid : Type 0
Uuid = ℕ

abbrev pub Score : Type 0
Score = ℕ

pub record Access : Type 0 where
  pub upload_id : Uuid
  pub timestamp : ℕ
  pub ip : Option Bytes
  pub user_agent : Option Bytes

pub record Upload : Type 0 where
  pub id : Uuid
  pub upload_timestamp : ℕ
  pub expiry_timestamp : ℕ
  pub deleted_timestamp : Option ℕ
  pub original_name : Bytes
  pub slug : Bytes
  pub file_size : ℕ
  pub hash : Option Bytes
  pub uploader_ip : Option Bytes
  pub content_type : Option Bytes
  pub user_agent : Option Bytes
  pub nsfw_score : Option Score

pub data BanType : Type 0 where
  read_only full : BanType

-- The discriminants, `ban_type as u32`.
abbrev pub severity : BanType → ℕ
severity BanType.read_only = 1
severity BanType.full = 2

pub record BannedIpRange : Type 0 where
  pub id : ℕ
  pub start_ip : Bytes
  pub end_ip : Bytes
  pub reason : Option Bytes
  pub banned_timestamp : ℕ
  pub expires_timestamp : Option ℕ
  pub ban_type : BanType
  pub blacklist_id : Option ℕ

pub record Blacklist : Type 0 where
  pub id : ℕ
  pub url : Bytes
  pub ban_type : BanType
  pub last_update : Option ℕ
  pub update_interval_seconds : ℕ

-- A row of `banned_filenames`, `banned_file_hashes` or `banned_user_agents`: the key, and the reason.
-- A row of `banned_file_mimes` has no reason.
pub record BannedKey : Type 0 where
  pub key : Bytes
  pub reason : Option Bytes

-- The tables, and the next automatic ids.
pub record Tables : Type 0 where
  pub uploads : List Upload
  pub accesses : List Access
  pub banned_ip_ranges : List BannedIpRange
  pub banned_filenames : List BannedKey
  pub banned_file_mimes : List BannedKey
  pub banned_file_hashes : List BannedKey
  pub banned_user_agents : List BannedKey
  pub challenge_verified_ips : List (Bytes × ℕ)
  pub blacklist : List Blacklist
  pub next_ban_id : ℕ
  pub next_blacklist_id : ℕ
