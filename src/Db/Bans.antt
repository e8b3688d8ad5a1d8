-- ===== src/Db/Bans.antt =====
-- The bans and blacklists of src/db.rs. `collate` gives the sort key of a text, as in Db/Uploads, and
-- `lower` is the database's LOWER. The two macros `ban_set_crud` are one family over the table.
use filehost.Base.{
  ℕ, zero, suc, ◌+◌, Bool, true, false, not, ◌&&◌, Option, none, some, List, [], ◌∷◌, ◌++◌, length,
  any, filter, reverse, take, drop, Bytes, bytes_eq, ltb, leb, ◌==◌, if◌then◌else◌,
}
use filehost.Ip.Addr.{IpAddr, to_db_bytes, between, bytes_le}
use filehost.Db.Model.{BanType, severity, BannedIpRange, Blacklist, BannedKey, Tables}
use filehost.Db.World.{Query, statement, select}
use filehost.Db.Uploads.{first}

-- `expires_timestamp IS NULL OR expires_timestamp > NOW()`.
abbrev pub unexpired : ℕ → Option ℕ → Bool
unexpired now expires = elim expires [ none ↦ true | some t ↦ ltb now t ]

-- The clause of `is_ip_banned`.
unfoldable pub covers : Bytes → BanType → ℕ → BannedIpRange → Bool
covers ip ban_type now row =
    between ip row.start_ip row.end_ip
    && leb (severity ban_type) (severity row.ban_type)
    && unexpired now row.expires_timestamp

unfoldable pub is_ip_banned : IpAddr → BanType → Query Bool
is_ip_banned ip ban_type =
    select (λ now t. any (covers (to_db_bytes ip) ban_type now) t.banned_ip_ranges)

unfoldable pub is_ip_challenge_verified : IpAddr → Query Bool
is_ip_challenge_verified ip = select (λ now t.
    any (λ (row, expires). bytes_eq row (to_db_bytes ip) && ltb now expires)
      t.challenge_verified_ips)

-- `INSERT … ON DUPLICATE KEY UPDATE`.
unfoldable pub upsert : Bytes → ℕ → List (Bytes × ℕ) → List (Bytes × ℕ)
upsert ip expires [] = (ip, expires) ∷ []
upsert ip expires ((row, old) ∷ rows) =
    if bytes_eq row ip then (ip, expires) ∷ rows else (row, old) ∷ upsert ip expires rows

unfoldable pub upsert_challenge_verified_ip : IpAddr → ℕ → Query (Unit {0})
upsert_challenge_verified_ip ip ttl_seconds = statement (λ now t. (
  tt,
  record t {
    challenge_verified_ips = upsert (to_db_bytes ip) (now + ttl_seconds) t.challenge_verified_ips;
  },
))

-- The rows in the order of their ids, the last first: ids are given in order, and a row is added at
-- the end.
unfoldable pub list_banned_ips : ℕ → ℕ → Query (List BannedIpRange)
list_banned_ips limit offset =
    select (λ now t. take limit (drop offset (reverse t.banned_ip_ranges)))

-- The arguments of `insert_banned_ip`.
pub record NewBan : Type 0 where
  pub start_ip : IpAddr
  pub end_ip : IpAddr
  pub reason : Option Bytes
  pub expires_timestamp : Option ℕ
  pub blacklist_id : Option ℕ
  pub ban_type : BanType

abbrev pub ban_of : ℕ → ℕ → NewBan → BannedIpRange
ban_of id now n = record {
  id = id;
  start_ip = to_db_bytes n.start_ip;
  end_ip = to_db_bytes n.end_ip;
  reason = n.reason;
  banned_timestamp = now;
  expires_timestamp = n.expires_timestamp;
  ban_type = n.ban_type;
  blacklist_id = n.blacklist_id;
}

unfoldable pub insert_banned_ip : NewBan → Query ℕ
insert_banned_ip n = statement (λ now t. (
  t.next_ban_id,
  record t {
    banned_ip_ranges = t.banned_ip_ranges ++ (ban_of t.next_ban_id now n ∷ []);
    next_ban_id = t.next_ban_id + 1;
  },
))

-- `blacklist_id = ?`, which no row without one meets.
unfoldable pub from_blacklist : ℕ → BannedIpRange → Bool
from_blacklist id row = elim row.blacklist_id [ none ↦ false | some b ↦ b == id ]

-- `DELETE FROM banned_ip_ranges WHERE …`: the number of rows affected.
abbrev pub delete_ranges : (BannedIpRange → Bool) → Query ℕ
delete_ranges p = statement (λ now t. (
  length (filter p t.banned_ip_ranges),
  record t { banned_ip_ranges = filter (λ r. not (p r)) t.banned_ip_ranges },
))

unfoldable pub delete_banned_ips_by_blacklist : ℕ → Query ℕ
delete_banned_ips_by_blacklist blacklist_id = delete_ranges (from_blacklist blacklist_id)

unfoldable pub delete_banned_ip : ℕ → Query Bool
delete_banned_ip id = statement (λ now t. (
  any (λ r. r.id == id) t.banned_ip_ranges,
  record t { banned_ip_ranges = filter (λ r. not (r.id == id)) t.banned_ip_ranges },
))

-- What `INSERT IGNORE` keeps of a UTF-8 text in a column of `n` characters: the rest is cut off without
-- an error. A byte from 128 to 191 goes on with the character before it.
unfoldable pub varchar : ℕ → Bytes → Bytes
varchar n [] = []
varchar zero (b ∷ bs) = if leb 128 b && ltb b 192 then b ∷ varchar zero bs else []
varchar (suc n) (b ∷ bs) =
    if leb 128 b && ltb b 192 then b ∷ varchar (suc n) bs else b ∷ varchar n bs

-- The column of a reason.
abbrev pub kept_reason : Option Bytes → Option Bytes
kept_reason none = none
kept_reason (some reason) = some (varchar 255 reason)

-- One of the four tables of banned keys, as the macros take it.
pub record BanSet : Type 0 where
  pub rows : Tables → List BannedKey
  pub write : List BannedKey → Tables → Tables
  -- the sort key of its key column, what the statements apply to a key first, and what the column keeps
  -- of a key on `INSERT IGNORE`
  pub collation : Bytes → Bytes
  pub key_of : Bytes → Bytes
  pub column : Bytes → Bytes

unfoldable pub same_key : BanSet → Bytes → BannedKey → Bool
same_key s key row = bytes_eq (s.collation row.key) (s.collation key)

-- `ORDER BY`: an insertion sort by the sort key.
unfoldable pub put : BanSet → BannedKey → List BannedKey → List BannedKey
put s row [] = row ∷ []
put s row (r ∷ rs) =
    if bytes_le (s.collation row.key) (s.collation r.key) then row ∷ r ∷ rs else r ∷ put s row rs

unfoldable pub order_by_key : BanSet → List BannedKey → List BannedKey
order_by_key s [] = []
order_by_key s (r ∷ rs) = put s r (order_by_key s rs)

unfoldable pub list_banned : BanSet → Query (List BannedKey)
list_banned s = select (λ now t. order_by_key s (s.rows t))

-- `INSERT IGNORE`: a key that is there keeps its row, and what is too long for its column is cut.
unfoldable pub insert_banned : BanSet → Bytes → Option Bytes → Query (Unit {0})
insert_banned s key reason = statement (λ now t. (
  tt,
  if any (same_key s (s.column (s.key_of key))) (s.rows t)
      then t
      else s.write
          (s.rows t ++ (record { key = s.column (s.key_of key); reason = kept_reason reason } ∷ []))
          t,
))

unfoldable pub delete_banned : BanSet → Bytes → Query Bool
delete_banned s key = statement (λ now t. (
  any (same_key s (s.key_of key)) (s.rows t),
  s.write (filter (λ r. not (same_key s (s.key_of key) r)) (s.rows t)) t,
))

-- Every hash has the 32 bytes of its column.
abbrev pub banned_hashes : BanSet
banned_hashes = record {
  rows = λ t. t.banned_file_hashes;
  write = λ rows t. record t { banned_file_hashes = rows };
  collation = λ k. k;
  key_of = λ k. k;
  column = λ k. k;
}

module _ (collate lower : Bytes → Bytes) where
  abbrev pub banned_filenames : BanSet
  banned_filenames = record {
    rows = λ t. t.banned_filenames;
    write = λ rows t. record t { banned_filenames = rows };
    collation = collate;
    key_of = λ k. k;
    column = varchar 255;
  }

  abbrev pub banned_mimes : BanSet
  banned_mimes = record {
    rows = λ t. t.banned_file_mimes;
    write = λ rows t. record t { banned_file_mimes = rows };
    collation = collate;
    key_of = lower;
    column = varchar 255;
  }

  abbrev pub banned_user_agents : BanSet
  banned_user_agents = record {
    rows = λ t. t.banned_user_agents;
    write = λ rows t. record t { banned_user_agents = rows };
    collation = collate;
    key_of = λ k. k;
    column = varchar 255;
  }

unfoldable pub list_blacklist : Query (List Blacklist)
list_blacklist = select (λ now t. t.blacklist)

unfoldable pub get_blacklist_by_id : ℕ → Query (Option Blacklist)
get_blacklist_by_id id = select (λ now t. first (filter (λ b. b.id == id) t.blacklist))

unfoldable pub insert_blacklist : Bytes → BanType → ℕ → Query ℕ
insert_blacklist url ban_type update_interval_seconds = statement (λ now t. (
  t.next_blacklist_id,
  record t {
    blacklist =
        t.blacklist
        ++ (record {
          id = t.next_blacklist_id;
          url = url;
          ban_type = ban_type;
          last_update = none;
          update_interval_seconds = update_interval_seconds;
        }
            ∷ []);
    next_blacklist_id = t.next_blacklist_id + 1;
  },
))

unfoldable pub delete_blacklist : ℕ → Query Bool
delete_blacklist id = statement (λ now t. (
  any (λ b. b.id == id) t.blacklist,
  record t { blacklist = filter (λ b. not (b.id == id)) t.blacklist },
))
