-- ===== src/Sync.antt =====
-- The blacklists (src/sync.rs). The regex and the request are the libraries': a body is the list of
-- its captures, each the four numbers' text and the prefix's, if there is one, and `parse_v4` is the
-- standard library's parser of an address.
pub mod Replaced
mod Tests
use filehost.Base.{
  ℕ, ◌+◌, ◌-◌, ◌%◌, ◌^◌, ◌≤◌, Bool, true, false, not, Option, none, some, List, [], ◌∷◌, map,
  filter, Bytes, ltb, leb, ◌==◌, if◌then◌else◌,
}
use filehost.Base.Results.{Result, ok, err, Step, ◌>>=◌, ◌>>◌, pure, fail}
use filehost.Ip.Addr.{IpAddr}
use filehost.Ip.Cidr.{cidr_bounds, parse_prefix}
use filehost.Db.Model.{Blacklist, BanType, Tables}
use filehost.Db.World.{World, Query, DbError, statement}
use filehost.Db.Bans.{
  get_blacklist_by_id, list_blacklist, delete_banned_ips_by_blacklist, insert_banned_ip, NewBan,
}

pub record IpRangeEntry : Type 0 where
  pub start : IpAddr
  pub end : IpAddr

unfoldable pub cidr_range : ℕ → ℕ → ℕ × ℕ
cidr_range addr prefix = elim (cidr_bounds addr prefix 32) [
  | none ↦ (addr, addr)
  | some (start, end) ↦ (start % 2 ^ 32, end % 2 ^ 32)
]

abbrev pub entry : ℕ × ℕ → IpRangeEntry
entry (start, end) = record { start = IpAddr.v4 start; end = IpAddr.v4 end }

-- One match of the regex: the address, and the prefix behind a slash.
pub record Capture : Type 0 where
  pub address : Bytes
  pub prefix : Option Bytes

module _ (parse_v4 : Bytes → Option ℕ) where
  -- The body of the loop of `parse_body`; `none` is a `continue`.
  unfoldable pub parse_capture : Capture → Option IpRangeEntry
  parse_capture cap = elim (parse_v4 cap.address) [
    | none ↦ none
    | some addr ↦ elim (parse_prefix cap.prefix) [
      | none ↦ none
      | some p ↦ elim p [
        | none ↦ some (entry (addr, addr))
        | some prefix ↦ if ltb 32 prefix then none else some (entry (cidr_range addr prefix))
      ]
    ]
  ]

  unfoldable pub parse_body : List Capture → List IpRangeEntry
  parse_body [] = []
  parse_body (cap ∷ caps) =
      let rest = parse_body caps in elim (parse_capture cap) [ none ↦ rest | some e ↦ e ∷ rest ]

  -- `fetch_ip_ranges`: `request` is what the request for a URL gives, `none` where it fails.
  unfoldable pub fetch_ip_ranges :
      (Bytes → Option (List Capture)) → Bytes → Option (List IpRangeEntry)
  fetch_ip_ranges request url = elim (request url) [
    | none ↦ none
    | some caps ↦ some (parse_body caps)
  ]

-- Why a synchronisation failed.
pub data SyncError : Type 0 where
  database : DbError → SyncError
  not_found fetch_failed : SyncError

abbrev pub lifted : {A : Type 0} → Result DbError A → Result SyncError A
lifted (ok a) = ok a
lifted (err e) = err (SyncError.database e)

abbrev pub query : {A : Type 0} → Query A → Step World SyncError A
query q w = let (r, w') = q w in (lifted r, w')

abbrev pub ban_of_entry : ℕ → BanType → IpRangeEntry → NewBan
ban_of_entry id ban_type e = record {
  start_ip = e.start;
  end_ip = e.end;
  reason = none;
  expires_timestamp = none;
  blacklist_id = some id;
  ban_type = ban_type;
}

-- The loop of inserts.
unfoldable pub insert_each : ℕ → BanType → List IpRangeEntry → Query (Unit {0})
insert_each id ban_type [] = pure tt
insert_each id ban_type (e ∷ es) =
    insert_banned_ip (ban_of_entry id ban_type e) >> insert_each id ban_type es

unfoldable pub stamp : ℕ → ℕ → Blacklist → Blacklist
stamp id now b = if b.id == id then (record b { last_update = some now }) else b

unfoldable pub update_last_update : ℕ → Query (Unit {0})
update_last_update id =
    statement (λ now t. (tt, record t { blacklist = map (stamp id now) t.blacklist }))

-- The part of `sync_blacklist` after the request.
unfoldable pub replace_ranges : Blacklist → List IpRangeEntry → Query (Unit {0})
replace_ranges bl entries =
    delete_banned_ips_by_blacklist bl.id
    >> insert_each bl.id bl.ban_type entries
    >> update_last_update bl.id

module _ (parse_v4 : Bytes → Option ℕ) (request : Bytes → Option (List Capture)) where
  abbrev pub sync_entry : Blacklist → Step World SyncError (Unit {0})
  sync_entry bl = elim (fetch_ip_ranges parse_v4 request bl.url) [
    | none ↦ fail SyncError.fetch_failed
    | some entries ↦ query (replace_ranges bl entries)
  ]

  unfoldable pub sync_blacklist : ℕ → Step World SyncError (Unit {0})
  sync_blacklist blacklist_id = query (get_blacklist_by_id blacklist_id) >>= λ found. elim found [
    | none ↦ fail SyncError.not_found
    | some bl ↦ sync_entry bl
  ]

  -- The filter of `sync_all`.
  unfoldable pub is_due : ℕ → Blacklist → Bool
  is_due now b = elim b.last_update [
    | none ↦ true
    | some last ↦ leb (last + b.update_interval_seconds) now
  ]

  -- The tasks of `sync_all`, one after the other, with the numbers synced and failed.
  unfoldable pub sync_each : List ℕ → ℕ × ℕ → World → (ℕ × ℕ) × World
  sync_each [] counts w = (counts, w)
  sync_each (id ∷ rest) (synced, failed) w =
      let (r, w') = sync_blacklist id w in
      elim r [
        | ok u ↦ sync_each rest (synced + 1, failed) w'
        | err e ↦ sync_each rest (synced, failed + 1) w'
      ]

  unfoldable pub sync_all : Query (ℕ × ℕ)
  sync_all = list_blacklist >>= λ entries w.
      let (counts, w') =
        sync_each (map (λ (b : Blacklist). b.id) (filter (is_due w.now) entries)) (0, 0) w in
      (ok counts, w')
