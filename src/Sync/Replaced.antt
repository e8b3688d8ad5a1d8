-- ===== src/Sync/Replaced.antt =====
-- What a synchronisation leaves in the table of bans.
use mathlib.Core.Path.{ap}
use mathlib.Core.List.{append_assoc, append-nil}
use filehost.Base.{
  ℕ, ◌+◌, ◌≡◌, refl, sym, ◌∙◌, not, none, some, List, [], ◌∷◌, ◌++◌, map, length, filter, arith,
}
use filehost.Base.Results.{ok, >>=-ok, ◌>>◌}
use filehost.Ip.Addr.{to_db_bytes}
use filehost.Db.Model.{BanType, BannedIpRange, Blacklist}
use filehost.Db.World.{World}
use filehost.Db.Bans.{from_blacklist, ban_of, insert_banned_ip, delete_banned_ips_by_blacklist}
use filehost.Db.Banned.{with_ban, insert_banned_ip-answered}
use filehost.Sync.{
  IpRangeEntry, ban_of_entry, insert_each, update_last_update, replace_ranges, stamp,
}

-- The rows of the entries of a list, with the ids from `next` on.
abbrev pub rows_of : ℕ → ℕ → ℕ → BanType → List IpRangeEntry → List BannedIpRange
rows_of next now id ban_type [] = []
rows_of next now id ban_type (e ∷ es) =
    record {
      id = next;
      start_ip = to_db_bytes e.start;
      end_ip = to_db_bytes e.end;
      reason = none;
      banned_timestamp = now;
      expires_timestamp = none;
      ban_type = ban_type;
      blacklist_id = some id;
    }
    ∷ rows_of (next + 1) now id ban_type es

-- The state with the entries inserted.
abbrev inserted : ℕ → BanType → List IpRangeEntry → World → World
inserted id ban_type [] w = w
inserted id ban_type (e ∷ es) w = inserted id ban_type es (with_ban (ban_of_entry id ban_type e) w)

insert_each-run :
    (id : ℕ) (ban_type : BanType) (es : List IpRangeEntry) (w : World)
    → w.outages ≡ []
    → insert_each id ban_type es w ≡ (ok tt, inserted id ban_type es w)
unfolding insert_each
insert_each-run id ban_type [] w up = refl
insert_each-run id ban_type (e ∷ es) w up =
    >>=-ok (insert_banned_ip (ban_of_entry id ban_type e)) (λ u. insert_each id ban_type es) w
      w.tables.next_ban_id (with_ban (ban_of_entry id ban_type e) w)
      (insert_banned_ip-answered (ban_of_entry id ban_type e) w up)
    ∙ insert_each-run id ban_type es (with_ban (ban_of_entry id ban_type e) w) up

inserted-outages :
    (id : ℕ) (ban_type : BanType) (es : List IpRangeEntry) (w : World)
    → (inserted id ban_type es w).outages ≡ w.outages
inserted-outages id ban_type [] w = refl
inserted-outages id ban_type (e ∷ es) w =
    inserted-outages id ban_type es (with_ban (ban_of_entry id ban_type e) w)

inserted-ranges :
    (id : ℕ) (ban_type : BanType) (es : List IpRangeEntry) (w : World)
    → (inserted id ban_type es w).tables.banned_ip_ranges
      ≡ w.tables.banned_ip_ranges ++ rows_of w.tables.next_ban_id w.now id ban_type es
inserted-ranges id ban_type [] w = sym (append-nil w.tables.banned_ip_ranges)
inserted-ranges id ban_type (e ∷ es) w =
    inserted-ranges id ban_type es (with_ban (ban_of_entry id ban_type e) w)
    ∙ append_assoc w.tables.banned_ip_ranges
        (ban_of w.tables.next_ban_id w.now (ban_of_entry id ban_type e) ∷ [])
        (rows_of (w.tables.next_ban_id + 1) w.now id ban_type es)

-- The state after the deletion of a blacklist's ranges.
abbrev cleared : ℕ → World → World
cleared id w = record w {
  tables = record w.tables {
    banned_ip_ranges = filter (λ r. not (from_blacklist id r)) w.tables.banned_ip_ranges;
  };
}

delete-answered :
    (id : ℕ) (w : World)
    → w.outages ≡ []
    → delete_banned_ips_by_blacklist id w
      ≡ (ok (length (filter (from_blacklist id) w.tables.banned_ip_ranges)), cleared id w)
unfolding delete_banned_ips_by_blacklist
delete-answered id w up = ground (arith, up)

abbrev stamped : ℕ → World → World
stamped id w = record w {
  tables = record w.tables { blacklist = map (stamp id w.now) w.tables.blacklist };
}

update_last_update-answered :
    (id : ℕ) (w : World) → w.outages ≡ [] → update_last_update id w ≡ (ok tt, stamped id w)
unfolding update_last_update
update_last_update-answered id w up = ground (arith, up)

replace_ranges-run :
    (bl : Blacklist) (entries : List IpRangeEntry) (w : World)
    → w.outages ≡ []
    → replace_ranges bl entries w
      ≡ (ok tt, stamped bl.id (inserted bl.id bl.ban_type entries (cleared bl.id w)))
unfolding replace_ranges
replace_ranges-run bl entries w up =
    let m = inserted bl.id bl.ban_type entries (cleared bl.id w) in
    let two =
      >>=-ok (delete_banned_ips_by_blacklist bl.id) (λ n. insert_each bl.id bl.ban_type entries) w
        (length (filter (from_blacklist bl.id) w.tables.banned_ip_ranges)) (cleared bl.id w)
        (delete-answered bl.id w up)
      ∙ insert_each-run bl.id bl.ban_type entries (cleared bl.id w) up in
    >>=-ok (delete_banned_ips_by_blacklist bl.id >> insert_each bl.id bl.ban_type entries)
      (λ u. update_last_update bl.id) w tt m two
    ∙ update_last_update-answered bl.id m
        (inserted-outages bl.id bl.ban_type entries (cleared bl.id w) ∙ up)

-- Once the ranges of a blacklist have been fetched, and where every query is answered, the
-- replacement of its bans succeeds. The bans are then those from elsewhere, as they were and in their
-- order, and after them one row for each range, in order: with its ends, of the list's type, from the
-- list, at the present time, without a reason or an expiry, and with the next free id.
pub replace_ranges_lem :
    (bl : Blacklist) (entries : List IpRangeEntry) (w : World)
    → w.outages ≡ []
    → ((replace_ranges bl entries w).0 ≡ ok tt)
      × ((replace_ranges bl entries w).1.tables.banned_ip_ranges
          ≡ filter (λ r. not (from_blacklist bl.id r)) w.tables.banned_ip_ranges
            ++ rows_of w.tables.next_ban_id w.now bl.id bl.ban_type entries)
replace_ranges_lem bl entries w up = (
  ap (λ p. p.0) (replace_ranges-run bl entries w up),
  ap (λ p. p.1.tables.banned_ip_ranges) (replace_ranges-run bl entries w up)
      ∙ inserted-ranges bl.id bl.ban_type entries (cleared bl.id w),
)
