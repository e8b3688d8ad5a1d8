-- ===== src/Sync/Tests.antt =====
-- A synchronisation at a state: the ban of the list gives way to its new entries.
use filehost.Base.{◌≡◌, refl, not, List, [], ◌∷◌, ◌++◌, filter}
use filehost.Base.Results.{ok}
use filehost.Db.Model.{BanType}
use filehost.Db.Bans.{from_blacklist}
use filehost.Db.Samples.{sample, sample_tables, sample_list}
use filehost.Sync.{IpRangeEntry, entry, replace_ranges}
use filehost.Sync.Replaced.{rows_of, replace_ranges_lem}

abbrev listed_entries : List IpRangeEntry
listed_entries = entry (1, 4) ∷ entry (16, 31) ∷ []

replace_ranges_lem_example :
    ((replace_ranges sample_list listed_entries sample).0 ≡ ok tt)
    × ((replace_ranges sample_list listed_entries sample).1.tables.banned_ip_ranges
        ≡ filter (λ r. not (from_blacklist 3 r)) sample_tables.banned_ip_ranges
          ++ rows_of 2 100 3 BanType.read_only listed_entries)
replace_ranges_lem_example = replace_ranges_lem sample_list listed_entries sample refl
