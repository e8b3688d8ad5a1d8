-- ===== src/Service/Blacklists.antt =====
-- The blacklists (src/sync.rs) and the commands on them (src/cli.rs), and what they leave of the uploads.
use filehost.Base.{ℕ, refl, Option, List, [], ◌∷◌, Bytes, map, filter, ◌+◌}
use filehost.Base.Results.{ok}
use filehost.Db.Model.{Upload, Blacklist, BanType}
use filehost.Db.World.{World, Query}
use filehost.Db.Bans.{
  list_blacklist, get_blacklist_by_id, insert_blacklist, delete_blacklist,
  delete_banned_ips_by_blacklist,
}
use filehost.Sync.{
  Capture, IpRangeEntry, lifted, fetch_ip_ranges, insert_each, update_last_update, replace_ranges,
  sync_entry, sync_blacklist, sync_each, sync_all, is_due,
}
use filehost.Sync
use filehost.Cli.Lines.{CliLibraries, parse_ban_type}
use filehost.Cli.Blacklists.{BlacklistCommand, add_blacklist, blacklist}
use filehost.Service.Kept.{
  Kept, Kept-pure, Kept-same, Kept-case_step, Kept-option_step, Kept-result, Kept-select,
  Kept-other, Kept->>=,
}
use filehost.Service.Moderation.{insert_banned_ip-Kept}
use filehost.Service.Commands.{query-Kept, removal_result-Kept}

module _ (P : List Upload → Type 0) where
  insert_each-Kept : (id : ℕ) (b : BanType) (es : List IpRangeEntry) → Kept P (insert_each id b es)
  unfolding insert_each
  insert_each-Kept id b [] = Kept-pure P
  insert_each-Kept id b (e ∷ es) =
      Kept->>= P _ _ (insert_banned_ip-Kept P _) (λ n. insert_each-Kept id b es)

  cleared-Kept : (id : ℕ) → Kept P (delete_banned_ips_by_blacklist id)
  unfolding delete_banned_ips_by_blacklist
  cleared-Kept id = Kept-other P _ (λ now t. refl)

  stamped-Kept : (id : ℕ) → Kept P (update_last_update id)
  unfolding update_last_update
  stamped-Kept id = Kept-other P _ (λ now t. refl)

  replace_ranges-Kept : (bl : Blacklist) (es : List IpRangeEntry) → Kept P (replace_ranges bl es)
  unfolding replace_ranges
  replace_ranges-Kept bl es =
      Kept->>= P _ _
        (Kept->>= P _ _ (cleared-Kept bl.id) (λ n. insert_each-Kept bl.id bl.ban_type es))
        (λ u. stamped-Kept bl.id)

  list_blacklist-Kept : Kept P list_blacklist
  unfolding list_blacklist
  list_blacklist-Kept = Kept-select P _

  get_blacklist-Kept : (id : ℕ) → Kept P (get_blacklist_by_id id)
  unfolding get_blacklist_by_id
  get_blacklist-Kept id = Kept-select P _

  lifted-Kept : {A : Type 0} (q : Query A) → Kept P q → Kept P (Sync.query q)
  lifted-Kept q k = Kept-same P (λ (r, w). (lifted r, w)) (λ p. refl) k

  module _ (parse_v4 : Bytes → Option ℕ) (request : Bytes → Option (List Capture)) where
    sync_blacklist-Kept : (id : ℕ) → Kept P (sync_blacklist parse_v4 request id)
    unfolding sync_blacklist
    sync_blacklist-Kept id = Kept->>= P _ _ (lifted-Kept _ (get_blacklist-Kept id)) (λ found.
        Kept-option_step P found _ _ (Kept-pure P) (λ bl.
          Kept-option_step P (fetch_ip_ranges parse_v4 request bl.url) _ _ (Kept-pure P)
            (λ es. lifted-Kept _ (replace_ranges-Kept bl es))))

    sync_each-Kept :
        (ids : List ℕ) (synced failed : ℕ)
        → Kept P (sync_each parse_v4 request ids (synced, failed))
    unfolding sync_each
    sync_each-Kept [] synced failed = Kept-pure P
    sync_each-Kept (id ∷ ids) synced failed =
        Kept-result P (λ u. sync_each parse_v4 request ids (synced + 1, failed))
          (λ e. sync_each parse_v4 request ids (synced, failed + 1)) (sync_blacklist-Kept id)
          (λ u. sync_each-Kept ids (synced + 1) failed)
          (λ e. sync_each-Kept ids synced (failed + 1))

    pub sync_all-Kept : Kept P (sync_all parse_v4 request)
    unfolding sync_all
    sync_all-Kept =
        let due : List Blacklist → World → List ℕ = λ entries w.
          map (λ (b : Blacklist). b.id) (filter (is_due parse_v4 request w.now) entries) in
        let each : List Blacklist → Query (ℕ × ℕ) = λ entries w.
          let (counts, w') = sync_each parse_v4 request (due entries w) (0, 0) w in
          (ok counts, w') in
        Kept->>= P list_blacklist each list_blacklist-Kept
          (λ entries. record { after = λ w h. (sync_each-Kept (due entries w) 0 0).after w h })

  module _ (lib : CliLibraries) where
    pub blacklist-Kept : (c : BlacklistCommand) → Kept P (blacklist lib c)
    unfolding blacklist add_blacklist insert_blacklist delete_blacklist
    blacklist-Kept BlacklistCommand.list =
        Kept->>= P _ _ (query-Kept P _ list_blacklist-Kept) (λ es. Kept-pure P)
    blacklist-Kept (BlacklistCommand.add url type_ interval) =
        Kept-case_step P (parse_ban_type type_) _ _
          (λ b.
            Kept->>= P _ _ (query-Kept P _ (Kept-other P _ (λ now t. refl))) (λ id. Kept-pure P))
          (λ e. Kept-pure P)
    blacklist-Kept (BlacklistCommand.remove entry) =
        Kept->>= P _ _ (query-Kept P _ (Kept-other P _ (λ now t. refl)))
          (λ found. removal_result-Kept P found _)
    blacklist-Kept BlacklistCommand.sync =
        Kept->>= P _ _ (query-Kept P _ (sync_all-Kept lib.parse_v4 lib.request)) (λ n. Kept-pure P)
