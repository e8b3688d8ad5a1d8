-- ===== src/Service/Maintenance.antt =====
-- The runs of src/dedup.rs and src/nsfw.rs and the commands (src/cli.rs), and what they leave of the
-- uploads.
use filehost.Base.{ℕ, ◌≡◌, refl, Bool, true, false, Option, none, some, List, [], ◌∷◌, Bytes, ◌+◌}
use filehost.Base.Results.{Result, ok, err}
use filehost.Db.Model.{Upload, Uuid, Score}
use filehost.Db.World.{World}
use filehost.Db.Uploads.{uploads_missing_hash, uploads_for_nsfw_scan}
use filehost.Db.Deletes.{RangeError}
use filehost.Db.Listing.{find_dedup_pairs}
use filehost.Dedup.{Store, Rehashed, rehash_each, rehash, dedup_store}
use filehost.Nsfw.{Scanned, RensfwError, write_score, rensfw_each, rensfw}
use filehost.Cli.Lines.{CliLibraries}
use filehost.Cli.Deletes.{DeleteTarget, ranged, delete_count, delete, remove_expired}
use filehost.Cli.Run.{CliCommand, Exit, exit_with, exits, dispatch}
use filehost.Cli.Stored.{Machine}
use filehost.Cli.Stored
use filehost.Service.Rows.{Evolves}
use filehost.Service.Kept.{
  Kept, Kept-pure, Kept-same, Kept-option, Kept-result, Kept-select, Kept->>=,
}
use filehost.Service.Queries.{
  delete_expired-Kept, delete_by_id-Kept, delete_by_ip-Kept, delete_by_slug-Kept,
  delete_by_ip_range-Kept, update_upload_hash-Kept, update_nsfw_score-Kept,
}
use filehost.Service.Commands.{query-Kept, ban-Kept}
use filehost.Service.Blacklists.{blacklist-Kept}

ranged_same : (p : Result RangeError ℕ × World) → (ranged p).1 ≡ p.1
ranged_same (ok n, w) = refl
ranged_same (err RangeError.mixed_families, w) = refl
ranged_same (err (RangeError.database d), w) = refl

module _ (P : List Upload → Type 0) where
  exits-Kept :
      {E A : Type 0} (done : A → Exit) (stop : E → Exit) {m : World → Result E A × World}
      → Kept P m
      → Kept P (exits done stop m)
  exits-Kept done stop k = Kept-same P (λ (r, w). (exit_with done stop r, w)) (λ p. refl) k

  rehash_each-Kept :
      (closed : (us vs : List Upload) → Evolves us vs → P us → P vs) (hash_of : Uuid → Option Bytes)
      (ids : List Uuid) (n : Rehashed)
      → Kept P (rehash_each hash_of ids n)
  unfolding rehash_each
  rehash_each-Kept closed hash_of [] n = Kept-pure P
  rehash_each-Kept closed hash_of (id ∷ ids) n =
      Kept-option P (hash_of id) _ _ (rehash_each-Kept closed hash_of ids _) (λ h.
        Kept-result P (λ u. rehash_each hash_of ids (record n { hashed = n.hashed + 1 }))
          (λ e. rehash_each hash_of ids (record n { errors = n.errors + 1 }))
          (update_upload_hash-Kept P closed id h) (λ u. rehash_each-Kept closed hash_of ids _)
          (λ e. rehash_each-Kept closed hash_of ids _))

  module _ (closed : (us vs : List Upload) → Evolves us vs → P us → P vs) where
    missing-Kept : Kept P uploads_missing_hash
    unfolding uploads_missing_hash
    missing-Kept = Kept-select P _

    rehash-Kept : (hash_of : Uuid → Option Bytes) → Kept P (rehash hash_of)
    unfolding rehash
    rehash-Kept hash_of =
        let start : Rehashed = record { hashed = 0; skipped = 0; errors = 0 } in
        Kept-result P (λ ids w. let (n, w') = rehash_each hash_of ids start w in (ok n, w'))
          (λ e w. (err e, w)) missing-Kept
          (λ ids. record { after = λ w h. (rehash_each-Kept closed hash_of ids start).after w h })
          (λ e. Kept-pure P)

    write_score-Kept :
        (classify : Uuid → Option Score) (dry_run : Bool) (id : Uuid) (score : Score) (w : World)
        → P w.tables.uploads
        → P (write_score classify dry_run id score w).tables.uploads
    unfolding write_score
    write_score-Kept classify true id score w h = h
    write_score-Kept classify false id score w h =
        (update_nsfw_score-Kept P closed id score).after w h

    rensfw_each-Kept :
        (classify : Uuid → Option Score) (dry_run : Bool) (ids : List Uuid) (n : Scanned)
        → Kept P (rensfw_each classify dry_run ids n)
    unfolding rensfw_each
    rensfw_each-Kept classify dry_run [] n = Kept-pure P
    rensfw_each-Kept classify dry_run (id ∷ ids) n =
        Kept-option P (classify id) _ _ (rensfw_each-Kept classify dry_run ids _) (λ score. record {
          after = λ w h.
              (rensfw_each-Kept classify dry_run ids _).after _
                (write_score-Kept classify dry_run id score w h);
        })

    for_scan-Kept : (all : Bool) → Kept P (uploads_for_nsfw_scan all)
    unfolding uploads_for_nsfw_scan
    for_scan-Kept all = Kept-select P _

    rensfw-Kept :
        (model : Option (Uuid → Option Score)) (all dry_run : Bool)
        → Kept P (rensfw model all dry_run)
    unfolding rensfw
    rensfw-Kept none all dry_run = Kept-pure P
    rensfw-Kept (some classify) all dry_run =
        let start : Scanned = record { scanned = 0; errors = 0 } in
        Kept-result P
          (λ ids w. let (n, w') = rensfw_each classify dry_run ids start w in (ok n, w'))
          (λ e w. (err (RensfwError.database e), w)) (for_scan-Kept all)
          (λ ids. record { after = λ w h. (rensfw_each-Kept classify dry_run ids start).after w h })
          (λ e. Kept-pure P)

    pairs-Kept : Kept P find_dedup_pairs
    unfolding find_dedup_pairs
    pairs-Kept = Kept-select P _

    dedup_store-Kept :
        (dry_run : Bool) (can_link can_resolve : Uuid → Bool) (store : Store)
        → Kept P (dedup_store dry_run can_link can_resolve store)
    unfolding dedup_store
    dedup_store-Kept dry_run can_link can_resolve store =
        Kept-result P _ _ pairs-Kept (λ pairs. Kept-pure P) (λ e. Kept-pure P)

    delete-Kept : (collate : Bytes → Bytes) (target : DeleteTarget) → Kept P (delete collate target)
    unfolding delete delete_count
    delete-Kept collate (DeleteTarget.id i) =
        Kept->>= P _ _ (query-Kept P _ (delete_by_id-Kept P closed i)) (λ n. Kept-pure P)
    delete-Kept collate (DeleteTarget.slug s) =
        Kept->>= P _ _ (query-Kept P _ (delete_by_slug-Kept P closed collate s)) (λ n. Kept-pure P)
    delete-Kept collate (DeleteTarget.ip a) =
        Kept->>= P _ _ (query-Kept P _ (delete_by_ip-Kept P closed a)) (λ n. Kept-pure P)
    delete-Kept collate (DeleteTarget.ip_range start end) =
        Kept->>= P _ _ (Kept-same P ranged ranged_same (delete_by_ip_range-Kept P closed start end))
          (λ n. Kept-pure P)

    migrate-Kept : (machine : Machine) → Kept P (Stored.migrate machine)
    unfolding Stored.migrate
    migrate-Kept machine = Kept-pure P

    pub dispatch-Kept :
        (lib : CliLibraries) (machine : Machine) (command : CliCommand)
        → Kept P (dispatch lib machine command)
    unfolding dispatch remove_expired Stored.dedup_command Stored.rehash_command
        Stored.rensfw_command
    dispatch-Kept lib machine CliCommand.migrate = exits-Kept _ _ (migrate-Kept machine)
    dispatch-Kept lib machine CliCommand.delete_expired =
        exits-Kept _ _
          (Kept->>= P _ _ (query-Kept P _ (delete_expired-Kept P closed)) (λ n. Kept-pure P))
    dispatch-Kept lib machine CliCommand.rehash = exits-Kept _ _ (rehash-Kept machine.hash_of)
    dispatch-Kept lib machine (CliCommand.delete target) =
        exits-Kept _ _ (delete-Kept lib.collate target)
    dispatch-Kept lib machine (CliCommand.dedup dry_run) =
        exits-Kept _ _ (dedup_store-Kept dry_run machine.can_link machine.can_resolve machine.store)
    dispatch-Kept lib machine (CliCommand.rensfw all dry_run) =
        exits-Kept _ _ (rensfw-Kept machine.model all dry_run)
    dispatch-Kept lib machine (CliCommand.blacklist command) =
        exits-Kept _ _ (blacklist-Kept P lib command)
    dispatch-Kept lib machine (CliCommand.ban target) = exits-Kept _ _ (ban-Kept P lib target)
