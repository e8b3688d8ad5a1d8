-- ===== src/Nsfw/Scores.antt =====
-- What a run of `rensfw` (src/nsfw.rs) leaves in the table of uploads.
use mathlib.Core.Path.{ap, ap₂}
use filehost.Base.{
  ℕ, ◌+◌, ◌-◌, ◌≡◌, refl, sym, ◌∙◌, inl, inr, Bool, true, false, not, ◌&&◌, ◌||◌, Option, none,
  some, List, [], ◌∷◌, map, filter, length, Option-cases, if◌then◌else◌, arith,
}
use filehost.Base.Results.{ok}
use filehost.Db.Model.{Upload, Uuid, Score}
use filehost.Db.World.{World}
use filehost.Db.Uploads.{
  is_active, is_image, is_some, update_where_id, uploads_for_nsfw_scan, update_nsfw_score,
}
use filehost.Db.Deletes.{ids}
use filehost.Db.Deleted.{IsKeyed, uploads_of}
use filehost.Db.Updated.{
  updates, updates-filter, with_uploads, set_row, set_count, set_count-le, update_row-none,
  update_row-some,
}
use filehost.Nsfw.{Scanned, write_score, rensfw_each, rensfw}

-- The uploads that a run looks at.
abbrev pub to_scan : Bool → Upload → Bool
to_scan all u = is_active u && is_image u && (all || not (is_some u.nsfw_score))

abbrev with_score : Score → Upload → Upload
with_score s u = record u { nsfw_score = some s }

-- A row with its score, if its file can be classified.
abbrev pub scored_row : (Uuid → Option Score) → Uuid → Upload → Upload
scored_row classify = set_row classify with_score

-- How many of the uploads can be classified.
abbrev pub classified : (Uuid → Option Score) → List Upload → ℕ
classified classify = set_count classify with_score

scored_row-id :
    (classify : Uuid → Option Score) (i : Uuid) (u : Upload) → (scored_row classify i u).id ≡ u.id
scored_row-id classify i u = ground arith

module _ (classify : Uuid → Option Score) where
  abbrev after_scan : List Upload → World → World
  after_scan us w =
      with_uploads (updates (scored_row classify) (scored_row-id classify) (ids us) (uploads_of w))
        w

  abbrev counts : List Upload → Scanned → Scanned
  counts us n = record {
    scanned = n.scanned + classified classify us;
    errors = n.errors + (length us - classified classify us);
  }

  write_score-run :
      (id : Uuid) (s : Score) (w : World)
      → w.outages ≡ []
      → write_score classify false id s w
        ≡ with_uploads (update_where_id id (λ u. record u { nsfw_score = some s }) (uploads_of w)) w
  unfolding write_score update_nsfw_score
  write_score-run id s w up = ground (arith, up)

  rensfw_each-none :
      (i : Uuid) (is : List Uuid) (n : Scanned) (w : World)
      → classify i ≡ none
      → rensfw_each classify false (i ∷ is) n w
        ≡ rensfw_each classify false is (record n { errors = n.errors + 1 }) w
  unfolding rensfw_each
  rensfw_each-none i is n w e = ground (arith, e)

  rensfw_each-some :
      (i : Uuid) (is : List Uuid) (s : Score) (n : Scanned) (w : World)
      → classify i ≡ some s
      → rensfw_each classify false (i ∷ is) n w
        ≡ rensfw_each classify false is
            (record n { scanned = n.scanned + 1 })
            (write_score classify false i s w)
  unfolding rensfw_each
  rensfw_each-some i is s n w e = ground (arith, e)

  -- The run over the ids of a list of uploads.
  rensfw_each-run :
      (us : List Upload) (n : Scanned) (w : World)
      → w.outages ≡ []
      → rensfw_each classify false (ids us) n w ≡ (counts us n, after_scan us w)
  unfolding rensfw_each updates
  rensfw_each-run [] n w up = ground arith
  rensfw_each-run (u ∷ us) n w up = elim (Option-cases (classify u.id)) [
    | inl e ↦
        let row = update_row-none classify with_score u.id (uploads_of w) e in
        let count : counts us (record n { errors = n.errors + 1 }) ≡ counts (u ∷ us) n =
          ground (arith, e, set_count-le classify with_score us) in
        let same : after_scan us w ≡ after_scan (u ∷ us) w =
          ap
            (λ vs.
              with_uploads (updates (scored_row classify) (scored_row-id classify) (ids us) vs) w)
            (sym row) in
        rensfw_each-none u.id (ids us) n w e
        ∙ rensfw_each-run us (record n { errors = n.errors + 1 }) w up
        ∙ ap₂ (λ c v. (c, v)) count same
    | inr (s, e) ↦
        let wrote =
          write_score-run u.id s w up
          ∙ ap (λ vs. with_uploads vs w)
              (update_row-some classify with_score u.id s (uploads_of w) e) in
        let w' = with_uploads (update_where_id u.id (scored_row classify u.id) (uploads_of w)) w in
        let count : counts us (record n { scanned = n.scanned + 1 }) ≡ counts (u ∷ us) n =
          ground (arith, e, set_count-le classify with_score us) in
        rensfw_each-some u.id (ids us) s n w e
        ∙ ap (rensfw_each classify false (ids us) (record n { scanned = n.scanned + 1 })) wrote
        ∙ rensfw_each-run us (record n { scanned = n.scanned + 1 }) w' up
        ∙ ap (λ c. (c, after_scan us w')) count
  ]

  dry-run : (is : List Uuid) (n : Scanned) (w : World) → (rensfw_each classify true is n w).1 ≡ w
  unfolding rensfw_each write_score
  dry-run [] n w = refl
  dry-run (i ∷ is) n w = elim (Option-cases (classify i)) [
    | inl e ↦ ground (arith, e, dry-run is (record n { errors = n.errors + 1 }) w)
    | inr (s, e) ↦ ground (arith, e, dry-run is (record n { scanned = n.scanned + 1 }) w)
  ]

  abbrev start : Scanned
  start = record { scanned = 0; errors = 0 }

  rensfw-run :
      (all dry_run : Bool) (w : World)
      → w.outages ≡ []
      → let each =
          rensfw_each classify dry_run (ids (filter (to_scan all) w.tables.uploads)) start w in
        rensfw (some classify) all dry_run w ≡ (ok each.0, each.1)
  unfolding rensfw uploads_for_nsfw_scan
  rensfw-run all dry_run w up = ground (arith, up)

  -- Where every query is answered and no two rows have one id: of the active images, those without a
  -- score or `all`, each that can be classified gets its score in the table, every other row stays as
  -- it was, and the run answers how many were classified and how many could not be. A dry run changes
  -- nothing.
  pub rensfw_lem :
      (all : Bool) (w : World)
      → w.outages ≡ []
      → IsKeyed w.tables.uploads
      → let us = filter (to_scan all) w.tables.uploads in
        let (r, w') = rensfw (some classify) all false w in
        (r
          ≡ ok (record {
            scanned = classified classify us;
            errors = length us - classified classify us;
          }))
        × (w'.tables.uploads
            ≡ map (λ u. if to_scan all u then scored_row classify u.id u else u) w.tables.uploads)
        × ((rensfw (some classify) all true w).1 ≡ w)
  rensfw_lem all w up keyed =
      let us = filter (to_scan all) w.tables.uploads in
      let run = rensfw-run all false w up in
      let each = rensfw_each-run us start w up in
      (
        ap (λ q. q.0) run ∙ ap (λ q. ok q.0) each ∙ ap ok (ground arith),
        ap (λ q. uploads_of q.1) run
            ∙ ap (λ q. uploads_of q.1) each
            ∙ updates-filter (scored_row classify) (scored_row-id classify) (to_scan all)
                w.tables.uploads keyed,
        ap (λ q. q.1) (rensfw-run all true w up) ∙ dry-run (ids us) start w,
      )
