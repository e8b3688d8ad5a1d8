-- ===== src/Service/Named.antt =====
-- What holds of every state that the service reaches: ids and slugs name uploads, and links last.
use mathlib.Core.Path.{ap, subst}
use filehost.Base.{
  ◌≡◌, refl, sym, ◌∙◌, inl, inr, ◌⊎◌, true, false, some, List, [], ◌∷◌, All, filter, Bytes,
  bytes_eq_refl, Bool-cases,
}
use filehost.Base.Results.{ok}
use filehost.Db.Model.{Upload}
use filehost.Db.World.{World}
use filehost.Db.Uploads.{is_active, has_slug, first, get_upload_by_slug}
use filehost.Db.Answered.{select-answered}
use filehost.Service.Rows.{Later, Grows, Grows-refl, Grows-Evolves, Grows-append}
use filehost.Service.Sound.{
  clash, IsUnambiguous, IsSound, IsSound-Evolves, IsSound-append, has_slug_flip,
}
use filehost.Service.Reach.{Deployment, Reach}
use filehost.Service.Preserved.{Reach-keeps}

-- The row is in the table.
abbrev pub Has : Upload → List Upload → Type 0
Has u [] = ⊥
Has u (v ∷ vs) = (u ≡ v) ⊎ Has u vs

-- Where requests, tasks and commands run one at a time, so that no two uploads overlap, whichever they
-- are, in whatever order, and whichever calls of the database fail: if no two rows of the table of
-- uploads have one id and no slug has two active rows, and the UUIDs drawn are new, then that is so in
-- every state reached. Two uploads that overlap may take one slug; what then holds is in
-- Service/Overlapped.
pub Reach-IsSound :
    (d : Deployment) (w v : World)
    → Reach d w v
    → IsSound d.lib.collate w.tables.uploads
    → IsSound d.lib.collate v.tables.uploads
Reach-IsSound d w v r h =
    Reach-keeps d (IsSound d.lib.collate) (IsSound-Evolves d.lib.collate)
      (IsSound-append d.lib.collate) w v r h

pub Reach-Grows :
    (d : Deployment) (w v : World) → Reach d w v → Grows w.tables.uploads v.tables.uploads
Reach-Grows d w v r =
    let us = w.tables.uploads in
    Reach-keeps d (Grows us) (Grows-Evolves us) (λ vs r fresh free g. Grows-append us vs r g) w v r
      (Grows-refl us)

-- Where a row went.
pub Later-row :
    (u : Upload) (us vs : List Upload)
    → Has u us
    → Grows us vs
    → (v : Upload) × Has v vs × Later u v
Later-row u [] vs h g = absurd h
Later-row u (x ∷ us) [] h g = absurd g
Later-row u (x ∷ us) (v ∷ vs) (inl e) (l, g) = (v, inl refl, subst (λ y. Later y v) (sym e) l)
Later-row u (x ∷ us) (v ∷ vs) (inr h) (l, g) =
    let (y, here, k) = Later-row u us vs h g in (y, inr here, k)

-- An active row is the first one with its slug.
module _ (collate : Bytes → Bytes) where
  All-Has :
      (u v : Upload) (us : List Upload)
      → All (λ x. clash collate v x ≡ false) us
      → Has u us
      → clash collate v u ≡ false
  All-Has u v [] a h = absurd h
  All-Has u v (x ∷ us) (here, a) (inl e) = ap (clash collate v) e ∙ here
  All-Has u v (x ∷ us) (here, a) (inr h) = All-Has u v us a h

  first-slug :
      (u : Upload) (us : List Upload)
      → Has u us
      → is_active u ≡ true
      → IsUnambiguous collate us
      → first (filter (has_slug collate u.slug) us) ≡ some u
  first-slug u [] h a one = absurd h
  first-slug u (v ∷ us) (inl e) a (here, one) =
      let own : has_slug collate u.slug u ≡ true = rw (bytes_eq_refl (collate u.slug)) a in
      let same : has_slug collate u.slug v ≡ true = ap (has_slug collate u.slug) (sym e) ∙ own in
      rw same (ap (λ y. some y) (sym e))
  first-slug u (v ∷ us) (inr h) a (here, one) =
      rw (has_slug_flip collate u v a (All-Has u v us here h)) (first-slug u us h a one)

-- A link lasts, where requests, tasks and commands run one at a time, so that no two uploads overlap:
-- take a row of a table in which no two rows have one id and no slug has two active rows. In every state
-- reached from there the row is still in the table, with the same id, slug, name, size, uploader, type
-- and expiry, and deleted if it was; and where the database answers, it is deleted or it is what its slug
-- finds.
pub Reach-get_upload_by_slug :
    (d : Deployment) (w v : World) (u : Upload)
    → Reach d w v
    → IsSound d.lib.collate w.tables.uploads
    → Has u w.tables.uploads
    → v.outages ≡ []
    → (x : Upload) × Has x v.tables.uploads
      × Later u x
      × ((is_active x ≡ false) ⊎ (get_upload_by_slug d.lib.collate u.slug v ≡ (ok (some x), v)))
unfolding get_upload_by_slug
Reach-get_upload_by_slug d w v u r sound has up =
    let (x, there, later) =
      Later-row u w.tables.uploads v.tables.uploads has (Reach-Grows d w v r) in
    let find =
      select-answered (λ now t. first (filter (has_slug d.lib.collate u.slug) t.uploads)) v up in
    (
      x,
      there,
      later,
      elim (Bool-cases (is_active x)) [
        | inr e ↦ inl e
        | inl e ↦ inr (
            find
            ∙ ap (λ o. (ok o, v))
                (ap (λ s. first (filter (has_slug d.lib.collate s) v.tables.uploads))
                    (sym later.same_slug)
                  ∙ first-slug d.lib.collate x v.tables.uploads there e
                      (Reach-IsSound d w v r sound).1))
      ],
    )
