-- ===== src/Service/Overlapped.antt =====
-- Uploads that overlap (src/handlers.rs): one of them may add its row at a slug that it found free
-- before other requests ran.
use mathlib.Core.Path.{ap, subst}
use filehost.Base.{
  ◌≡◌, refl, sym, ◌∙◌, inl, inr, ◌⊎◌, Bool, true, false, some, List, [], ◌∷◌, ◌++◌, filter, Bytes,
  bytes_eq_refl, Bool-cases, arith,
}
use filehost.Base.Results.{ok}
use filehost.Db.Model.{Upload}
use filehost.Db.World.{World}
use filehost.Db.Uploads.{
  NewUpload, row_of, insert_upload_row, is_active, has_slug, first, get_upload_by_slug,
}
use filehost.Db.Answered.{select-answered}
use filehost.Db.Deleted.{IsKeyed}
use filehost.Service.Rows.{Later, Evolves, Grows, Grows-refl, Grows-Evolves, Grows-append}
use filehost.Service.Sound.{Fresh, IsKeyed-Evolves, IsKeyed-append}
use filehost.Service.Reach.{Deployment, Moves}
use filehost.Service.Preserved.{Moves-keeps}
use filehost.Service.Named.{Has, Later-row}

-- Any number of steps, and of inserts by uploads under way, each under a new id and whatever slug.
pub data Overlaps (d : Deployment) : World → World → Type 0 where
  here : {w : World} → Overlaps d w w
  moved : {w v x : World} → Moves d w v → Overlaps d v x → Overlaps d w x
  inserted :
      {w x : World} (n : NewUpload)
      → Fresh n.id w.tables.uploads
      → Overlaps d ((insert_upload_row n w).1) x
      → Overlaps d w x

module _ (d : Deployment) (P : List Upload → Type 0)
    (closed : (us vs : List Upload) → Evolves us vs → P us → P vs)
    (append : (us : List Upload) (r : Upload) → Fresh r.id us → P us → P (us ++ (r ∷ []))) where
  insert-keeps :
      (n : NewUpload) (os : List Bool) (w : World)
      → Fresh n.id w.tables.uploads
      → P w.tables.uploads
      → P ((insert_upload_row n (record w { outages = os })).1).tables.uploads
  unfolding insert_upload_row
  insert-keeps n [] w new h = append w.tables.uploads (row_of w.now n) new h
  insert-keeps n (true ∷ os) w new h = h
  insert-keeps n (false ∷ os) w new h = append w.tables.uploads (row_of w.now n) new h

  Overlaps-keeps : (w v : World) → Overlaps d w v → P w.tables.uploads → P v.tables.uploads
  Overlaps-keeps w _ Overlaps.here h = h
  Overlaps-keeps w v (Overlaps.moved {v = x} m r) h =
      Overlaps-keeps x v r (Moves-keeps d P closed (λ us r new free k. append us r new k) w x m h)
  Overlaps-keeps w v (Overlaps.inserted n new r) h =
      Overlaps-keeps _ v r (insert-keeps n w.outages w new h)

-- A slug of an active row finds one with that slug.
first-Has :
    (collate : Bytes → Bytes) (u : Upload) (us : List Upload)
    → Has u us
    → is_active u ≡ true
    → (y : Upload) × Has y us
      × (has_slug collate u.slug y ≡ true)
      × (first (filter (has_slug collate u.slug) us) ≡ some y)
first-Has collate u [] h a = absurd h
first-Has collate u (v ∷ us) h a = elim (Bool-cases (has_slug collate u.slug v)) [
  | inl e ↦ (v, inl refl, e, rw e refl)
  | inr e ↦ elim h [
    | inl same ↦
        let own : has_slug collate u.slug u ≡ true = rw (bytes_eq_refl (collate u.slug)) a in
        absurd (ground (arith, sym own ∙ ap (has_slug collate u.slug) same ∙ e))
    | inr there ↦ let (y, k, s, found) = first-Has collate u us there a in (y, inr k, s, rw e found)
  ]
]

-- Also where uploads overlap, and may then take one slug: take a row of a table in which no two rows have
-- one id, and let the UUIDs drawn be new. In every state reached from there no two rows have one id, and
-- the row is still in the table, with the same id, slug, name, size, uploader, type and expiry, and
-- deleted if it was; and where the database answers, it is deleted, or its slug finds an active row with
-- that slug, which may be that of another upload.
pub Overlaps-get_upload_by_slug :
    (d : Deployment) (w v : World) (u : Upload)
    → Overlaps d w v
    → IsKeyed w.tables.uploads
    → Has u w.tables.uploads
    → v.outages ≡ []
    → IsKeyed v.tables.uploads
      × ((x : Upload) × Has x v.tables.uploads
          × Later u x
          × ((is_active x ≡ false)
              ⊎ ((y : Upload) × Has y v.tables.uploads
                  × (has_slug d.lib.collate u.slug y ≡ true)
                  × (get_upload_by_slug d.lib.collate u.slug v ≡ (ok (some y), v)))))
unfolding get_upload_by_slug
Overlaps-get_upload_by_slug d w v u r keyed has up =
    let us = w.tables.uploads in
    let grown =
      Overlaps-keeps d (Grows us) (Grows-Evolves us) (λ vs r new g. Grows-append us vs r g) w v r
        (Grows-refl us) in
    let (x, there, later) = Later-row u us v.tables.uploads has grown in
    let find =
      select-answered (λ now t. first (filter (has_slug d.lib.collate u.slug) t.uploads)) v up in
    (
      Overlaps-keeps d IsKeyed IsKeyed-Evolves IsKeyed-append w v r keyed,
      (
        x,
        there,
        later,
        elim (Bool-cases (is_active x)) [
          | inr e ↦ inl e
          | inl e ↦
              let (y, k, s, found) =
                subst
                  (λ slug.
                    (y : Upload) × Has y v.tables.uploads
                    × (has_slug d.lib.collate slug y ≡ true)
                    × (first (filter (has_slug d.lib.collate slug) v.tables.uploads) ≡ some y))
                  later.same_slug (first-Has d.lib.collate x v.tables.uploads there e) in
              inr (y, k, s, find ∙ ap (λ o. (ok o, v)) found)
        ],
      ),
    )
