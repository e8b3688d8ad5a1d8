-- ===== src/Service/Found.antt =====
-- What `find_active_upload_by_hash` (src/db.rs) finds for an upload (src/handlers.rs).
use mathlib.Core.Path.{ap, subst}
use filehost.Base.{
  ◌≡◌, refl, ◌∙◌, inl, inr, Bool, true, false, ◌&&◌, Option, none, some, List, [], ◌∷◌, filter,
  Bytes, Bool-cases, Option-cases, arith, if◌then◌else◌, ltb,
}
use filehost.Base.Results.{Result, ok, err}
use filehost.Db.Model.{Upload, Uuid}
use filehost.Db.World.{World}
use filehost.Db.Uploads.{is_active, has_hash, newest, find_active_upload_by_hash}
use filehost.Handlers.Reply.{Settings}
use filehost.Handlers.Process.{Libraries, Stop, query, answer, existing}
use filehost.Service.Named.{Has}

module _ (lib : Libraries) (settings : Settings) where
  newest-Has : (us : List Upload) (v : Upload) → newest us ≡ some v → Has v us
  unfolding newest
  newest-Has [] v h = absurd (ground (arith, h))
  newest-Has (u ∷ us) v h = elim (Option-cases (newest us)) [
    | inl e ↦ inl (ground (arith, h, e))
    | inr (x, e) ↦ elim (Bool-cases (ltb u.upload_timestamp x.upload_timestamp)) [
      | inl f ↦ inr (newest-Has us v (e ∙ ground (arith, h, e, f)))
      | inr f ↦ inl (ground (arith, h, e, f))
    ]
  ]

  both : (a b : Bool) → (a && b) ≡ true → (a ≡ true) × (b ≡ true)
  both true b h = (refl, h)
  both false b h = absurd (ground (arith, h))

  abbrev Sifted : (Upload → Bool) → Upload → Upload → List Upload → Bool → Type 0
  Sifted q v u us b =
      let rest = filter (λ u. q u && is_active u) us in Has v (if b then u ∷ rest else rest)

  -- What a filter keeps.
  filter-Has :
      (q : Upload → Bool) (v : Upload) (us : List Upload)
      → Has v (filter (λ u. q u && is_active u) us)
      → Has v us × (q v ≡ true) × (is_active v ≡ true)
  filter-Has q v [] h = absurd h
  filter-Has q v (u ∷ us) h = elim (Bool-cases (q u && is_active u)) [
    | inr e ↦ let (k, x, a) = filter-Has q v us (subst (Sifted q v u us) e h) in (inr k, x, a)
    | inl e ↦ elim (subst (Sifted q v u us) e h) [
      | inl same ↦
          let (x, y) = both (q u) (is_active u) e in
          (inl same, ap q same ∙ x, ap is_active same ∙ y)
      | inr k ↦ let (there, x, a) = filter-Has q v us k in (inr there, x, a)
    ]
  ]

  -- The upload with the same content, if one was found.
  abbrev pub IsExisting : Bytes → Result Stop (Option (Uuid × Bytes)) → List Upload → Type 0
  IsExisting hash (ok (some (id, slug))) us =
      (u : Upload) × Has u us × (is_active u ≡ true) × (has_hash hash u ≡ true) × (u.slug ≡ slug)
  IsExisting hash (ok none) us = Unit
  IsExisting hash (err e) us = Unit

  newest-IsExisting :
      (hash : Bytes) (us : List Upload) (o : Option Upload)
      → newest (filter (λ u. has_hash hash u && is_active u) us) ≡ o
      → IsExisting hash (ok (elim o [ none ↦ none | some u ↦ some (u.id, u.slug) ])) us
  newest-IsExisting hash us none h = tt
  newest-IsExisting hash us (some u) h =
      let (there, same, a) = filter-Has (has_hash hash) u us (newest-Has _ u h) in
      (u, there, a, same, refl)

  found-at :
      (hash : Bytes) (os : List Bool) (w : World)
      → IsExisting hash
          (answer lib settings ((find_active_upload_by_hash hash (record w { outages = os })).0))
          ((find_active_upload_by_hash hash (record w { outages = os })).1).tables.uploads
  unfolding find_active_upload_by_hash
  found-at hash [] w = newest-IsExisting hash w.tables.uploads _ refl
  found-at hash (true ∷ os) w = tt
  found-at hash (false ∷ os) w = newest-IsExisting hash w.tables.uploads _ refl

  find_if-IsExisting :
      (hash : Bytes) (b : Bool) (w : World)
      → let (r, w') = if b then (find_active_upload_by_hash hash w) else (ok none, w) in
        IsExisting hash (answer lib settings r) w'.tables.uploads
  find_if-IsExisting hash true w = found-at hash w.outages w
  find_if-IsExisting hash false w = tt

  existing-IsExisting :
      (hash : Bytes) (w : World)
      → let (r, w') = query lib settings (existing lib settings hash) w in
        IsExisting hash r w'.tables.uploads
  unfolding existing
  existing-IsExisting hash w = find_if-IsExisting hash settings.dedup w

  pub looked-at :
      (hash : Bytes) (r : Result Stop (Unit {0})) (w : World)
      → let (q, w') = elim r as (λ r. Result Stop (Option (Uuid × Bytes)) × World) [
        | ok u ↦ query lib settings (existing lib settings hash) w
        | err e ↦ (err e, w)
      ] in
        IsExisting hash q w'.tables.uploads
  looked-at hash (ok u) w = existing-IsExisting hash w
  looked-at hash (err e) w = tt
