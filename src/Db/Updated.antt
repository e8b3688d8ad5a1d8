-- ===== src/Db/Updated.antt =====
-- Updates of uploads one id after the other, as the maintenance runs of src/dedup.rs and src/nsfw.rs
-- make them, in a table with a primary key.
use mathlib.Core.Path.{ap, ap₂, fun_ext}
use filehost.Base.{
  ℕ, ◌≤◌, length, Option, none, some, ◌≡◌, refl, ◌∙◌, inl, inr, Bool, true, false, List, [], ◌∷◌,
  All, map, filter, ◌==◌, ==_iff, Bool-cases, if◌then◌else◌, arith,
}
use filehost.Db.Model.{Upload, Uuid}
use filehost.Db.World.{World}
use filehost.Db.Uploads.{update_where_id, is_some}
use filehost.Db.Deletes.{ids}
use filehost.Db.Deleted.{IsKeyed}

-- `g i` is what the run does to the row with the id `i`; it leaves the id.
module _ (g : Uuid → Upload → Upload) (keeps : (i : Uuid) (u : Upload) → (g i u).id ≡ u.id) where
  unfoldable pub updates : List Uuid → List Upload → List Upload
  updates [] us = us
  updates (i ∷ is) us = updates is (update_where_id i (g i) us)

  updates-nil : (is : List Uuid) → updates is [] ≡ []
  unfolding updates update_where_id
  updates-nil [] = refl
  updates-nil (i ∷ is) = updates-nil is

  updates-skip :
      (is : List Uuid) (u : Upload) (us : List Upload)
      → All (λ i. (u.id == i) ≡ false) is
      → updates is (u ∷ us) ≡ u ∷ updates is us
  unfolding updates update_where_id
  updates-skip [] u us h = refl
  updates-skip (i ∷ is) u us (here, h) = rw here (updates-skip is u (update_where_id i (g i) us) h)

  fresh-ids :
      (q : Upload → Bool) (id : Uuid) (us : List Upload)
      → All (λ v. (v.id == id) ≡ false) us
      → All (λ i. (id == i) ≡ false) (ids (filter q us))
  fresh-ids q id [] h = tt
  fresh-ids q id (u ∷ us) (here, h) = elim (Bool-cases (q u)) [
    | inl e ↦ rw e (ground (arith, here), fresh-ids q id us h)
    | inr e ↦ rw e (fresh-ids q id us h)
  ]

  update-fresh :
      (id : Uuid) (f : Upload → Upload) (us : List Upload)
      → All (λ v. (v.id == id) ≡ false) us
      → update_where_id id f us ≡ us
  unfolding update_where_id
  update-fresh id f [] h = refl
  update-fresh id f (u ∷ us) (here, h) = rw here (ap (λ vs. u ∷ vs) (update-fresh id f us h))

  updates-here :
      (is : List Uuid) (u : Upload) (us : List Upload)
      → All (λ v. (v.id == u.id) ≡ false) us
      → updates (u.id ∷ is) (u ∷ us) ≡ updates is (g u.id u ∷ us)
  unfolding updates update_where_id
  updates-here is u us fresh =
      let this : (u.id == u.id) ≡ true = (==_iff u.id u.id).1 refl in
      ap₂ (λ b vs. updates is ((if b then g u.id u else u) ∷ vs)) this
        (update-fresh u.id (g u.id) us fresh)

  -- The rows that meet `q` are changed, once each, and no others.
  pub updates-filter :
      (q : Upload → Bool) (us : List Upload)
      → IsKeyed us
      → updates (ids (filter q us)) us ≡ map (λ u. if q u then g u.id u else u) us
  unfolding updates
  updates-filter q [] keyed = refl
  updates-filter q (u ∷ us) (fresh, keyed) = elim (Bool-cases (q u)) [
    | inl e ↦
        let others = updates-filter q us keyed in
        let unmet : All (λ i. ((g u.id u).id == i) ≡ false) (ids (filter q us)) =
          rw (keeps u.id u) (fresh-ids q u.id us fresh) in
        rw e (
          updates-here (ids (filter q us)) u us fresh
          ∙ updates-skip (ids (filter q us)) (g u.id u) us unmet
          ∙ ap (λ vs. g u.id u ∷ vs) others)
    | inr e ↦ rw e (
        updates-skip (ids (filter q us)) u us (fresh-ids q u.id us fresh)
        ∙ ap (λ vs. u ∷ vs) (updates-filter q us keyed))
  ]

-- An update that changes nothing.
update_same : (id : Uuid) (us : List Upload) → update_where_id id (λ u. u) us ≡ us
unfolding update_where_id
update_same id [] = refl
update_same id (u ∷ us) = ground (arith, update_same id us)

abbrev pub with_uploads : List Upload → World → World
with_uploads us w = record w { tables = record w.tables { uploads = us } }

-- A row that is set to a value that its id may have.
module _ {A : Type 0} (value : Uuid → Option A) (set : A → Upload → Upload) where
  abbrev pub set_row : Uuid → Upload → Upload
  set_row id u = elim (value id) [ none ↦ u | some a ↦ set a u ]

  -- How many of the rows get a value.
  abbrev pub set_count : List Upload → ℕ
  set_count us = length (filter (λ u. is_some (value u.id)) us)

  pub set_count-le : (us : List Upload) → set_count us ≤ length us
  set_count-le [] = omega arith
  set_count-le (u ∷ us) = ground (arith, set_count-le us)

  pub update_row-none :
      (i : Uuid) (us : List Upload) → value i ≡ none → update_where_id i (set_row i) us ≡ us
  update_row-none i us e =
      let same : set_row i ≡ (λ u. u) = fun_ext (λ u. ground (arith, e)) in
      ap (λ f. update_where_id i f us) same ∙ update_same i us

  pub update_row-some :
      (i : Uuid) (a : A) (us : List Upload)
      → value i ≡ some a
      → update_where_id i (set a) us ≡ update_where_id i (set_row i) us
  update_row-some i a us e =
      let same : set a ≡ set_row i = fun_ext (λ u. ground (arith, e)) in
      ap (λ f. update_where_id i f us) same
