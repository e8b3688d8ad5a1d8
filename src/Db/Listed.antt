-- ===== src/Db/Listed.antt =====
-- The order and the pages of the listing of uploads (src/db.rs).
use Prim.Native.Nat.add
use mathlib.Core.Path.{subst}
use mathlib.Core.List.{Perm}
use mathlib.Core.List.Perm
use filehost.Base.{
  ℕ, ◌≤◌, ◌≡◌, refl, inl, inr, true, false, List, [], ◌∷◌, All, filter, Bytes, ltb, if◌then◌else◌,
  ltb→lt, Bool-cases, arith,
}
use filehost.Db.Model.{Upload}
use filehost.Db.World.{World}
use filehost.Db.Listing.{ListUploads, is_listed}

-- No row before a newer one.
abbrev pub IsNewestFirst : List Upload → Type 0
IsNewestFirst [] = Unit
IsNewestFirst (u ∷ us) =
    All (λ (v : Upload). v.upload_timestamp ≤ u.upload_timestamp) us × IsNewestFirst us

-- An order that a database may give the rows.
put_newest : Upload → List Upload → List Upload
put_newest u [] = u ∷ []
put_newest u (v ∷ vs) =
    if ltb u.upload_timestamp v.upload_timestamp then v ∷ put_newest u vs else u ∷ v ∷ vs

pub newest_first : List Upload → List Upload
newest_first [] = []
newest_first (u ∷ us) = put_newest u (newest_first us)

put_newest-perm : (u : Upload) (us : List Upload) → Perm (put_newest u us) (u ∷ us)
unfolding put_newest
put_newest-perm u [] = Perm.refl (u ∷ [])
put_newest-perm u (v ∷ vs) = elim (Bool-cases (ltb u.upload_timestamp v.upload_timestamp)) [
  | inl e ↦ rw e (Perm.trans (Perm.cons v (put_newest-perm u vs)) (Perm.swap u v vs))
  | inr e ↦ rw e (Perm.refl (u ∷ v ∷ vs))
]

newest_first-perm : (us : List Upload) → Perm (newest_first us) us
unfolding newest_first
newest_first-perm [] = Perm.refl []
newest_first-perm (u ∷ us) =
    Perm.trans (put_newest-perm u (newest_first us)) (Perm.cons u (newest_first-perm us))

abbrev Below : ℕ → List Upload → Type 0
Below t = All (λ (v : Upload). v.upload_timestamp ≤ t)

put_newest-after :
    (u v : Upload) (vs : List Upload)
    → ltb u.upload_timestamp v.upload_timestamp ≡ true
    → v ∷ put_newest u vs ≡ put_newest u (v ∷ vs)
unfolding put_newest
put_newest-after u v vs e = rw e

put_newest-before :
    (u v : Upload) (vs : List Upload)
    → ltb u.upload_timestamp v.upload_timestamp ≡ false
    → u ∷ v ∷ vs ≡ put_newest u (v ∷ vs)
unfolding put_newest
put_newest-before u v vs e = rw e

Below-put :
    (t : ℕ) (u : Upload) (us : List Upload)
    → u.upload_timestamp ≤ t
    → Below t us
    → Below t (put_newest u us)
unfolding put_newest
Below-put t u [] h hs = (h, tt)
Below-put t u (v ∷ vs) h (hv, hs) = elim (Bool-cases (ltb u.upload_timestamp v.upload_timestamp)) [
  | inl e ↦ subst (Below t) (put_newest-after u v vs e) (hv, Below-put t u vs h hs)
  | inr e ↦ subst (Below t) (put_newest-before u v vs e) (h, (hv, hs))
]

Below-weaken : (s t : ℕ) (us : List Upload) → s ≤ t → Below s us → Below t us
Below-weaken s t [] h b = tt
Below-weaken s t (u ∷ us) h (b, bs) = (omega arith, Below-weaken s t us h bs)

put_newest-IsNewestFirst :
    (u : Upload) (us : List Upload) → IsNewestFirst us → IsNewestFirst (put_newest u us)
unfolding put_newest
put_newest-IsNewestFirst u [] h = (tt, tt)
put_newest-IsNewestFirst u (v ∷ vs) (hv, h) =
    elim (Bool-cases (ltb u.upload_timestamp v.upload_timestamp)) [
      | inl e ↦ subst IsNewestFirst (put_newest-after u v vs e) (
        Below-put v.upload_timestamp u vs
            (omega (arith, ltb→lt u.upload_timestamp v.upload_timestamp e)) hv,
        put_newest-IsNewestFirst u vs h,
      )
      | inr e ↦
          let newer : v.upload_timestamp ≤ u.upload_timestamp = ground (arith, e) in
          subst IsNewestFirst (put_newest-before u v vs e)
            ((newer, Below-weaken v.upload_timestamp u.upload_timestamp vs newer hv), (hv, h))
    ]

newest_first-IsNewestFirst : (us : List Upload) → IsNewestFirst (newest_first us)
unfolding newest_first
newest_first-IsNewestFirst [] = tt
newest_first-IsNewestFirst (u ∷ us) =
    put_newest-IsNewestFirst u (newest_first us) (newest_first-IsNewestFirst us)

-- What the documentation of `ORDER BY … DESC` says of the rows that a statement sorts.
pub record IsOrder (order : ListUploads → List Upload → List Upload) : Type 0 where
  pub same_rows : (q : ListUploads) (us : List Upload) → Perm (order q us) us
  pub sorted : (q : ListUploads) (us : List Upload) → IsNewestFirst (order q us)

pub newest_first-IsOrder : IsOrder (λ q us. newest_first us)
newest_first-IsOrder = record {
  same_rows = λ q us. newest_first-perm us;
  sorted = λ q us. newest_first-IsNewestFirst us;
}

module _ (collate : Bytes → Bytes) (order : ListUploads → List Upload → List Upload) where
  -- The rows that a query is about, in the order that the database gives them.
  abbrev pub ordered : ListUploads → World → List Upload
  ordered q w = order q (filter (is_listed collate q) w.tables.uploads)
