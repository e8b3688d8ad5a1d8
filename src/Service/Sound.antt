-- ===== src/Service/Sound.antt =====
-- Tables of uploads in which an id names one row, and a slug at most one active row.
use mathlib.Core.Path.{ap}
use filehost.Base.{
  ◌≡◌, refl, sym, ◌∙◌, inl, inr, Bool, true, false, not, ◌&&◌, List, [], ◌∷◌, ◌++◌, All, filter,
  Bytes, bytes_eq, bytes_eq_refl, bytes_eq_sound, ◌==◌, ==_iff, Bool-cases, arith,
}
use filehost.Db.Model.{Upload, Uuid}
use filehost.Db.Uploads.{is_active, has_slug, first, is_some}
use filehost.Db.Deleted.{IsKeyed}
use filehost.Service.Rows.{Later, Evolves}

-- No row has the id.
abbrev pub Fresh : Uuid → List Upload → Type 0
Fresh id us = All (λ v. (v.id == id) ≡ false) us

pub Fresh-Evolves : (id : Uuid) (us vs : List Upload) → Evolves us vs → Fresh id us → Fresh id vs
Fresh-Evolves id [] [] e h = tt
Fresh-Evolves id [] (v ∷ vs) e h = absurd e
Fresh-Evolves id (u ∷ us) [] e h = absurd e
Fresh-Evolves id (u ∷ us) (v ∷ vs) (l, e) (here, h) =
    (ap (λ i. i == id) l.same_id ∙ here, Fresh-Evolves id us vs e h)

pub IsKeyed-Evolves : (us vs : List Upload) → Evolves us vs → IsKeyed us → IsKeyed vs
IsKeyed-Evolves [] [] e h = tt
IsKeyed-Evolves [] (v ∷ vs) e h = absurd e
IsKeyed-Evolves (u ∷ us) [] e h = absurd e
IsKeyed-Evolves (u ∷ us) (v ∷ vs) (l, e) (here, h) =
    (rw l.same_id (Fresh-Evolves u.id us vs e here), IsKeyed-Evolves us vs e h)

flip_id : (i j : Uuid) → (i == j) ≡ false → (j == i) ≡ false
flip_id i j h = ground (arith, h, ==_iff i j, ==_iff j i)

pub Fresh-append :
    (id : Uuid) (us : List Upload) (r : Upload)
    → Fresh id us
    → (r.id == id) ≡ false
    → Fresh id (us ++ (r ∷ []))
Fresh-append id [] r h e = (e, tt)
Fresh-append id (u ∷ us) r (here, h) e = (here, Fresh-append id us r h e)

pub IsKeyed-append :
    (us : List Upload) (r : Upload) → Fresh r.id us → IsKeyed us → IsKeyed (us ++ (r ∷ []))
IsKeyed-append [] r f h = (tt, tt)
IsKeyed-append (u ∷ us) r (new, f) (here, h) =
    (Fresh-append u.id us r here (flip_id u.id r.id new), IsKeyed-append us r f h)

module _ (collate : Bytes → Bytes) where
  -- Two active rows with one slug.
  abbrev pub clash : Upload → Upload → Bool
  clash u v = is_active u && has_slug collate u.slug v

  -- No slug has two active rows.
  abbrev pub IsUnambiguous : List Upload → Type 0
  IsUnambiguous [] = Unit
  IsUnambiguous (u ∷ us) = All (λ v. clash u v ≡ false) us × IsUnambiguous us

  abbrev pub IsSound : List Upload → Type 0
  IsSound us = IsKeyed us × IsUnambiguous us

  less_active :
      (a b c d e : Bool)
      → (not a && b) ≡ false
      → (not c && d) ≡ false
      → (a && (e && c)) ≡ false
      → (b && (e && d)) ≡ false
  less_active true true true true e h k n = n
  less_active a true c false true h k n = refl
  less_active a true c false false h k n = refl
  less_active a false c d e h k n = refl
  less_active false true c true e h k n = absurd (ground (arith, h))
  less_active true true false true e h k n = absurd (ground (arith, k))

  clash-Later :
      (u v u' v' : Upload) → Later u u' → Later v v' → clash u v ≡ false → clash u' v' ≡ false
  clash-Later u v u' v' l k h =
      less_active (is_active u) (is_active u') (is_active v) (is_active v')
        (bytes_eq (collate v'.slug) (collate u'.slug)) l.stays_deleted k.stays_deleted
        (rw (l.same_slug, k.same_slug) h)

  clash-Evolves :
      (u v : Upload) (us vs : List Upload)
      → Later u v
      → Evolves us vs
      → All (λ x. clash u x ≡ false) us
      → All (λ x. clash v x ≡ false) vs
  clash-Evolves u v [] [] l e h = tt
  clash-Evolves u v [] (y ∷ ys) l e h = absurd e
  clash-Evolves u v (x ∷ xs) [] l e h = absurd e
  clash-Evolves u v (x ∷ xs) (y ∷ ys) l (k, e) (here, h) =
      (clash-Later u x v y l k here, clash-Evolves u v xs ys l e h)

  IsUnambiguous-Evolves :
      (us vs : List Upload) → Evolves us vs → IsUnambiguous us → IsUnambiguous vs
  IsUnambiguous-Evolves [] [] e h = tt
  IsUnambiguous-Evolves [] (v ∷ vs) e h = absurd e
  IsUnambiguous-Evolves (u ∷ us) [] e h = absurd e
  IsUnambiguous-Evolves (u ∷ us) (v ∷ vs) (l, e) (here, h) =
      (clash-Evolves u v us vs l e here, IsUnambiguous-Evolves us vs e h)

  pub IsSound-Evolves : (us vs : List Upload) → Evolves us vs → IsSound us → IsSound vs
  IsSound-Evolves us vs e (keyed, one) =
      (IsKeyed-Evolves us vs e keyed, IsUnambiguous-Evolves us vs e one)

  -- No active row has the slug.
  abbrev pub IsFree : Bytes → List Upload → Type 0
  IsFree slug us = is_some (first (filter (has_slug collate slug) us)) ≡ false

  clash-append :
      (u r : Upload) (us : List Upload)
      → All (λ v. clash u v ≡ false) us
      → clash u r ≡ false
      → All (λ v. clash u v ≡ false) (us ++ (r ∷ []))
  clash-append u r [] h e = (e, tt)
  clash-append u r (v ∷ us) (here, h) e = (here, clash-append u r us h e)

  free_head :
      (slug : Bytes) (u : Upload) (us : List Upload)
      → IsFree slug (u ∷ us)
      → has_slug collate slug u ≡ false
  free_head slug u us f = elim (Bool-cases (has_slug collate slug u)) [
    | inl e ↦ absurd (ground (arith, f, e))
    | inr e ↦ e
  ]

  IsFree-tail :
      (slug : Bytes) (u : Upload) (us : List Upload) → IsFree slug (u ∷ us) → IsFree slug us
  IsFree-tail slug u us f = ground (arith, f, free_head slug u us f)

  -- `a` and `c` say that two rows are active, `b` and `d` that their slugs are the same, either way.
  flip_clash : (a b c d : Bool) → (b ≡ true → d ≡ true) → (d && a) ≡ false → (a && (b && c)) ≡ false
  flip_clash false b c d s h = refl
  flip_clash true false c d s h = refl
  flip_clash true true c d s h = absurd (ground (arith, s refl, h))

  bytes_eq_flip : (xs ys : Bytes) → bytes_eq xs ys ≡ true → bytes_eq ys xs ≡ true
  bytes_eq_flip xs ys e =
      ap (λ zs. bytes_eq zs xs) (sym (bytes_eq_sound xs ys e)) ∙ bytes_eq_refl xs

  free-clash : (u r : Upload) → has_slug collate r.slug u ≡ false → clash u r ≡ false
  free-clash u r h =
      flip_clash (is_active u) (bytes_eq (collate r.slug) (collate u.slug)) (is_active r)
        (bytes_eq (collate u.slug) (collate r.slug))
        (bytes_eq_flip (collate r.slug) (collate u.slug)) h

  IsUnambiguous-append :
      (us : List Upload) (r : Upload)
      → IsFree r.slug us
      → IsUnambiguous us
      → IsUnambiguous (us ++ (r ∷ []))
  IsUnambiguous-append [] r f h = (tt, tt)
  IsUnambiguous-append (u ∷ us) r f (here, h) = (
    clash-append u r us here (free-clash u r (free_head r.slug u us f)),
    IsUnambiguous-append us r (IsFree-tail r.slug u us f) h,
  )

  pub IsSound-append :
      (us : List Upload) (r : Upload)
      → Fresh r.id us
      → IsFree r.slug us
      → IsSound us
      → IsSound (us ++ (r ∷ []))
  IsSound-append us r new free (keyed, one) =
      (IsKeyed-append us r new keyed, IsUnambiguous-append us r free one)

  -- The same the other way round, where the second row is active.
  unclash :
      (a b c d : Bool)
      → (d ≡ true → b ≡ true)
      → c ≡ true
      → (a && (b && c)) ≡ false
      → (d && a) ≡ false
  unclash a b c false s e h = refl
  unclash false b c true s e h = refl
  unclash true b c true s e h = absurd (ground (arith, s refl, e, h))

  -- A row that does not clash with an active one has another slug, or is deleted.
  pub has_slug_flip :
      (u v : Upload) → is_active u ≡ true → clash v u ≡ false → has_slug collate u.slug v ≡ false
  has_slug_flip u v a h =
      unclash (is_active v) (bytes_eq (collate u.slug) (collate v.slug)) (is_active u)
        (bytes_eq (collate v.slug) (collate u.slug))
        (bytes_eq_flip (collate v.slug) (collate u.slug)) a h
