-- ===== src/Service/Rows.antt =====
-- What the table of uploads may become (src/db.rs): the rows that are there keep what names them, and
-- a deleted row stays deleted.
use filehost.Base.{
  ◌≡◌, refl, ◌∙◌, inl, inr, Bool, true, false, not, ◌&&◌, List, [], ◌∷◌, ◌++◌, ◌==◌, Bool-cases,
  arith,
}
use filehost.Db.Model.{Upload, Uuid}
use filehost.Db.Uploads.{is_active, update_where_id}

-- `v` is the row `u`, at a later time: only the hash, the score and the deletion may differ.
pub record Later (u v : Upload) : Type 0 where
  pub same_id : v.id ≡ u.id
  pub same_slug : v.slug ≡ u.slug
  pub same_name : v.original_name ≡ u.original_name
  pub same_size : v.file_size ≡ u.file_size
  pub same_uploader : v.uploader_ip ≡ u.uploader_ip
  pub same_type : v.content_type ≡ u.content_type
  pub same_expiry : v.expiry_timestamp ≡ u.expiry_timestamp
  pub stays_deleted : (not (is_active u) && is_active v) ≡ false

pub Later-refl : (u : Upload) → Later u u
Later-refl u = record {
  same_id = refl;
  same_slug = refl;
  same_name = refl;
  same_size = refl;
  same_uploader = refl;
  same_type = refl;
  same_expiry = refl;
  stays_deleted = elim (Bool-cases (is_active u)) [ inl e ↦ rw e refl | inr e ↦ rw e refl ];
}

stays_deleted_trans :
    (a b c : Bool) → (not a && b) ≡ false → (not b && c) ≡ false → (not a && c) ≡ false
stays_deleted_trans true b c h k = refl
stays_deleted_trans false true c h k = absurd (ground (arith, h))
stays_deleted_trans false false c h k = k

pub Later-trans : (u v x : Upload) → Later u v → Later v x → Later u x
Later-trans u v x h k = record {
  same_id = k.same_id ∙ h.same_id;
  same_slug = k.same_slug ∙ h.same_slug;
  same_name = k.same_name ∙ h.same_name;
  same_size = k.same_size ∙ h.same_size;
  same_uploader = k.same_uploader ∙ h.same_uploader;
  same_type = k.same_type ∙ h.same_type;
  same_expiry = k.same_expiry ∙ h.same_expiry;
  stays_deleted =
      stays_deleted_trans (is_active u) (is_active v) (is_active x) h.stays_deleted k.stays_deleted;
}

-- The same rows, each at a later time.
abbrev pub Evolves : List Upload → List Upload → Type 0
Evolves [] [] = Unit
Evolves [] (v ∷ vs) = ⊥
Evolves (u ∷ us) [] = ⊥
Evolves (u ∷ us) (v ∷ vs) = Later u v × Evolves us vs

-- The rows of the first list, each at a later time, and perhaps new ones behind them.
abbrev pub Grows : List Upload → List Upload → Type 0
Grows [] vs = Unit
Grows (u ∷ us) [] = ⊥
Grows (u ∷ us) (v ∷ vs) = Later u v × Grows us vs

pub Grows-refl : (us : List Upload) → Grows us us
Grows-refl [] = tt
Grows-refl (u ∷ us) = (Later-refl u, Grows-refl us)

pub Grows-Evolves : (us vs xs : List Upload) → Evolves vs xs → Grows us vs → Grows us xs
Grows-Evolves [] vs xs h g = tt
Grows-Evolves (u ∷ us) [] xs h g = absurd g
Grows-Evolves (u ∷ us) (v ∷ vs) [] h g = absurd h
Grows-Evolves (u ∷ us) (v ∷ vs) (x ∷ xs) (l, h) (k, g) =
    (Later-trans u v x k l, Grows-Evolves us vs xs h g)

pub Grows-append : (us vs : List Upload) (r : Upload) → Grows us vs → Grows us (vs ++ (r ∷ []))
Grows-append [] vs r g = tt
Grows-append (u ∷ us) [] r g = absurd g
Grows-append (u ∷ us) (v ∷ vs) r (k, g) = (k, Grows-append us vs r g)

-- An update of the row with an id.
pub update_where_id-Evolves :
    (id : Uuid) (f : Upload → Upload) (us : List Upload)
    → ((u : Upload) → Later u (f u))
    → Evolves us (update_where_id id f us)
unfolding update_where_id
update_where_id-Evolves id f [] later = tt
update_where_id-Evolves id f (u ∷ us) later = elim (Bool-cases (u.id == id)) [
  | inl e ↦ rw e (later u, update_where_id-Evolves id f us later)
  | inr e ↦ rw e (Later-refl u, update_where_id-Evolves id f us later)
]
