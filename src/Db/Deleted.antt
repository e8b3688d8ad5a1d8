-- ===== src/Db/Deleted.antt =====
-- What the soft deletes do to the table of uploads, where every query is answered.
use mathlib.Core.Path.{ap}
use filehost.Base.{
  ℕ, suc, ◌≡◌, refl, sym, ◌∙◌, inl, inr, Bool, true, false, ◌&&◌, none, some, List, [], ◌∷◌, All,
  any, map, length, filter, ◌==◌, ==_iff, Bool-cases, if◌then◌else◌, arith,
}
use filehost.Base.Results.{ok, >>=-ok, pure, ◌>>◌}
use filehost.Db.Model.{Upload, Uuid}
use filehost.Db.World.{World, select}
use filehost.Db.Answered.{select-answered}
use filehost.Db.Uploads.{update_where_id}
use filehost.Db.Deletes.{mark, matches, ids, delete_one, delete_each, delete_matching, remove_file}

-- The primary key: no two rows have one id.
abbrev pub IsKeyed : List Upload → Type 0
IsKeyed [] = Unit
IsKeyed (u ∷ us) = All (λ v. (v.id == u.id) ≡ false) us × IsKeyed us

abbrev is_in : List Uuid → Upload → Bool
is_in rows u = any (λ i. i == u.id) rows

abbrev mark_in : ℕ → List Uuid → List Upload → List Upload
mark_in now rows us = map (λ u. if is_in rows u then mark now u else u) us

mark_in_nil : (now : ℕ) (us : List Upload) → mark_in now [] us ≡ us
mark_in_nil now [] = refl
mark_in_nil now (u ∷ us) = ap (λ vs. u ∷ vs) (mark_in_nil now us)

mark_in_step :
    (now : ℕ) (id : Uuid) (rows : List Uuid) (us : List Upload)
    → mark_in now rows (update_where_id id (mark now) us) ≡ mark_in now (id ∷ rows) us
unfolding update_where_id
mark_in_step now id rows [] = refl
mark_in_step now id rows (u ∷ us) = elim (Bool-cases (u.id == id)) [
  | inl e ↦ elim (Bool-cases (is_in rows u)) [
    | inl f ↦ ground (arith, e, f, mark_in_step now id rows us, ==_iff u.id id)
    | inr f ↦ ground (arith, e, f, mark_in_step now id rows us, ==_iff u.id id)
  ]
  | inr e ↦ ground (arith, e, mark_in_step now id rows us)
]

-- The rows that meet `q`, by their ids, are those of a keyed table that meet it.
is_in-none :
    (q : Upload → Bool) (v : Upload) (us : List Upload)
    → All (λ u. (u.id == v.id) ≡ false) us
    → is_in (ids (filter q us)) v ≡ false
is_in-none q v [] fresh = refl
is_in-none q v (u ∷ us) (here, fresh) = elim (Bool-cases (q u)) [
  | inl e ↦ ground (arith, e, here, is_in-none q v us fresh)
  | inr e ↦ ground (arith, e, here, is_in-none q v us fresh)
]

is_in-skip :
    (q : Upload → Bool) (rows : List Uuid) (now : ℕ) (v : Upload) (us : List Upload)
    → All (λ u. (u.id == v.id) ≡ false) us
    → mark_in now (v.id ∷ rows) us ≡ mark_in now rows us
is_in-skip q rows now v [] fresh = refl
is_in-skip q rows now v (u ∷ us) (here, fresh) =
    ground (arith, here, ==_iff u.id v.id, ==_iff v.id u.id, is_in-skip q rows now v us fresh)

mark_in-filter :
    (q : Upload → Bool) (now : ℕ) (us : List Upload)
    → IsKeyed us
    → mark_in now (ids (filter q us)) us ≡ map (λ u. if q u then mark now u else u) us
mark_in-filter q now [] keyed = refl
mark_in-filter q now (u ∷ us) (fresh, keyed) = elim (Bool-cases (q u)) [
  | inl e ↦ ground (
    arith,
    e,
    ==_iff u.id u.id,
    is_in-skip q (ids (filter q us)) now u us fresh,
    mark_in-filter q now us keyed,
  )
  | inr e ↦ ground (arith, e, is_in-none q u us fresh, mark_in-filter q now us keyed)
]

-- The uploads of a state.
abbrev pub uploads_of : World → List Upload
uploads_of w = w.tables.uploads

abbrev pub after : Uuid → World → World
after id w = record (remove_file id w) {
  tables = record w.tables { uploads = update_where_id id (mark w.now) (uploads_of w) };
}

delete_one-run : (id : Uuid) (w : World) → w.outages ≡ [] → delete_one id w ≡ (ok tt, after id w)
unfolding delete_one remove_file
delete_one-run id w up = ground (arith, up)

delete_each-step :
    (id : Uuid) (rows : List Uuid) (w : World)
    → w.outages ≡ []
    → delete_each (id ∷ rows) w ≡ delete_each rows (after id w)
unfolding delete_each
delete_each-step id rows w up =
    >>=-ok (delete_one id) (λ u. delete_each rows) w tt (after id w) (delete_one-run id w up)

delete_each-nil : (w : World) → delete_each [] w ≡ (ok tt, w)
unfolding delete_each
delete_each-nil w = refl

after-outages : (id : Uuid) (w : World) → (after id w).outages ≡ w.outages
unfolding remove_file
after-outages id w = refl

after-now : (id : Uuid) (w : World) → (after id w).now ≡ w.now
unfolding remove_file
after-now id w = refl

delete_each-run :
    (rows : List Uuid) (w : World)
    → w.outages ≡ []
    → ((delete_each rows w).0 ≡ ok tt)
      × (uploads_of (delete_each rows w).1 ≡ mark_in w.now rows (uploads_of w))
delete_each-run [] w up = (
  ap (λ p. p.0) (delete_each-nil w),
  ap (λ p. uploads_of p.1) (delete_each-nil w) ∙ sym (mark_in_nil w.now (uploads_of w)),
)
delete_each-run (id ∷ rows) w up =
    let step = delete_each-step id rows w up in
    let (done, table) = delete_each-run rows (after id w) (after-outages id w ∙ up) in
    (
      ap (λ p. p.0) step ∙ done,
      ap (λ p. uploads_of p.1) step
          ∙ table
          ∙ ap (λ n. mark_in n rows (uploads_of (after id w))) (after-now id w)
          ∙ mark_in_step w.now id rows (uploads_of w),
    )

-- A delete changes only the uploads and the files.
delete_each-keeps :
    {A : Type 0} (f : World → A)
    → ((id : Uuid) (w : World) → f (after id w) ≡ f w)
    → (rows : List Uuid) (w : World) → w.outages ≡ []
    → f (delete_each rows w).1 ≡ f w
delete_each-keeps f same [] w up = ap (λ p. f p.1) (delete_each-nil w)
delete_each-keeps f same (id ∷ rows) w up =
    ap (λ p. f p.1) (delete_each-step id rows w up)
    ∙ delete_each-keeps f same rows (after id w) (after-outages id w ∙ up)
    ∙ same id w

length-ids : (us : List Upload) → length (ids us) ≡ length us
length-ids [] = refl
length-ids (u ∷ us) = ap suc (length-ids us)

abbrev selected : (ℕ → Upload → Bool) → World → List Uuid
selected clause w = ids (filter (matches clause w.now) w.tables.uploads)

delete_matching-run :
    (clause : ℕ → Upload → Bool) (w : World)
    → w.outages ≡ []
    → delete_matching clause w
      ≡ (ok (length (selected clause w)), (delete_each (selected clause w) w).1)
unfolding delete_matching
delete_matching-run clause w up =
    let rows = selected clause w in
    let run : delete_each rows w ≡ (ok tt, (delete_each rows w).1) =
      ap (λ r. (r, (delete_each rows w).1)) (delete_each-run rows w up).0 in
    >>=-ok (select (λ now t. ids (filter (matches clause now) t.uploads)))
      (λ rows'. delete_each rows' >> pure (length rows')) w rows w
      (select-answered (λ now t. ids (filter (matches clause now) t.uploads)) w up)
    ∙ >>=-ok (delete_each rows) (λ u. pure (length rows)) w tt (delete_each rows w).1 run

pub delete_matching-keeps :
    {A : Type 0} (f : World → A)
    → ((id : Uuid) (w : World) → f (after id w) ≡ f w)
    → (clause : ℕ → Upload → Bool) (w : World) → w.outages ≡ []
    → f (delete_matching clause w).1 ≡ f w
delete_matching-keeps f same clause w up =
    ap (λ p. f p.1) (delete_matching-run clause w up)
    ∙ delete_each-keeps f same (selected clause w) w up

-- The rows without a deletion time that meet a clause.
abbrev pub is_target : (Upload → Bool) → Upload → Bool
is_target clause u = clause u && (elim u.deleted_timestamp [ none ↦ true | some t ↦ false ])

-- A table with the present time as the deletion time of the rows to delete.
abbrev pub all_deleted : (Upload → Bool) → ℕ → List Upload → List Upload
all_deleted clause now =
    map (λ u. if is_target clause u then (record u { deleted_timestamp = some now }) else u)

-- Where every query is answered and no two rows have one id, a delete by a clause answers the number of
-- rows without a deletion time that meet it, and in the table exactly those get the present time as
-- their deletion time, with every other field and every other row as it was.
pub delete_matching_lem :
    (clause : ℕ → Upload → Bool) (w : World)
    → w.outages ≡ []
    → IsKeyed w.tables.uploads
    → ((delete_matching clause w).0
        ≡ ok (length (filter (is_target (clause w.now)) w.tables.uploads)))
      × ((delete_matching clause w).1.tables.uploads
          ≡ all_deleted (clause w.now) w.now w.tables.uploads)
delete_matching_lem clause w up keyed =
    let q = matches clause w.now in
    let table = (delete_each-run (selected clause w) w up).1 in
    (
      ap (λ p. p.0) (delete_matching-run clause w up)
          ∙ ap ok (length-ids (filter q w.tables.uploads)),
      ap (λ p. uploads_of p.1) (delete_matching-run clause w up)
          ∙ table
          ∙ mark_in-filter q w.now w.tables.uploads keyed,
    )
