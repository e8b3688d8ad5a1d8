-- ===== src/Db/Columns.antt =====
-- What a text column of the database (src/migrations) keeps of a text that `INSERT IGNORE` cuts.
use mathlib.Core.Path.{ap}
use filehost.Base.{
  ℕ, zero, suc, ◌+◌, min, ◌≡◌, refl, inl, inr, ◌&&◌, [], ◌∷◌, ◌++◌, Bytes, leb, ltb, Bool-cases,
  if◌then◌else◌, arith,
}
use filehost.Db.Bans.{varchar}

-- The number of characters of a UTF-8 text: the bytes that do not go on with one.
abbrev pub chars : Bytes → ℕ
chars [] = 0
chars (b ∷ bs) = if leb 128 b && ltb b 192 then chars bs else 1 + chars bs

-- A text is what is kept and what is cut off, and what is kept has the characters that fit.
pub varchar_lem :
    (n : ℕ) (bs : Bytes)
    → ((cut : Bytes) × (bs ≡ varchar n bs ++ cut)) × (chars (varchar n bs) ≡ min (chars bs) n)
unfolding varchar
varchar_lem n [] = (([], refl), omega arith)
varchar_lem zero (b ∷ bs) = elim (Bool-cases (leb 128 b && ltb b 192)) [
  | inl e ↦
      let ((cut, whole), count) = varchar_lem zero bs in
      rw e ((cut, ap (λ (t : Bytes). b ∷ t) whole), rw e (omega (arith, count)))
  | inr e ↦ rw e ((b ∷ bs, refl), omega arith)
]
varchar_lem (suc n) (b ∷ bs) = elim (Bool-cases (leb 128 b && ltb b 192)) [
  | inl e ↦
      let ((cut, whole), count) = varchar_lem (suc n) bs in
      rw e ((cut, ap (λ (t : Bytes). b ∷ t) whole), rw e (omega (arith, count)))
  | inr e ↦
      let ((cut, whole), count) = varchar_lem n bs in
      rw e ((cut, ap (λ (t : Bytes). b ∷ t) whole), rw e (omega (arith, count)))
]
