-- ===== src/Service/Leads.antt =====
-- Runs that lead from one property of the table of uploads to another one.
use mathlib.Core.Path.{subst}
use filehost.Base.{◌≡◌, refl, sym, List}
use filehost.Base.Results.{Result, ok, err, Step, ◌>>=◌}
use filehost.Db.Model.{Upload}
use filehost.Db.World.{World}
use filehost.Service.Kept.{Kept}

-- A run that starts with `P` of the table and ends with `Q` of it.
pub record Leads (P Q : List Upload → Type 0) {X : Type 0} (m : World → X × World) : Type 0 where
  pub after : (w : World) → P w.tables.uploads → Q ((m w).1).tables.uploads

module _ (P Q : List Upload → Type 0) (weaker : (us : List Upload) → P us → Q us) where
  pub Leads-Kept : {X : Type 0} {m : World → X × World} → Kept P m → Leads P Q m
  Leads-Kept k = record { after = λ w h. weaker _ (k.after w h) }

  pub Leads-case :
      {E A B : Type 0} (r : Result E A) (f : A → Step World E B)
      → ((a : A) → Leads P Q (f a))
      → Leads P Q {X = Result E B} (λ w. elim r [ ok a ↦ f a w | err e ↦ (err e, w) ])
  Leads-case (ok a) f l = l a
  Leads-case (err e) f l = record { after = λ w. weaker w.tables.uploads }

  pub Leads->>= :
      {E A B : Type 0} (m : Step World E A) (f : A → Step World E B)
      → Kept P m
      → ((a : A) → Leads P Q (f a))
      → Leads P Q (m >>= f)
  Leads->>= m f k l = record {
    after = λ w h. (Leads-case ((m w).0) f l).after ((m w).1) (k.after w h);
  }

  ended :
      {E A B : Type 0} (r : Result E A) (f : A → Result E B) (w : World)
      → (elim r as (λ r. Result E B × World) [ ok a ↦ (f a, w) | err e ↦ (err e, w) ]).1 ≡ w
  ended (ok a) f w = refl
  ended (err e) f w = refl

  pub Leads-end :
      {E A B : Type 0} (m : Step World E A) (f : A → Result E B)
      → Leads P Q m
      → Leads P Q {X = Result E B} (m >>= λ a w. (f a, w))
  Leads-end m f l = record {
    after =
        λ w h. subst (λ v. Q v.tables.uploads) (sym (ended ((m w).0) f ((m w).1))) (l.after w h);
  }
