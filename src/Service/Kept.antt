-- ===== src/Service/Kept.antt =====
-- What the calls do to the table of uploads (src/db.rs, src/ttl_cache.rs): a property `P` of it that
-- holds however its rows evolve is kept by every call but the insert of a row.
use mathlib.Core.Path.{subst}
use filehost.Base.{
  ℕ, ◌≡◌, sym, inl, inr, Bool, true, false, Option, none, some, List, [], ◌∷◌, Option-cases,
  if◌then◌else◌,
}
use filehost.Base.Results.{Result, ok, err, Step, Result-cases, ◌>>=◌}
use filehost.Ttl.Cache.{Cell, Clock, sweep, insert, look, refresh, get_or_refresh}
use filehost.Db.Model.{Upload, Tables}
use filehost.Db.World.{World, statement, select}

module _ (P : List Upload → Type 0) where
  -- What a call leaves of the table has the property.
  pub record Kept {X : Type 0} (m : World → X × World) : Type 0 where
    pub after : (w : World) → P w.tables.uploads → P ((m w).1).tables.uploads

  pub Kept-pure : {X : Type 0} {x : X} → Kept (λ w. (x, w))
  Kept-pure = record { after = λ w h. h }

  pub Kept-modify :
      {X : Type 0} {x : X} (f : World → World)
      → ((w : World) → (f w).tables.uploads ≡ w.tables.uploads)
      → Kept (λ w. (x, f w))
  Kept-modify f same = record { after = λ w h. subst P (sym (same w)) h }

  -- What is made of a call's answer, with the state left as it is.
  pub Kept-same :
      {X Y : Type 0} {m : World → X × World} (g : X × World → Y × World)
      → ((p : X × World) → (g p).1 ≡ p.1)
      → Kept m
      → Kept (λ w. g (m w))
  Kept-same {m = m} g same k = record {
    after = λ w h. subst (λ v. P v.tables.uploads) (sym (same (m w))) (k.after w h);
  }

  -- One call after another, whatever the first one answers.
  pub Kept-then :
      {X Y : Type 0} {m : World → X × World} (f : X × World → Y × World)
      → Kept m
      → ((x : X) → Kept (λ w. f (x, w)))
      → Kept (λ w. f (m w))
  Kept-then {m = m} f k l = record { after = λ w h. (l ((m w).0)).after ((m w).1) (k.after w h) }

  pub Kept-case :
      {E A Y : Type 0} (r : Result E A) (f : A → World → Y × World) (g : E → World → Y × World)
      → ((a : A) → Kept (f a))
      → ((e : E) → Kept (g e))
      → Kept {X = Y} (λ w. elim r [ ok a ↦ f a w | err e ↦ g e w ])
  Kept-case (ok a) f g k l = k a
  Kept-case (err e) f g k l = l e

  pub Kept-option :
      {A Y : Type 0} (o : Option A) (d : World → Y × World) (f : A → World → Y × World)
      → Kept d
      → ((a : A) → Kept (f a))
      → Kept {X = Y} (λ w. elim o [ none ↦ d w | some a ↦ f a w ])
  Kept-option none d f k l = k
  Kept-option (some a) d f k l = l a

  -- A call, and what follows its success and its failure.
  pub Kept-result :
      {E A Y : Type 0} {m : World → Result E A × World} (f : A → World → Y × World)
      (g : E → World → Y × World)
      → Kept m
      → ((a : A) → Kept (f a))
      → ((e : E) → Kept (g e))
      → Kept {X = Y} (λ w. elim ((m w).0) [ ok a ↦ f a ((m w).1) | err e ↦ g e ((m w).1) ])
  Kept-result {Y = Y} f g k l n =
      Kept-then {Y = Y} (λ (r, w). elim r [ ok a ↦ f a w | err e ↦ g e w ]) k
        (λ r. Kept-case r f g l n)

  pub Kept->>= :
      {E A B : Type 0} (m : Step World E A) (f : A → Step World E B)
      → Kept m
      → ((a : A) → Kept (f a))
      → Kept (m >>= f)
  Kept->>= m f k l = Kept-result f (λ e w. (err e, w)) k l (λ e. Kept-pure)

  pub Kept-if :
      {X : Type 0} (b : Bool) {m n : World → X × World}
      → Kept m
      → Kept n
      → Kept (λ w. if b then (m w) else (n w))
  Kept-if true k l = k
  Kept-if false k l = l

  -- The same where the test chooses a step before it is run.
  pub Kept-if_step :
      {X : Type 0} (b : Bool) (m n : World → X × World)
      → Kept m
      → Kept n
      → Kept (if b then m else n)
  Kept-if_step true m n k l = k
  Kept-if_step false m n k l = l

  pub Kept-option_step :
      {A X : Type 0} (o : Option A) (d : World → X × World) (f : A → World → X × World)
      → Kept d
      → ((a : A) → Kept (f a))
      → Kept {X = X} (elim o [ none ↦ d | some a ↦ f a ])
  Kept-option_step none d f k l = k
  Kept-option_step (some a) d f k l = l a

  pub Kept-case_step :
      {E A X : Type 0} (r : Result E A) (f : A → World → X × World) (g : E → World → X × World)
      → ((a : A) → Kept (f a))
      → ((e : E) → Kept (g e))
      → Kept {X = X} (elim r [ ok a ↦ f a | err e ↦ g e ])
  Kept-case_step (ok a) f g k l = k a
  Kept-case_step (err e) f g k l = l e

  -- A statement that keeps the property keeps it when it fails, too.
  statement-at :
      {A : Type 0} (f : ℕ → Tables → A × Tables)
      → ((now : ℕ) (t : Tables) → P t.uploads → P ((f now t).1).uploads)
      → (os : List Bool) (w : World) → P w.tables.uploads
      → P ((statement f (record w { outages = os })).1).tables.uploads
  statement-at f k [] w h = k w.now w.tables h
  statement-at f k (true ∷ os) w h = h
  statement-at f k (false ∷ os) w h = k w.now w.tables h

  pub Kept-statement :
      {A : Type 0} (f : ℕ → Tables → A × Tables)
      → ((now : ℕ) (t : Tables) → P t.uploads → P ((f now t).1).uploads)
      → Kept (statement f)
  Kept-statement f k = record { after = λ w h. statement-at f k w.outages w h }

  -- A statement on the other tables.
  pub Kept-other :
      {A : Type 0} (f : ℕ → Tables → A × Tables)
      → ((now : ℕ) (t : Tables) → ((f now t).1).uploads ≡ t.uploads)
      → Kept (statement f)
  Kept-other f same = Kept-statement f (λ now t h. subst P (sym (same now t)) h)

  pub Kept-select : {A : Type 0} (f : ℕ → Tables → A) → Kept (select f)
  Kept-select f = Kept-statement (λ now t. (f now t, t)) (λ now t h. h)

  -- A cache that is no part of the table.
  pub Kept-get_or_refresh :
      {K V E : Type 0} (same : K → K → Bool) (cell : Cell World K V) (ttl : ℕ)
      (clock : World → Clock) (key : K) (fetch : Step World E V)
      → ((m : List (K × (ℕ × V))) (w : World) → (cell.write m w).tables.uploads ≡ w.tables.uploads)
      → Kept fetch
      → Kept (λ w. get_or_refresh same cell ttl (clock w) key fetch w)
  unfolding get_or_refresh refresh
  Kept-get_or_refresh same cell ttl clock key fetch apart k = record {
    after = λ w h. elim (Option-cases (look same ttl (clock w).first key (cell.read w))) [
      | inr (v, e) ↦ rw (get_or_refresh, e) h
      | inl e ↦
          rw (get_or_refresh, e)
            (elim (Option-cases (look same ttl (clock w).second key (cell.read w))) [
              | inr (v, f) ↦ rw (refresh, f) h
              | inl f ↦
                  rw (refresh, f)
                    (elim (Result-cases ((fetch w).0)) [
                      | inl (a, g) ↦
                          let old = cell.read ((fetch w).1) in
                          let m =
                            sweep ttl (clock w).swept (insert same key ((clock w).stored, a) old) in
                          rw g (subst P (sym (apart m ((fetch w).1))) (k.after w h))
                      | inr (x, g) ↦ rw g (k.after w h)
                    ])
            ])
    ];
  }
