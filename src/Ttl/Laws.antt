-- ===== src/Ttl/Laws.antt =====
-- Freshness, clean-up, invalidation and failure of the cache.
use mathlib.Core.Path.{ap}
use filehost.Base.{
  ℕ, ◌-◌, ◌<◌, ◌≡◌, refl, sym, ◌∙◌, ◌↔◌, ◌⊎◌, inl, inr, Bool, true, none, some, [], ◌∷◌, All, arith,
  Option-cases,
}
use filehost.Base.Results.{ok, err, Step, Result-cases}
use filehost.Ttl.Cache.{
  Entries, Clock, Cell, get, insert, look, sweep, invalidate, refresh, get_or_refresh,
}

-- A cache cell in a state: what is written is read.
module _ {W K V : Type 0} where
  abbrev pub IsCell : Cell W K V → Type 0
  IsCell cell = (m : Entries K V) (w : W) → cell.read (cell.write m w) ≡ m

module _ {K V : Type 0} where
  -- Every entry is younger than the time to live at the given instant.
  abbrev pub IsYoung : ℕ → ℕ → Entries K V → Type 0
  IsYoung ttl now = All (λ e. now - e.1.0 < ttl)

  sweep-IsYoung : (ttl now : ℕ) (m : Entries K V) → IsYoung ttl now (sweep ttl now m)
  unfolding sweep
  sweep-IsYoung ttl now [] = tt
  sweep-IsYoung ttl now ((j, (u, x)) ∷ m) = ground (arith, sweep-IsYoung ttl now m)

-- A test on keys that decides equality, as `Eq` of the key type does.
abbrev pub IsEq : {K : Type 0} → (K → K → Bool) → Type 0
IsEq {K} same = (j k : K) → (same j k ≡ true) ↔ (j ≡ k)

module _ {K V : Type 0} (same : K → K → Bool) (same_iff : IsEq same) where
  pub get-insert_self :
      (k : K) (e : ℕ × V) (m : Entries K V) → get same k (insert same k e m) ≡ some e
  unfolding get insert
  get-insert_self k e [] = ground (arith, same_iff k k)
  get-insert_self k e ((j, f) ∷ m) =
      ground (arith, same_iff k k, same_iff j k, get-insert_self k e m)

  pub get-sweep_young :
      (ttl now : ℕ) (k : K) (t : ℕ) (v : V) (m : Entries K V)
      → get same k m ≡ some (t, v)
      → now - t < ttl
      → get same k (sweep ttl now m) ≡ some (t, v)
  unfolding get sweep
  get-sweep_young ttl now k t v [] h young = cc
  get-sweep_young ttl now k t v ((j, (u, x)) ∷ m) h young =
      ground (arith, get-sweep_young ttl now k t v m)

  pub look_nil : (ttl now : ℕ) (k : K) → look {V = V} same ttl now k [] ≡ none
  unfolding look get
  look_nil ttl now k = refl

  pub look_stored :
      (ttl now swept stored : ℕ) (key : K) (v : V) (m : Entries K V)
      → swept - stored < ttl
      → now - stored < ttl
      → look same ttl now key (sweep ttl swept (insert same key (stored, v) m)) ≡ some v
  unfolding look
  look_stored ttl now swept stored key v m a b =
      let kept =
        get-sweep_young ttl swept key stored v (insert same key (stored, v) m)
          (get-insert_self key (stored, v) m) a in
      ground (arith, kept)

  pub look-eq-some :
      (ttl now : ℕ) (k : K) (m : Entries K V) {v : V}
      → look same ttl now k m ≡ some v
      → (t : ℕ) × (get same k m ≡ some (t, v)) × (now - t < ttl)
  unfolding look
  look-eq-some ttl now k m h = elim (Option-cases (get same k m)) [
    | inl e ↦ absurd (ground arith)
    | inr ((t, x), e) ↦ (t, ground arith, ground arith)
  ]

  module _ {W E : Type 0} (cell : Cell W K V) (is_cell : IsCell cell) (ttl : ℕ) where
    -- A value that is returned was fetched in this call, or stands in the cache and is younger than
    -- the time to live when it is looked at; and only a fetch changes the state.
    pub get_or_refresh-ok :
        (clock : Clock) (key : K) (fetch : Step W E V) (w : W) {v : V}
        → (get_or_refresh same cell ttl clock key fetch w).0 ≡ ok v
        → let w' = (get_or_refresh same cell ttl clock key fetch w).1 in
          ((t : ℕ) × (get same key (cell.read w) ≡ some (t, v))
            × ((clock.first - t < ttl) ⊎ (clock.second - t < ttl))
            × (w' ≡ w))
          ⊎ (((fetch w).0 ≡ ok v)
              × (cell.read w'
                  ≡ sweep ttl clock.swept
                      (insert same key (clock.stored, v) (cell.read (fetch w).1))))
    unfolding get_or_refresh refresh
    get_or_refresh-ok clock key fetch w {v} h =
        elim (Option-cases (look same ttl clock.first key (cell.read w))) [
          | inr (x, e) ↦
              let same_value : some x ≡ some v = ground arith in
              let (t, found, young) =
                look-eq-some ttl clock.first key (cell.read w) (e ∙ same_value) in
              inl (t, found, inl young, ground arith)
          | inl miss ↦ elim (Option-cases (look same ttl clock.second key (cell.read w))) [
            | inr (x, e) ↦
                let same_value : some x ≡ some v = ground arith in
                let (t, found, young) =
                  look-eq-some ttl clock.second key (cell.read w) (e ∙ same_value) in
                inl (t, found, inr young, ground arith)
            | inl miss' ↦ elim (Result-cases (fetch w).0) [
              | inl (x, e) ↦
                  let same_value : x ≡ v = ground arith in
                  let kept =
                    sweep ttl clock.swept
                      (insert same key (clock.stored, x) (cell.read (fetch w).1)) in
                  inr (ground arith, rw (← same_value) (ground (arith, is_cell kept (fetch w).1)))
              | inr (x, e) ↦ absurd (ground arith)
            ]
          ]
        ]

    -- A failed fetch is passed on, and the cache is not touched.
    pub get_or_refresh-err :
        (clock : Clock) (key : K) (fetch : Step W E V) (w : W) {e : E}
        → (get_or_refresh same cell ttl clock key fetch w).0 ≡ err e
        → fetch w ≡ get_or_refresh same cell ttl clock key fetch w
    unfolding get_or_refresh refresh
    get_or_refresh-err clock key fetch w h = ground arith

    pub fetched :
        (clock : Clock) (key : K) (fetch : Step W E V) (w w' : W) (v : V)
        → look same ttl clock.first key (cell.read w) ≡ none
        → look same ttl clock.second key (cell.read w) ≡ none
        → fetch w ≡ (ok v, w')
        → get_or_refresh same cell ttl clock key fetch w ≡ (
          ok v,
          cell.write (sweep ttl clock.swept (insert same key (clock.stored, v) (cell.read w'))) w',
        )
    unfolding get_or_refresh refresh
    fetched clock key fetch w w' v a b f = ground arith

    failed :
        (clock : Clock) (key : K) (fetch : Step W E V) (w : W) (e : E)
        → look same ttl clock.first key (cell.read w) ≡ none
        → look same ttl clock.second key (cell.read w) ≡ none
        → (fetch w).0 ≡ err e
        → get_or_refresh same cell ttl clock key fetch w ≡ fetch w
    unfolding get_or_refresh refresh
    failed clock key fetch w e a b f = ground arith

    -- Where both looks miss, the call answers what the fetch answers.
    pub get_or_refresh_miss :
        (clock : Clock) (key : K) (fetch : Step W E V) (w : W)
        → look same ttl clock.first key (cell.read w) ≡ none
        → look same ttl clock.second key (cell.read w) ≡ none
        → (get_or_refresh same cell ttl clock key fetch w).0 ≡ (fetch w).0
    get_or_refresh_miss clock key fetch w a b = elim (Result-cases (fetch w).0) [
      | inl (v, e) ↦
          let f : fetch w ≡ (ok v, (fetch w).1) = ap (λ r. (r, (fetch w).1)) e in
          ap (λ p. p.0) (fetched clock key fetch w _ v a b f) ∙ sym e
      | inr (x, e) ↦ ap (λ p. p.0) (failed clock key fetch w x a b e)
    ]

    pub hit :
        (clock : Clock) (key : K) (fetch : Step W E V) (w : W) (v : V)
        → look same ttl clock.first key (cell.read w) ≡ some v
        → get_or_refresh same cell ttl clock key fetch w ≡ (ok v, w)
    unfolding get_or_refresh
    hit clock key fetch w v h = ground arith

    -- After a fetch, every call for the key within the time to live of the store returns the
    -- fetched value, changes nothing and does not fetch again, whatever it would have fetched.
    pub get_or_refresh_repeat :
        (clock later : Clock) (key : K) (fetch again : Step W E V) (w w' : W) (v : V)
        → look same ttl clock.first key (cell.read w) ≡ none
        → look same ttl clock.second key (cell.read w) ≡ none
        → fetch w ≡ (ok v, w')
        → clock.swept - clock.stored < ttl
        → later.first - clock.stored < ttl
        → let after = (get_or_refresh same cell ttl clock key fetch w).1 in
          get_or_refresh same cell ttl later key again after ≡ (ok v, after)
    get_or_refresh_repeat clock later key fetch again w w' v a b f swept within =
        rw (fetched clock key fetch w w' v a b f) (
          hit later key again _ v (
            rw (is_cell _ w') (
              look_stored ttl later.first clock.swept clock.stored key v (cell.read w') swept
                within)))

    -- After an invalidation every call fetches: its result is that of the fetch, and on success the
    -- cache holds nothing older than the time to live.
    pub get_or_refresh-invalidate :
        (clock : Clock) (key : K) (fetch : Step W E V) (w : W)
        → let start = cell.write (invalidate (cell.read w)) w in
          let (r, w') = get_or_refresh same cell ttl clock key fetch start in
          (r ≡ (fetch start).0) × ((v : V) → r ≡ ok v → IsYoung ttl clock.swept (cell.read w'))
    unfolding invalidate
    get_or_refresh-invalidate clock key fetch w =
        let start = cell.write [] w in
        let miss : (now : ℕ) → look same ttl now key (cell.read start) ≡ none =
          λ now. rw (is_cell [] w) (look_nil ttl now key) in
        elim (Result-cases (fetch start).0) [
          | inl (v, e) ↦
              let f : fetch start ≡ (ok v, (fetch start).1) = ap (λ r. (r, (fetch start).1)) e in
              rw (fetched clock key fetch start _ v (miss clock.first) (miss clock.second) f)
                (sym e, λ x h. rw (is_cell _ _) (sweep-IsYoung ttl clock.swept _))
          | inr (x, e) ↦
              rw (failed clock key fetch start x (miss clock.first) (miss clock.second) e)
                (refl, λ v h. absurd (ground arith))
        ]
