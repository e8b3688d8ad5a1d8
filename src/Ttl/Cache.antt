-- ===== src/Ttl/Cache.antt =====
-- `KeyedTtlCache` (src/ttl_cache.rs). The map is an association list; `Instant`s are numbers, and
-- `elapsed` stops at 0, as `-` does. The cache stands in a larger state `W`, since `fetch` is an
-- awaited call that may change that state; the write lock is held from the second look to the end.
use filehost.Base.{ℕ, ◌-◌, Bool, Option, none, some, List, [], ◌∷◌, filter, ltb, if◌then◌else◌}
use filehost.Base.Results.{ok, err, Step}

abbrev pub Entries : Type 0 → Type 0 → Type 0
Entries K V = List (K × (ℕ × V))

-- The four readings of the clock in one call.
pub record Clock : Type 0 where
  pub first : ℕ
  pub second : ℕ
  pub stored : ℕ
  pub swept : ℕ

-- Where a cache stands in the state.
pub record Cell (W K V : Type 0) : Type 0 where
  pub read : W → Entries K V
  pub write : Entries K V → W → W

module _ {K V : Type 0} where
  -- `HashMap::retain` of the entries younger than the time to live.
  unfoldable pub sweep : ℕ → ℕ → Entries K V → Entries K V
  sweep ttl now = filter (λ (_, (fetched_at, _)). ltb (now - fetched_at) ttl)

  -- `KeyedTtlCache::invalidate`.
  unfoldable pub invalidate : Entries K V → Entries K V
  invalidate m = []

module _ {K V : Type 0} (same : K → K → Bool) where
  -- `HashMap::get`.
  unfoldable pub get : K → Entries K V → Option (ℕ × V)
  get k [] = none
  get k ((j, e) ∷ m) = if same j k then some e else get k m

  -- `HashMap::insert`.
  unfoldable pub insert : K → ℕ × V → Entries K V → Entries K V
  insert k e [] = (k, e) ∷ []
  insert k e ((j, f) ∷ m) = if same j k then (k, e) ∷ m else (j, f) ∷ insert k e m

  -- A look under a lock: the value, if it is there and younger than the time to live.
  unfoldable pub look : ℕ → ℕ → K → Entries K V → Option V
  look ttl now k m = elim (get k m) [
    | none ↦ none
    | some (fetched_at, value) ↦ if ltb (now - fetched_at) ttl then some value else none
  ]

  -- `KeyedTtlCache::set`.
  unfoldable pub set : ℕ → K → V → Entries K V → Entries K V
  set now k v m = insert k (now, v) m

  module _ {W E : Type 0} (cell : Cell W K V) (ttl : ℕ) (clock : Clock) (key : K)
      (fetch : Step W E V) where
    -- The part from the write lock on: the second look, and else the fetch.
    unfoldable pub refresh : Step W E V
    refresh w = elim (look ttl clock.second key (cell.read w)) [
      | some value ↦ (ok value, w)
      | none ↦
          let (r, w') = fetch w in
          elim r [
            | ok fresh ↦
                let m = insert key (clock.stored, fresh) (cell.read w') in
                (ok fresh, cell.write (sweep ttl clock.swept m) w')
            | err e ↦ (err e, w')
          ]
    ]

    -- `KeyedTtlCache::get_or_refresh`, with no other task in between.
    unfoldable pub get_or_refresh : Step W E V
    get_or_refresh w = elim (look ttl clock.first key (cell.read w)) [
      | some value ↦ (ok value, w)
      | none ↦ refresh w
    ]
