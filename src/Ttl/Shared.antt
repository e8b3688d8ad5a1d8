-- ===== src/Ttl/Shared.antt =====
-- Tasks that share one cache: every lock is held for one step, and the steps of the tasks follow one
-- another in any order. `Phase` says how far a task has come in `get_or_refresh`.
use filehost.Base.{
  ℕ, ◌+◌, ◌-◌, ◌<◌, ◌≤◌, ◌≡◌, ◌≢◌, ◌⊎◌, Bool, Option, none, some, List, [], ◌∷◌, All, ◌==◌,
  if◌then◌else◌,
}
use filehost.Ttl.Cache.{Entries, look, insert, sweep}
use filehost.Ttl.Laws.{IsEq}

-- `waiting`: the first look failed, and the task waits for the write lock. `failed`: its fetch failed.
pub data Phase (V : Type 0) : Type 0 where
  starting waiting failed : Phase V
  returned : V → Phase V

-- The shared cache, how many fetches were made for it, and how many of them failed.
pub record Shared (K V : Type 0) : Type 0 where
  pub entries : Entries K V
  pub fetches : ℕ
  pub failures : ℕ

-- One turn of one task: the instant, and what the database would answer now; `none` is an error.
pub record Turn (V : Type 0) : Type 0 where
  pub task : ℕ
  pub now : ℕ
  pub answer : Option V

module _ {K V : Type 0} (same : K → K → Bool) (ttl : ℕ) (key : K) where
  -- The part under the read lock, or the part under the write lock.
  unfoldable pub turn : ℕ → Option V → Phase V → Shared K V → Phase V × Shared K V
  turn now answer starting s = elim (look same ttl now key s.entries) [
    | some value ↦ (returned value, s)
    | none ↦ (waiting, s)
  ]
  turn now answer waiting s = elim (look same ttl now key s.entries) [
    | some value ↦ (returned value, s)
    | none ↦ elim answer [
      | none ↦ (failed, record s { fetches = s.fetches + 1; failures = s.failures + 1 })
      | some fresh ↦
          let m = insert same key (now, fresh) s.entries in
          (returned fresh, record s { entries = sweep ttl now m; fetches = s.fetches + 1 })
    ]
  ]
  turn now answer failed s = (failed, s)
  turn now answer (returned value) s = (returned value, s)

  -- A schedule: the phases are a function from tasks, and every turn is one task's.
  unfoldable pub run : List (Turn V) → (ℕ → Phase V) → Shared K V → (ℕ → Phase V) × Shared K V
  run [] phases s = (phases, s)
  run (t ∷ ts) phases s =
      let (p, s') = turn t.now t.answer (phases t.task) s in
      run ts (λ i. if i == t.task then p else phases i) s'

-- All turns of a schedule are taken from an instant on, for less than the time to live.
abbrev pub Within : {V : Type 0} → ℕ → ℕ → List (Turn V) → Type 0
Within ttl start = All (λ t. (start ≤ t.now) × (t.now - start < ttl))

module _ {V : Type 0} where
  -- Whatever a task has returned is the value.
  abbrev Only : V → Phase V → Type 0
  Only v p = (x : V) → p ≡ returned x → x ≡ v

  abbrev Pending : Phase V → Type 0
  Pending p = (x : V) → p ≢ returned x

  abbrev updated : (ℕ → Phase V) → ℕ → Phase V → ℕ → Phase V
  updated phases task p i = if i == task then p else phases i

module _ {K V : Type 0} (same : K → K → Bool) (ttl : ℕ) (key : K) where
  -- In the window the key's entry is found with this value.
  abbrev Stored : ℕ → V → Shared K V → Type 0
  Stored start v s =
      (now : ℕ) → start ≤ now → now - start < ttl → look same ttl now key s.entries ≡ some v

module _ {K V : Type 0} (same : K → K → Bool) (same_iff : IsEq same) (ttl : ℕ) (key : K) where
  -- What may be the case while the key's entry is not there, and from its store on.
  abbrev Flight : ℕ → ℕ → (ℕ → Phase V) → Shared K V → Type 0
  Flight start n phases s =
      (((i : ℕ) → Pending (phases i)) × (s.entries ≡ []) × (s.fetches ≡ n + s.failures))
      ⊎ ((v : V) × ((i : ℕ) → Only v (phases i))
          × Stored same ttl key start v s
          × (s.fetches ≡ n + s.failures + 1))
