-- ===== src/Db/World.antt =====
-- The state that the handlers share: the tables, the stored files, the caches and the clock. A call
-- of the database takes the next of `outages`: `true` is a failed call, which changes nothing, and
-- where the list is at its end the database answers.
use filehost.Base.{ℕ, Bool, List, [], ◌∷◌, Bytes, if◌then◌else◌}
use filehost.Base.Results.{Result, ok, err}
use filehost.Ip.Addr.{IpAddr}
use filehost.Ttl.Cache.{Entries}
use filehost.Db.Model.{Tables, Uuid, BanType}

-- `sqlx::Error`.
pub data DbError : Type 0 where
  unavailable : DbError

-- The in-memory caches: those of `BanCache` and of `ChallengeCache`.
pub record Caches : Type 0 where
  pub ip_bans : Entries (IpAddr × BanType) Bool
  pub filename_patterns : Entries (Unit {0}) (List Bytes)
  pub mimes : Entries (Unit {0}) (List Bytes)
  pub hashes : Entries (Unit {0}) (List Bytes)
  pub user_agent_patterns : Entries (Unit {0}) (List Bytes)
  pub verified_ips : Entries IpAddr Bool
  pub suspect_ips : Entries IpAddr Bool

pub record World : Type 0 where
  pub tables : Tables
  -- the database's NOW(), and the process's monotonic clock
  pub now : ℕ
  pub instant : ℕ
  pub outages : List Bool
  -- the uploads whose file stands in the store, and those whose file cannot be removed
  pub files : List Uuid
  pub locked : Uuid → Bool
  pub caches : Caches

-- A statement sent to the database.
abbrev pub Query : Type 0 → Type 0
Query A = World → Result DbError A × World

-- One statement: it fails and changes nothing, or reads and writes the tables at once.
abbrev pub statement : {A : Type 0} → (ℕ → Tables → A × Tables) → Query A
statement f w = elim w.outages [
  | [] ↦ let (a, t) = f w.now w.tables in (ok a, record w { tables = t })
  | down ∷ rest ↦
      let (a, t) = f w.now w.tables in
      if down
      then (err unavailable, record w { outages = rest })
      else (ok a, record w { outages = rest; tables = t })
]

-- A `SELECT`.
abbrev pub select : {A : Type 0} → (ℕ → Tables → A) → Query A
select f = statement (λ now t. (f now t, t))
