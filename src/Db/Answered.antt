-- ===== src/Db/Answered.antt =====
-- Queries that the database answers.
use filehost.Base.{◌≡◌, [], ℕ, arith}
use filehost.Base.Results.{ok}
use filehost.Db.Model.{Tables}
use filehost.Db.World.{World, select, statement}

pub select-answered :
    {A : Type 0} (f : ℕ → Tables → A) (w : World)
    → w.outages ≡ []
    → select f w ≡ (ok (f w.now w.tables), w)
select-answered f w up = ground (arith, up)

pub statement-answered :
    {A : Type 0} (f : ℕ → Tables → A × Tables) (w : World)
    → w.outages ≡ []
    → statement f w ≡ (ok (f w.now w.tables).0, record w { tables = (f w.now w.tables).1 })
statement-answered f w up = ground (arith, up)
