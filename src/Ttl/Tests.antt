-- ===== src/Ttl/Tests.antt =====
-- The cache at inputs: keys and values are numbers, and the state is the cache itself.
use filehost.Base.{ℕ, ◌≡◌, refl, none, some, List, [], ◌∷◌, ◌==◌}
use filehost.Base.Results.{ok, err, Step}
use filehost.Ttl.Cache.{Entries, Clock, Cell, get, insert, look, sweep, refresh, get_or_refresh}
use filehost.Ttl.Shared.{Turn}

abbrev State : Type 0
State = Entries ℕ ℕ

abbrev cell : Cell State ℕ ℕ
cell = record { read = λ w. w; write = λ m w. m }

abbrev clock : Clock
clock = record { first = 100; second = 101; stored = 102; swept = 103 }

abbrev later : Clock
later = record { first = 110; second = 110; stored = 111; swept = 111 }

abbrev answers : Step State ℕ ℕ
answers w = (ok 7, w)

abbrev fails : Step State ℕ ℕ
fails w = (err 500, w)

abbrev old : State
old = (1, (5, 9)) ∷ (2, (95, 8)) ∷ []

-- The entry of key 1 is stale: it is fetched anew, and the sweep keeps the entry of key 2.
refresh_stale :
    get_or_refresh ◌==◌ cell 50 clock 1 answers old ≡ (ok 7, (1, (102, 7)) ∷ (2, (95, 8)) ∷ [])
unfolding get_or_refresh refresh look get insert sweep
refresh_stale = refl

-- Three tasks that miss and wait for the lock: the fetch of one fails, the next one fetches again, and
-- the last one finds its value.
abbrev turns : List (Turn ℕ)
turns =
    record { task = 2; now = 10; answer = some 1 }
    ∷ record { task = 0; now = 10; answer = none }
    ∷ record { task = 1; now = 11; answer = some 4 }
    ∷ record { task = 2; now = 11; answer = none }
    ∷ record { task = 1; now = 12; answer = some 5 }
    ∷ record { task = 0; now = 14; answer = some 6 }
    ∷ []
