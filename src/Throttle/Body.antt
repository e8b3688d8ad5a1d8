-- ===== src/Throttle/Body.antt =====
-- `ThrottledBody` and its `poll_next` (src/rate_limit.rs). The inner body is the list of what its
-- polls will give, and is at its end where the list is; the timer of a sleep is ready from its
-- deadline on. Waking the task is the runtime's part.
use filehost.Base.{
  ℕ, ◌+◌, ◌<◌, ◌≡◌, ◌≢◌, ◌∙◌, ap, refl, Option-cases, Option, none, some, List, [], ◌∷◌, ◌++◌,
  length, Bytes, arith, leb, if◌then◌else◌, inl, inr,
}
use mathlib.Core.List.{append_assoc}
use filehost.Base.Results.{Result, ok, err}
use filehost.Ip.Addr.{IpAddr}
use filehost.Throttle.Bucket.{flow, wait, panic, Limit, Buckets, reserve, charge}

-- `panicked`: the call unwound.
pub data Poll (A : Type 0) : Type 0 where
  pending panicked : Poll A
  ready : A → Poll A

-- What a body gives: a chunk, an error, or its end.
abbrev pub Item : Type 0
Item = Option (Result (Unit {0}) Bytes)

pub record ThrottledBody : Type 0 where
  pub inner : List (Poll Item)
  pub ip : IpAddr
  pub limit : Limit
  -- the deadline and the chunk that is held back
  pub buffered : Option (ℕ × Bytes)

-- A chunk that came from the inner body: charged, and given on or held back.
unfoldable pub pace : ℕ → Bytes → ThrottledBody → Buckets → Poll Item × ThrottledBody × Buckets
pace now chunk body buckets =
    let (verdict, buckets') = reserve body.limit now body.ip (length chunk) buckets in
    elim verdict [
      | flow ↦ (ready (some (ok chunk)), body, buckets')
      | panic ↦ (panicked, body, buckets')
      | wait d ↦
          if leb (now + d) now
          then (ready (some (ok chunk)), body, buckets')
          else (pending, record body { buffered = some (now + d, chunk) }, buckets')
    ]

-- The poll of the inner body, where nothing is held back.
unfoldable pub poll_inner :
    ℕ → List (Poll Item) → ThrottledBody → Buckets → Poll Item × ThrottledBody × Buckets
poll_inner now [] body buckets = (ready none, body, buckets)
poll_inner now (ready (some (ok chunk)) ∷ rest) body buckets =
    pace now chunk (record body { inner = rest }) buckets
poll_inner now (p ∷ rest) body buckets = (p, record body { inner = rest }, buckets)

unfoldable pub poll_next : ℕ → ThrottledBody → Buckets → Poll Item × ThrottledBody × Buckets
poll_next now body buckets = elim body.buffered [
  | some (deadline, chunk) ↦
      if leb deadline now
      then (ready (some (ok chunk)), record body { buffered = none }, buckets)
      else (pending, body, buckets)
  | none ↦ poll_inner now body.inner body buckets
]

-- The chunks that are still to come.
abbrev pub inner_chunks : List (Poll Item) → List Bytes
inner_chunks [] = []
inner_chunks (ready (some (ok chunk)) ∷ rest) = chunk ∷ inner_chunks rest
inner_chunks (p ∷ rest) = inner_chunks rest

abbrev pub held_back : Option (ℕ × Bytes) → List Bytes
held_back none = []
held_back (some (deadline, chunk)) = chunk ∷ []

abbrev pub to_come : ThrottledBody → List Bytes
to_come body = held_back body.buffered ++ inner_chunks body.inner

-- The chunk that a poll hands to the client.
abbrev pub given : Poll Item → List Bytes
given (ready (some (ok chunk))) = chunk ∷ []
given _ = []

-- The polls at a list of instants: what the client was given, the body and the buckets.
unfoldable pub drive : List ℕ → ThrottledBody → Buckets → List Bytes × ThrottledBody × Buckets
drive [] body buckets = ([], body, buckets)
drive (now ∷ times) body buckets =
    let (p, body', buckets') = poll_next now body buckets in
    let (chunks, body'', buckets'') = drive times body' buckets' in
    (given p ++ chunks, body'', buckets'')

reserve-ne-panic :
    (limit : Limit) (now : ℕ) (ip : IpAddr) (bytes : ℕ) (buckets : Buckets)
    → 0 < limit.rate
    → (reserve limit now ip bytes buckets).0 ≢ panic
unfolding reserve charge
reserve-ne-panic limit now ip bytes buckets pos = ground arith

-- A step loses no chunk, repeats none and keeps the order.
abbrev pub Keeps : List Bytes → Limit → Poll Item × ThrottledBody × Buckets → Type 0
Keeps chunks limit (p, body, buckets) = (given p ++ to_come body ≡ chunks) × (body.limit ≡ limit)

pace-Keeps :
    (now : ℕ) (chunk : Bytes) (body : ThrottledBody) (buckets : Buckets)
    → 0 < body.limit.rate
    → body.buffered ≡ none
    → Keeps (chunk ∷ inner_chunks body.inner) body.limit (pace now chunk body buckets)
unfolding pace
pace-Keeps now chunk body buckets pos free =
    ground (arith, reserve-ne-panic body.limit now body.ip (length chunk) buckets pos)

poll_inner-Keeps :
    (now : ℕ) (inner : List (Poll Item)) (body : ThrottledBody) (buckets : Buckets)
    → 0 < body.limit.rate
    → body.buffered ≡ none
    → body.inner ≡ inner
    → Keeps (inner_chunks inner) body.limit (poll_inner now inner body buckets)
unfolding poll_inner
poll_inner-Keeps now [] body buckets pos free e = ground arith
poll_inner-Keeps now (ready (some (ok chunk)) ∷ rest) body buckets pos free e =
    pace-Keeps now chunk (record body { inner = rest }) buckets pos free
poll_inner-Keeps now (ready (some (err x)) ∷ rest) body buckets pos free e = ground arith
poll_inner-Keeps now (ready none ∷ rest) body buckets pos free e = ground arith
poll_inner-Keeps now (pending ∷ rest) body buckets pos free e = ground arith
poll_inner-Keeps now (panicked ∷ rest) body buckets pos free e = ground arith

pub poll_next-Keeps :
    (now : ℕ) (body : ThrottledBody) (buckets : Buckets)
    → 0 < body.limit.rate
    → Keeps (to_come body) body.limit (poll_next now body buckets)
unfolding poll_next
poll_next-Keeps now body buckets pos = elim (Option-cases body.buffered) [
  | inl e ↦ ground (arith, poll_inner-Keeps now body.inner body buckets pos e refl)
  | inr ((deadline, chunk), e) ↦ ground arith
]

-- However often and whenever the body is polled, what the client was given, then what is held back,
-- then what the inner body still has, is what the inner body had: no chunk is lost, repeated or
-- reordered by the pacing.
pub drive_keeps :
    (times : List ℕ) (body : ThrottledBody) (buckets : Buckets)
    → 0 < body.limit.rate
    → let (chunks, body', buckets') = drive times body buckets in
      chunks ++ to_come body' ≡ to_come body
unfolding drive
drive_keeps [] body buckets pos = refl
drive_keeps (now ∷ times) body buckets pos =
    let (p, body', buckets') = poll_next now body buckets in
    let kept = poll_next-Keeps now body buckets pos in
    let (chunks, body'', buckets'') = drive times body' buckets' in
    append_assoc (given p) chunks (to_come body'')
    ∙ ap (λ (cs : List Bytes). given p ++ cs) (drive_keeps times body' buckets' (rw kept.1 pos))
    ∙ kept.0
