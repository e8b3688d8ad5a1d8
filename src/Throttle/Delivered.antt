-- ===== src/Throttle/Delivered.antt =====
-- That the paced body of src/rate_limit.rs comes to its end.
use mathlib.Core.Path.{ap, ap₂}
use mathlib.Core.List.{append-nil}
use filehost.Base.{
  ℕ, ◌+◌, ◌-◌, ◌*◌, ◌≤◌, ◌<◌, ◌≡◌, ◌∙◌, refl, sym, Option-cases, Option, none, some, List, [], ◌∷◌,
  ◌++◌, length, Bytes, arith, inl, inr,
}
use filehost.Base.Results.{ok, err}
use filehost.Throttle.Bucket.{Buckets}
use filehost.Throttle.Body.{
  pending, panicked, ready, Poll, Item, ThrottledBody, pace, poll_inner, poll_next, held_back,
  to_come, drive, drive_keeps, inner_chunks,
}

-- How many polls are left: two for each that the inner body answers, and one for a chunk held back.
abbrev pub polls_left : ThrottledBody → ℕ
polls_left body = 2 * length body.inner + length (held_back body.buffered)

-- A poll that does not come before the deadline of a chunk that is held back.
abbrev pub IsDue : ℕ → Option (ℕ × Bytes) → Type 0
IsDue now none = Unit
IsDue now (some (deadline, chunk)) = deadline ≤ now

-- Polls of which each comes when the body's timer, if it is set, is ready.
abbrev pub AreDue : List ℕ → ThrottledBody → Buckets → Type 0
AreDue [] body buckets = Unit
AreDue (now ∷ times) body buckets =
    let (p, body', buckets') = poll_next now body buckets in
    IsDue now body.buffered × AreDue times body' buckets'

pace-left :
    (now : ℕ) (chunk : Bytes) (body : ThrottledBody) (buckets : Buckets)
    → body.buffered ≡ none
    → let (p, body', buckets') = pace now chunk body buckets in
      polls_left body' ≤ 2 * length body.inner + 1
unfolding pace
pace-left now chunk body buckets free = ground (arith, free)

poll_inner-left :
    (now : ℕ) (inner : List (Poll Item)) (body : ThrottledBody) (buckets : Buckets)
    → body.buffered ≡ none
    → body.inner ≡ inner
    → let (p, body', buckets') = poll_inner now inner body buckets in
      polls_left body' ≤ 2 * length inner - 1
unfolding poll_inner
poll_inner-left now [] body buckets free e = ground (arith, e, free)
poll_inner-left now (ready (some (ok chunk)) ∷ rest) body buckets free e =
    omega (arith, pace-left now chunk (record body { inner = rest }) buckets free)
poll_inner-left now (ready (some (err x)) ∷ rest) body buckets free e = ground (arith, free)
poll_inner-left now (ready none ∷ rest) body buckets free e = ground (arith, free)
poll_inner-left now (pending ∷ rest) body buckets free e = ground (arith, free)
poll_inner-left now (panicked ∷ rest) body buckets free e = ground (arith, free)

poll_next-left :
    (now : ℕ) (body : ThrottledBody) (buckets : Buckets)
    → IsDue now body.buffered
    → let (p, body', buckets') = poll_next now body buckets in
      polls_left body' ≤ polls_left body - 1
unfolding poll_next
poll_next-left now body buckets due = elim (Option-cases body.buffered) [
  | inl e ↦ ground (arith, e, poll_inner-left now body.inner body buckets e refl)
  | inr ((deadline, chunk), e) ↦ ground (arith, e)
]

inner_chunks-nil : (ps : List (Poll Item)) → length ps ≡ 0 → inner_chunks ps ≡ []
inner_chunks-nil [] h = refl
inner_chunks-nil (p ∷ ps) h = absurd (omega arith)

held_back-nil : (b : Option (ℕ × Bytes)) → length (held_back b) ≡ 0 → held_back b ≡ []
held_back-nil none h = refl
held_back-nil (some c) h = absurd (omega arith)

to_come-nil : (body : ThrottledBody) → polls_left body ≡ 0 → to_come body ≡ []
to_come-nil body h =
    ap₂ ◌++◌ (held_back-nil body.buffered (omega arith)) (inner_chunks-nil body.inner (omega arith))

drive-left :
    (times : List ℕ) (body : ThrottledBody) (buckets : Buckets)
    → AreDue times body buckets
    → let (chunks, body', buckets') = drive times body buckets in
      polls_left body' ≤ polls_left body - length times
unfolding drive
drive-left [] body buckets due = omega arith
drive-left (now ∷ times) body buckets (here, due) =
    let (p, body', buckets') = poll_next now body buckets in
    omega (arith, poll_next-left now body buckets here, drive-left times body' buckets' due)

-- At a rate above zero, where each poll comes when the body's timer, if it is set, is ready, twice as
-- many polls as the inner body answers, and one for a chunk that is held back, are enough: the client
-- is then given every chunk, in order.
pub drive_delivers :
    (times : List ℕ) (body : ThrottledBody) (buckets : Buckets)
    → 0 < body.limit.rate
    → AreDue times body buckets
    → polls_left body ≤ length times
    → (drive times body buckets).0 ≡ to_come body
drive_delivers times body buckets pos due enough =
    let (chunks, body', buckets') = drive times body buckets in
    let empty : to_come body' ≡ [] =
      to_come-nil body' (omega (arith, drive-left times body buckets due)) in
    sym (append-nil chunks)
    ∙ ap (λ (cs : List Bytes). chunks ++ cs) (sym empty)
    ∙ drive_keeps times body buckets pos
