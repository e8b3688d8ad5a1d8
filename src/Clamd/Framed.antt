-- ===== src/Clamd/Framed.antt =====
-- What clamd receives of a file that `scan_file` (src/clamd.rs) sends, by a reading of the INSTREAM
-- protocol that is written without regard to the code.
use mathlib.Core.Path.{ap, ap₂}
use mathlib.Core.List.{append_assoc}
use filehost.Base.{
  ℕ, zero, suc, ◌%◌, ◌^◌, ◌≤◌, ◌<◌, ◌≡◌, refl, sym, ◌∙◌, Option, none, some, List, [], ◌∷◌, ◌++◌,
  map, All, length, take, drop, length-append, take-append, drop-append, Bytes, strip_prefix, ltb,
  ◌==◌, if◌then◌else◌, arith,
}
use filehost.Base.Results.{ok}
use filehost.Ip.Addr.{be_bytes, from_be}
use filehost.Ip.Octets.{length-be_bytes, from_be-be_bytes}
use filehost.Clamd.{
  Conn, write_all, write_chunk, stream, Calls, magic, verdict, finish, send_file, scan_file,
}

-- A stream of chunks, each behind its length in four bytes, up to a length of zero, which ends it. The
-- number is of the chunks that are looked for.
pub instream : ℕ → Bytes → Option Bytes
instream zero s = none
instream (suc rounds) s =
    let n = from_be 0 (take 4 s) in
    let rest = drop 4 s in
    let more = instream rounds (drop n rest) in
    if ltb (length s) 4
    then none
    else if n == 0
    then (elim rest [ [] ↦ some [] | b ∷ bs ↦ none ])
    else if ltb (length rest) n
    then none
    else elim more [ none ↦ none | some bytes ↦ some (take n rest ++ bytes) ]

-- The content that clamd scans, of all that it was sent.
pub received : Bytes → Option Bytes
received s = elim (strip_prefix magic s) [ none ↦ none | some r ↦ instream (length r) r ]

abbrev pub join : List Bytes → Bytes
join [] = []
join (c ∷ cs) = c ++ join cs

-- A read of the file gives at least a byte, and at most the buffer's 8192.
abbrev pub IsRead : Bytes → Type 0
IsRead c = (0 < length c) × (length c ≤ 8192)

abbrev framed : List Bytes → Bytes
framed [] = 0 ∷ 0 ∷ 0 ∷ 0 ∷ []
framed (c ∷ cs) = be_bytes 4 (length c % 2 ^ 32) ++ (c ++ framed cs)

module _ {ℓ} {A : Type ℓ} where
  take_exact : (n : ℕ) (xs ys : List A) → length xs ≡ n → take n (xs ++ ys) ≡ xs
  take_exact n xs ys h = ap (λ k. take k (xs ++ ys)) (sym h) ∙ take-append xs ys

  drop_exact : (n : ℕ) (xs ys : List A) → length xs ≡ n → drop n (xs ++ ys) ≡ ys
  drop_exact n xs ys h = ap (λ k. drop k (xs ++ ys)) (sym h) ∙ drop-append xs ys

abbrev onto : Bytes → Option Bytes → Option Bytes
onto c none = none
onto c (some bytes) = some (c ++ bytes)

-- One round at a stream whose parts are known.
instream_step :
    (rounds n : ℕ) (s rest : Bytes)
    → from_be 0 (take 4 s) ≡ n
    → drop 4 s ≡ rest
    → 4 ≤ length s
    → 0 < n
    → n ≤ length rest
    → instream (suc rounds) s ≡ onto (take n rest) (instream rounds (drop n rest))
unfolding instream
instream_step rounds n s rest e f long pos fits = ground (arith, e, f)

instream-frame :
    (rounds : ℕ) (c rest : Bytes)
    → IsRead c
    → instream (suc rounds) (be_bytes 4 (length c % 2 ^ 32) ++ (c ++ rest))
      ≡ onto c (instream rounds rest)
instream-frame rounds c rest is_read =
    let size = be_bytes 4 (length c % 2 ^ 32) in
    let four = length-be_bytes 4 (length c % 2 ^ 32) in
    let n : from_be 0 (take 4 (size ++ (c ++ rest))) ≡ length c =
      ap (from_be 0) (take_exact 4 size (c ++ rest) four)
      ∙ from_be-be_bytes 4 0 (length c % 2 ^ 32)
      ∙ omega arith in
    instream_step rounds (length c) (size ++ (c ++ rest)) (c ++ rest) n
      (drop_exact 4 size (c ++ rest) four) (omega (arith, four, length-append size (c ++ rest)))
      is_read.0 (omega (arith, length-append c rest))
    ∙ ap₂ onto (take-append c rest) (ap (instream rounds) (drop-append c rest))

instream-framed :
    (rounds : ℕ) (cs : List Bytes)
    → length cs < rounds
    → All IsRead cs
    → instream rounds (framed cs) ≡ some (join cs)
unfolding instream from_be
instream-framed zero cs h reads = absurd (omega arith)
instream-framed (suc rounds) [] h reads = refl
instream-framed (suc rounds) (c ∷ cs) h (here, reads) =
    instream-frame rounds c (framed cs) here
    ∙ ap (onto c) (instream-framed rounds cs (omega arith) reads)

-- The connection after bytes that were taken.
abbrev sending : Bytes → Conn
sending s = record { sent = s; writes = [] }

stream-run :
    (cs : List Bytes) (s : Bytes)
    → All IsRead cs
    → (r : Bytes) × (stream (map ok cs) (sending s) ≡ (ok tt, sending r))
      × (r ++ (0 ∷ 0 ∷ 0 ∷ 0 ∷ []) ≡ s ++ framed cs)
unfolding stream write_chunk write_all
stream-run [] s reads = (s, refl, refl)
stream-run ([] ∷ cs) s (here, reads) = absurd (omega arith)
stream-run ((b ∷ bs) ∷ cs) s (here, reads) =
    let c = b ∷ bs in
    let size = be_bytes 4 (length c % 2 ^ 32) in
    let (r, run, whole) = stream-run cs ((s ++ size) ++ c) reads in
    (r, run, whole ∙ append_assoc (s ++ size) c (framed cs) ∙ append_assoc s size (c ++ framed cs))

length-framed : (cs : List Bytes) → length cs < length (framed cs)
length-framed [] = omega arith
length-framed (c ∷ cs) = omega (
  arith,
  length-framed cs,
  length-append (be_bytes 4 (length c % 2 ^ 32)) (c ++ framed cs),
  length-be_bytes 4 (length c % 2 ^ 32),
  length-append c (framed cs),
)

scan_file-run :
    (lossy : Bytes → Bytes) (calls : Calls) (r : Bytes)
    → calls.connected ≡ none
    → calls.writes ≡ []
    → calls.opened ≡ none
    → stream calls.reads (sending magic) ≡ (ok tt, sending r)
    → scan_file lossy calls ≡ (verdict lossy calls, sending (r ++ (0 ∷ 0 ∷ 0 ∷ 0 ∷ [])))
unfolding scan_file send_file finish write_all
scan_file-run lossy calls r connected writes opened run =
    ground (arith, connected, writes, opened, run)

-- Where the connection, every write and the opening and the reads of the file succeed, clamd receives
-- exactly the bytes of the file, as chunks behind their lengths, and the result is what its response
-- says.
pub scan_file-received :
    (lossy : Bytes → Bytes) (calls : Calls) (cs : List Bytes)
    → calls.connected ≡ none
    → calls.writes ≡ []
    → calls.opened ≡ none
    → calls.reads ≡ map ok cs
    → All IsRead cs
    → (received (scan_file lossy calls).1.sent ≡ some (join cs))
      × ((scan_file lossy calls).0 ≡ verdict lossy calls)
unfolding received
scan_file-received lossy calls cs connected writes opened reads are_reads =
    let (r, run, whole) = stream-run cs magic are_reads in
    let streamed = ap (λ rs. stream rs (sending magic)) reads ∙ run in
    let scan = scan_file-run lossy calls r connected writes opened streamed in
    let found : received (magic ++ framed cs) ≡ some (join cs) =
      instream-framed (length (framed cs)) cs (length-framed cs) are_reads in
    (ap (λ q. received q.1.sent) scan ∙ ap received whole ∙ found, ap (λ q. q.0) scan)
