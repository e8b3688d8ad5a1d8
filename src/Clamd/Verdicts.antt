-- ===== src/Clamd/Verdicts.antt =====
-- What a scan's result says of the scanner's response (src/clamd.rs).
use mathlib.Core.Path.{ap, ap₂, subst}
use mathlib.Core.List.{reverse-append, reverse-reverse}
use filehost.Base.{
  ◌%◌, ◌^◌, length, ◌≡◌, refl, sym, ◌∙◌, inl, inr, true, none, some, List, [], ◌∷◌, ◌++◌, All,
  reverse, Bytes, bytes_eq, bytes_eq_sound, ascii, strip_prefix, strip_prefix_sound, trim,
  Bool-cases, Option-cases, if◌then◌else◌, arith,
}
use filehost.Base.Results.{Result, ok, err, Result-cases}
use filehost.Ip.Addr.{be_bytes}
use filehost.Handlers.Scans.{ScanResult}
use filehost.Clamd.{
  ErrorKind, is_connection_closed, Write, Conn, write_all, write_chunk, stream, strip_suffix,
  read_response, parse_response, Calls, magic, verdict, finish, send_file, scan_file,
}

strip_suffix_sound : (p s rest : Bytes) → strip_suffix p s ≡ some rest → s ≡ rest ++ p
strip_suffix_sound p s rest h = elim (Option-cases (strip_prefix (reverse p) (reverse s))) [
  | inl e ↦ absurd (ground (arith, e))
  | inr (r, e) ↦
      let back : reverse r ≡ rest = ground (arith, e) in
      sym (reverse-reverse s)
      ∙ ap reverse (strip_prefix_sound (reverse p) (reverse s) r e)
      ∙ reverse-append (reverse p) r
      ∙ ap₂ ◌++◌ back (reverse-reverse p)
]

-- What a response has to be for each result.
abbrev pub Says : Bytes → ScanResult → Type 0
Says response ScanResult.clean = response ≡ ascii "stream: OK"
Says response (ScanResult.infected name) = response ≡ ascii "stream: " ++ (name ++ ascii " FOUND")

parse_response_sound :
    (response : Bytes) (result : ScanResult)
    → parse_response response ≡ ok result
    → Says response result
unfolding parse_response
parse_response_sound response result h =
    elim (Bool-cases (bytes_eq response (ascii "stream: OK"))) [
      | inl clean ↦
          let same : ScanResult.clean ≡ result = ground (arith, clean) in
          subst (Says response) same (bytes_eq_sound response (ascii "stream: OK") clean)
      | inr other ↦ elim (Option-cases (strip_prefix (ascii "stream: ") response)) [
        | inl e ↦ absurd (ground (arith, other, e))
        | inr (s, e) ↦ elim (Option-cases (strip_suffix (ascii " FOUND") s)) [
          | inl f ↦ absurd (ground (arith, other, e, f))
          | inr (name, f) ↦
              let same : ScanResult.infected name ≡ result = ground (arith, other, e, f) in
              subst (Says response) same (
                strip_prefix_sound (ascii "stream: ") response s e
                ∙ ap (λ t. ascii "stream: " ++ t) (strip_suffix_sound (ascii " FOUND") s name f))
        ]
      ]
    ]

module _ (lossy : Bytes → Bytes) (calls : Calls) where
  send_file-ok :
      (conn : Conn) (result : ScanResult)
      → (send_file lossy calls conn).0 ≡ ok result
      → verdict lossy calls ≡ ok result
  unfolding send_file finish
  send_file-ok conn result h = ground arith

  scan_file-ok :
      (result : ScanResult)
      → (scan_file lossy calls).0 ≡ ok result
      → verdict lossy calls ≡ ok result
  unfolding scan_file
  scan_file-ok result h =
      let conn : Conn = record { sent = []; writes = calls.writes } in
      ground (arith, send_file-ok (write_all magic conn).1 result)

  -- A file is taken for clean, or for infected by a name, only where the bytes up to the first NUL or
  -- line break of the response say just that.
  pub scan_file_sound :
      (result : ScanResult)
      → (scan_file lossy calls).0 ≡ ok result
      → (response : Bytes) × (read_response calls.answer calls.last ≡ ok response)
        × Says (trim (lossy response)) result
  unfolding verdict
  scan_file_sound result h =
      let said = scan_file-ok result h in
      elim (Result-cases (read_response calls.answer calls.last)) [
        | inl (response, e) ↦ (
          response,
          e,
          parse_response_sound (trim (lossy response)) result (ground (arith, e, said)),
        )
        | inr (x, e) ↦ absurd (ground (arith, e, said))
      ]

-- The failures are those of a connection that clamd has closed.
abbrev pub IsClosing : Write → Type 0
IsClosing Write.taken = Unit
IsClosing (Write.failed e n) = is_connection_closed e ≡ true

abbrev pub IsOk : Result ErrorKind Bytes → Type 0
IsOk (ok bytes) = Unit
IsOk (err e) = ⊥

-- A write goes on with such writes to come, or fails at a closed connection.
abbrev Goes : Result ErrorKind (Unit {0}) × Conn → Type 0
Goes (r, conn) = elim r [ ok u ↦ All IsClosing conn.writes | err e ↦ is_connection_closed e ≡ true ]

write_all-Goes :
    (bytes sent : Bytes) (writes : List Write)
    → All IsClosing writes
    → Goes (write_all bytes (record { sent = sent; writes = writes }))
unfolding write_all
write_all-Goes bytes sent [] h = tt
write_all-Goes bytes sent (Write.taken ∷ ws) h = h.1
write_all-Goes bytes sent (Write.failed e n ∷ ws) h = h.0

after_size :
    (q : Result ErrorKind (Unit {0}) × Conn) (chunk : Bytes)
    → Goes q
    → Goes (elim q.0 [ err e ↦ (err e, q.1) | ok u ↦ write_all chunk q.1 ])
after_size (ok u, conn) chunk h = write_all-Goes chunk conn.sent conn.writes h
after_size (err e, conn) chunk h = h

write_chunk-Goes :
    (chunk : Bytes) (conn : Conn) → All IsClosing conn.writes → Goes (write_chunk chunk conn)
unfolding write_chunk
write_chunk-Goes chunk conn h =
    let size = be_bytes 4 (length chunk % 2 ^ 32) in
    after_size (write_all size conn) chunk (write_all-Goes size conn.sent conn.writes h)

abbrev next :
    List (Result ErrorKind Bytes)
    → Result ErrorKind (Unit {0}) × Conn
    → Result ErrorKind (Unit {0}) × Conn
next reads (r, conn') = elim r [
  | ok u ↦ stream reads conn'
  | err e ↦ (if is_connection_closed e then ok tt else err e, conn')
]

next-ok :
    (reads : List (Result ErrorKind Bytes)) (q : Result ErrorKind (Unit {0}) × Conn)
    → ((conn : Conn) → All IsClosing conn.writes → (stream reads conn).0 ≡ ok tt)
    → Goes q
    → (next reads q).0 ≡ ok tt
next-ok reads (ok u, conn) rest h = rest conn h
next-ok reads (err e, conn) rest h = rw h

stream-ok :
    (reads : List (Result ErrorKind Bytes)) (conn : Conn)
    → All IsOk reads
    → All IsClosing conn.writes
    → (stream reads conn).0 ≡ ok tt
unfolding stream
stream-ok [] conn reads_ok h = refl
stream-ok (err e ∷ reads) conn reads_ok h = absurd reads_ok.0
stream-ok (ok [] ∷ reads) conn reads_ok h = refl
stream-ok (ok (b ∷ bs) ∷ reads) conn reads_ok h =
    next-ok reads (write_chunk (b ∷ bs) conn) (λ c g. stream-ok reads c reads_ok.1 g)
      (write_chunk-Goes (b ∷ bs) conn h)

-- Where the connection, the first write and the opening and the reads of the file succeed, and no write
-- fails but at a connection that clamd has closed, the result is what the response says, however little
-- of the file was taken.
pub scan_file-closed :
    (lossy : Bytes → Bytes) (calls : Calls) (writes : List Write)
    → calls.connected ≡ none
    → calls.writes ≡ Write.taken ∷ writes
    → All IsClosing writes
    → calls.opened ≡ none
    → All IsOk calls.reads
    → (scan_file lossy calls).0 ≡ verdict lossy calls
unfolding scan_file send_file finish write_all
scan_file-closed lossy calls writes connected taken closing opened reads_ok =
    let conn : Conn = record { sent = magic; writes = writes } in
    ground (arith, connected, taken, opened, stream-ok calls.reads conn reads_ok closing)
