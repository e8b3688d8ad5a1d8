-- ===== src/Clamd.antt =====
-- The protocol of src/clamd.rs: `scan_file` over a connection. What the calls of the operating system
-- answer is an argument, so every way in which they fail is covered.
pub mod Framed
pub mod Verdicts
mod Tests
use filehost.Base.{
  ℕ, ◌%◌, ◌^◌, Bool, true, false, ◌||◌, Option, none, some, List, [], ◌∷◌, ◌++◌, reverse, length,
  take, Bytes, bytes_eq, ascii, strip_prefix, trim, ◌==◌, if◌then◌else◌,
}
use filehost.Base.Results.{Result, ok, err}
use filehost.Ip.Addr.{be_bytes}
use filehost.Handlers.Scans.{ScanResult}

-- `io::ErrorKind`: the two kinds of a connection that was closed, and the others.
pub data ErrorKind : Type 0 where
  broken_pipe connection_reset other : ErrorKind

unfoldable pub is_connection_closed : ErrorKind → Bool
is_connection_closed ErrorKind.broken_pipe = true
is_connection_closed ErrorKind.connection_reset = true
is_connection_closed ErrorKind.other = false

-- `io::Error`: of a call, or with the scanner's text.
pub data ScanError : Type 0 where
  io : ErrorKind → ScanError
  reported unexpected : Bytes → ScanError

-- The result of a write: it is taken, or it fails after a number of its bytes went out.
pub data Write : Type 0 where
  taken : Write
  failed : ErrorKind → ℕ → Write

-- What has been sent so far, and the results of the writes to come; behind the list's end a write is
-- taken.
pub record Conn : Type 0 where
  pub sent : Bytes
  pub writes : List Write

unfoldable pub write_all : Bytes → Conn → Result ErrorKind (Unit {0}) × Conn
write_all bytes conn = elim conn.writes [
  | [] ↦ (ok tt, record conn { sent = conn.sent ++ bytes })
  | w ∷ rest ↦ elim w [
    | taken ↦ (ok tt, record { sent = conn.sent ++ bytes; writes = rest })
    | failed e n ↦ (err e, record { sent = conn.sent ++ take n bytes; writes = rest })
  ]
]

-- `strip_suffix` and `ends_with`.
abbrev pub strip_suffix : Bytes → Bytes → Option Bytes
strip_suffix p s = elim (strip_prefix (reverse p) (reverse s)) [
  | none ↦ none
  | some r ↦ some (reverse r)
]

abbrev pub ends_with : Bytes → Bytes → Bool
ends_with p s = elim (strip_suffix p s) [ none ↦ false | some _ ↦ true ]

-- The two writes of one chunk: its length as four bytes, and the bytes.
unfoldable pub write_chunk : Bytes → Conn → Result ErrorKind (Unit {0}) × Conn
write_chunk chunk conn =
    let (r, conn') = write_all (be_bytes 4 (length chunk % 2 ^ 32)) conn in
    elim r [ err e ↦ (err e, conn') | ok u ↦ write_all chunk conn' ]

-- The loop `'stream`, over the reads of the file: behind the list's end, and at a read of no bytes, it
-- breaks. It breaks at a write to a closed connection too, and returns any other error.
unfoldable pub stream : List (Result ErrorKind Bytes) → Conn → Result ErrorKind (Unit {0}) × Conn
stream [] conn = (ok tt, conn)
stream (err e ∷ reads) conn = (err e, conn)
stream (ok [] ∷ reads) conn = (ok tt, conn)
stream (ok (b ∷ bs) ∷ reads) conn =
    let (r, conn') = write_chunk (b ∷ bs) conn in
    elim r [
      | ok u ↦ stream reads conn'
      | err e ↦ (if is_connection_closed e then ok tt else err e, conn')
    ]

-- The reading of the response: the bytes that arrive, and then the end of the file or an error.
unfoldable pub read_response : Bytes → Option ErrorKind → Result ErrorKind Bytes
read_response [] none = ok []
read_response [] (some e) = if is_connection_closed e then ok [] else err e
read_response (b ∷ bs) last =
    let rest = read_response bs last in
    if (b == 0) || (b == 10) then ok [] else elim rest [ ok s ↦ ok (b ∷ s) | err e ↦ err e ]

-- The match on the trimmed response.
unfoldable pub parse_response : Bytes → Result ScanError ScanResult
parse_response response =
    let name : Option Bytes = elim (strip_prefix (ascii "stream: ") response) [
      | none ↦ none
      | some s ↦ strip_suffix (ascii " FOUND") s
    ] in
    if bytes_eq response (ascii "stream: OK") then ok ScanResult.clean else elim name [
      | some n ↦ ok (ScanResult.infected n)
      | none ↦
          if ends_with (ascii " ERROR") response
          then err (ScanError.reported response)
          else err (ScanError.unexpected response)
    ]

-- What the calls of one scan answer, in their order: the connection, the writes, the opening of the
-- file, its reads, the bytes of the response, and how its reading ends.
pub record Calls : Type 0 where
  pub connected : Option ErrorKind
  pub writes : List Write
  pub opened : Option ErrorKind
  pub reads : List (Result ErrorKind Bytes)
  pub answer : Bytes
  pub last : Option ErrorKind

abbrev pub magic : Bytes
magic = ascii "zINSTREAM" ++ (0 ∷ [])

-- `String::from_utf8_lossy` is the standard library's.
module _ (from_utf8_lossy : Bytes → Bytes) where
  -- What the response says.
  unfoldable pub verdict : Calls → Result ScanError ScanResult
  verdict calls = elim (read_response calls.answer calls.last) [
    | err e ↦ err (ScanError.io e)
    | ok response ↦ parse_response (trim (from_utf8_lossy response))
  ]

  -- After the loop: the terminator, whose failure is ignored, and the response.
  unfoldable pub finish : Calls → Conn → Result ScanError ScanResult × Conn
  finish calls conn = (verdict calls, (write_all (0 ∷ 0 ∷ 0 ∷ 0 ∷ []) conn).1)

  abbrev pub io_error : ErrorKind → Conn → Result ScanError ScanResult × Conn
  io_error e conn = (err (ScanError.io e), conn)

  -- The part from the opening of the file on.
  unfoldable pub send_file : Calls → Conn → Result ScanError ScanResult × Conn
  send_file calls conn = elim calls.opened [
    | some e ↦ io_error e conn
    | none ↦
        let (r, conn') = stream calls.reads conn in
        elim r [ err e ↦ io_error e conn' | ok u ↦ finish calls conn' ]
  ]

  -- `scan_file`, with all that was sent.
  unfoldable pub scan_file : Calls → Result ScanError ScanResult × Conn
  scan_file calls =
      let conn : Conn = record { sent = []; writes = calls.writes } in
      elim calls.connected [
        | some e ↦ io_error e conn
        | none ↦
            let (r, conn') = write_all magic conn in
            elim r [ err e ↦ io_error e conn' | ok u ↦ send_file calls conn' ]
      ]
