-- ===== src/Clamd/Tests.antt =====
-- Scans of small files.
use filehost.Base.{◌≡◌, refl, true, none, some, [], ◌∷◌, ◌++◌, Bytes, ascii, trim, arith}
use filehost.Base.Results.{ok}
use filehost.Handlers.Scans.{ScanResult}
use filehost.Clamd.{
  ErrorKind, Write, Calls, verdict, scan_file, read_response, is_connection_closed, write_all,
  send_file, stream, write_chunk, finish, parse_response,
}
use filehost.Clamd.Framed.{received, scan_file-received}
use filehost.Clamd.Verdicts.{Says, scan_file_sound, scan_file-closed}

abbrev lossy : Bytes → Bytes
lossy b = b

-- A file of three bytes, read in two parts, in which a virus is found.
abbrev calls : Calls
calls = record {
  connected = none;
  writes = [];
  opened = none;
  reads = ok (ascii "ab") ∷ ok (ascii "c") ∷ [];
  answer = ascii "stream: Eicar FOUND" ++ (0 ∷ []);
  last = none;
}

scan_file-received_example :
    (received (scan_file lossy calls).1.sent ≡ some (ascii "abc"))
    × ((scan_file lossy calls).0 ≡ verdict lossy calls)
scan_file-received_example =
    scan_file-received lossy calls (ascii "ab" ∷ ascii "c" ∷ []) refl refl refl refl
      ((omega arith, omega arith), ((omega arith, omega arith), tt))

found : (scan_file lossy calls).0 ≡ ok (ScanResult.infected (ascii "Eicar"))
unfolding scan_file write_all send_file stream write_chunk finish verdict read_response
    parse_response trim
found = refl

scan_file_sound_example :
    (response : Bytes) × (read_response calls.answer calls.last ≡ ok response)
    × Says (trim (lossy response)) (ScanResult.infected (ascii "Eicar"))
scan_file_sound_example = scan_file_sound lossy calls (ScanResult.infected (ascii "Eicar")) found

-- The scanner closes the connection at the first chunk.
abbrev closed : Calls
closed = record calls { writes = Write.taken ∷ Write.failed ErrorKind.broken_pipe 2 ∷ [] }

closes : is_connection_closed ErrorKind.broken_pipe ≡ true
unfolding is_connection_closed
closes = refl

scan_file-closed_example : (scan_file lossy closed).0 ≡ verdict lossy closed
scan_file-closed_example =
    scan_file-closed lossy closed (Write.failed ErrorKind.broken_pipe 2 ∷ []) refl refl (closes, tt)
      refl (tt, (tt, tt))
