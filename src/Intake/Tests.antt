-- ===== src/Intake/Tests.antt =====
-- The reading of a small field.
use filehost.Base.{
  ℕ, ◌+◌, ◌-◌, ◌≤◌, ◌≡◌, refl, true, Option, none, some, List, [], ◌∷◌, All, length, ascii, leb,
  if◌then◌else◌, arith,
}
use filehost.Base.Results.{ok}
use filehost.Handlers.Types.{HashedTempFile}
use filehost.Intake.Sniff.{FileType, TypeLibrary, detect_content_type}
use filehost.Intake.Reader.{
  Chunk, Files, read_field, close_field, read_chunks, read_chunk, take_chunk, pace_chunk,
}
use filehost.Intake.Received.{content, IsWhole, read_field-ok}

abbrev consume : ℕ → ℕ → Option ℕ
consume n left = if leb n left then some (left - n) else none

consume_counts : (n left left' : ℕ) → consume n left ≡ some left' → left' + n ≡ left
consume_counts n left left' h = ground arith

abbrev no_type : FileType
no_type = record { is_default = true; extensions = []; media_types = [] }

abbrev types : TypeLibrary
types = record {
  from_bytes = λ b. no_type;
  from_extension = λ b. none;
  guess_ext = λ b. none;
  parse_mime = λ b. none;
}

abbrev chunks : List Chunk
chunks = Chunk.data_ (ascii "ab") 0 true ∷ Chunk.data_ (ascii "c") 1 true ∷ []

abbrev file : HashedTempFile
file = record {
  content_type = none;
  detected_content_type = detect_content_type types (some (ascii "abc")) none;
  file_name = none;
  size = 3;
  hash = ascii "abc";
}

abbrev files : Files
files = record { opened = true; flushed = true }

is_read :
    (read_field none none consume types (λ b. b) none none none files chunks 10 []).0
    ≡ ok (file, ascii "abc")
unfolding read_field close_field read_chunks read_chunk take_chunk pace_chunk
is_read = refl

read_field-ok_example :
    All IsWhole chunks
    × (ascii "abc" ≡ content chunks)
    × (3 ≡ length (ascii "abc"))
    × (ascii "abc" ≡ ascii "abc")
    × (file.detected_content_type ≡ detect_content_type types (some (ascii "abc")) none)
    × (length (ascii "abc") ≤ 10)
read_field-ok_example =
    read_field-ok none none consume consume_counts types (λ b. b) none none none files chunks 10 []
      file (ascii "abc") is_read
