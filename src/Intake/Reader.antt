-- ===== src/Intake/Reader.antt =====
-- `read_field` of src/upload.rs: the loop over the chunks of a file's field. What the framework and the
-- file system answer is an argument: the chunks, `consume`, which is `Limits::try_consume_limits`, and
-- `Files`.
use filehost.Base.{
  ℕ, ◌+◌, Bool, Option, none, some, List, [], ◌∷◌, ◌++◌, length, Bytes, if◌then◌else◌,
}
use filehost.Base.Results.{Result, ok, err, Step}
use filehost.Ip.Addr.{IpAddr, normalize_for_quota}
use filehost.Throttle.Bucket.{Limit, Buckets, throttle}
use filehost.Handlers.Types.{Mime, HashedTempFile}
use filehost.Intake.Sniff.{TypeLibrary, detect_content_type}

-- What a call of `try_next` gives: the bytes of a chunk, when they came, and whether the file takes
-- them; or the stream fails.
pub data Chunk : Type 0 where
  data_ : Bytes → ℕ → Bool → Chunk
  broken : Chunk

-- Why a field is refused. `stuck` is the panic of the throttle on a rate of zero.
pub data FieldError : Type 0 where
  stream limits file stuck : FieldError

-- The loop's state: what the hasher and the file have, the size, what the form's limits leave, the
-- throttle's buckets, and the time at which the last chunk was let through.
pub record Reading : Type 0 where
  pub hashed : Bytes
  pub written : Bytes
  pub size : ℕ
  pub remaining : ℕ
  pub buckets : Buckets
  pub time : ℕ

-- Whether the temporary file can be made and flushed.
pub record Files : Type 0 where
  pub opened : Bool
  pub flushed : Bool

-- `throttle`, `rate` and `burst`, where there is a rate; the client's address; and the limits.
module _ (limit : Option Limit) (ip : Option IpAddr) (consume : ℕ → ℕ → Option ℕ) where
  -- The throttle, where there is a rate and an address: the time at which the loop goes on.
  unfoldable pub pace_chunk : ℕ → ℕ → Buckets → Option ℕ × Buckets
  pace_chunk now bytes buckets = elim limit [
    | none ↦ (some now, buckets)
    | some l ↦ elim ip [
      | none ↦ (some now, buckets)
      | some a ↦ throttle l now (normalize_for_quota a) bytes buckets
    ]
  ]

  -- The rest of the loop's body, from the throttle's answer on.
  unfoldable pub take_chunk : Bytes → Bool → Option ℕ → Step Reading FieldError (Unit {0})
  take_chunk bytes writable none st = (err FieldError.stuck, st)
  take_chunk bytes writable (some time) st =
      let st' : Reading = record st {
        size = st.size + length bytes;
        hashed = st.hashed ++ bytes;
        time = time;
      } in
      if writable
      then (ok tt, record st' { written = st.written ++ bytes })
      else (err FieldError.file, st')

  -- The body of the loop.
  unfoldable pub read_chunk : Chunk → Step Reading FieldError (Unit {0})
  read_chunk Chunk.broken st = (err FieldError.stream, st)
  read_chunk (Chunk.data_ bytes now writable) st = elim (consume (length bytes) st.remaining) [
    | none ↦ (err FieldError.limits, st)
    | some remaining ↦
        let (time, buckets) = pace_chunk now (length bytes) st.buckets in
        take_chunk bytes writable time (record st { remaining = remaining; buckets = buckets })
  ]

  unfoldable pub read_chunks : List Chunk → Step Reading FieldError (Unit {0})
  read_chunks [] st = (ok tt, st)
  read_chunks (c ∷ cs) st =
      let (r, st') = read_chunk c st in elim r [ err e ↦ (err e, st') | ok u ↦ read_chunks cs st' ]

  -- `read_field`: `ext` is the extension of the name. The result is the record with the content of its
  -- `file`; behind it are the buckets.
  module _ (types : TypeLibrary) (blake3 : Bytes → Bytes) (content_type : Option Mime)
      (file_name ext : Option Bytes) where
    abbrev pub hashed_file : Reading → HashedTempFile
    hashed_file st = record {
      content_type = content_type;
      detected_content_type = detect_content_type types (some st.written) ext;
      file_name = file_name;
      size = st.size;
      hash = blake3 st.hashed;
    }

    -- The part behind the loop.
    unfoldable pub close_field :
        Files
        → Result FieldError (Unit {0}) × Reading
        → Result FieldError (HashedTempFile × Bytes) × Buckets
    close_field files (r, st) = elim r [
      | err e ↦ (err e, st.buckets)
      | ok u ↦
          if files.flushed
          then (ok (hashed_file st, st.written), st.buckets)
          else (err FieldError.file, st.buckets)
    ]

    unfoldable pub read_field :
        Files → List Chunk → ℕ → Buckets → Result FieldError (HashedTempFile × Bytes) × Buckets
    read_field files chunks remaining buckets =
        let start : Reading = record {
          hashed = [];
          written = [];
          size = 0;
          remaining = remaining;
          buckets = buckets;
          time = 0;
        } in
        if files.opened
        then close_field files (read_chunks chunks start)
        else (err FieldError.file, buckets)
