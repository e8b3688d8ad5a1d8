-- ===== src/Intake/Received.antt =====
-- What an uploaded file that was read is (src/upload.rs).
use mathlib.Core.Path.{ap, subst}
use mathlib.Core.List.{append-nil, append_assoc}
use filehost.Base.{
  ℕ, ◌+◌, ◌≤◌, ◌≡◌, sym, ◌∙◌, inl, inr, Bool, true, Option, some, List, [], ◌∷◌, ◌++◌, All, length,
  length-append, Bytes, Option-cases, arith,
}
use filehost.Base.Results.{Result, ok, Result-cases}
use filehost.Ip.Addr.{IpAddr}
use filehost.Throttle.Bucket.{Limit, Buckets}
use filehost.Handlers.Types.{Mime, HashedTempFile}
use filehost.Intake.Sniff.{TypeLibrary, detect_content_type}
use filehost.Intake.Reader.{
  Chunk, FieldError, Reading, Files, take_chunk, read_chunk, read_chunks, hashed_file, close_field,
  read_field,
}

-- The bytes of the chunks, up to a failure of the stream.
abbrev pub content : List Chunk → Bytes
content [] = []
content (Chunk.broken ∷ cs) = []
content (Chunk.data_ bytes now writable ∷ cs) = bytes ++ content cs

-- A chunk that came and that the file took.
abbrev pub IsWhole : Chunk → Type 0
IsWhole Chunk.broken = ⊥
IsWhole (Chunk.data_ bytes now writable) = writable ≡ true

module _ (limit : Option Limit) (ip : Option IpAddr) (consume : ℕ → ℕ → Option ℕ)
    (consumes : (n left left' : ℕ) → consume n left ≡ some left' → left' + n ≡ left) where
  -- What a chunk that is taken adds.
  record Took (bytes : Bytes) (st st' : Reading) : Type 0 where
    hashed : st'.hashed ≡ st.hashed ++ bytes
    written : st'.written ≡ st.written ++ bytes
    size : st'.size ≡ st.size + length bytes
    left : st'.remaining + length bytes ≡ st.remaining

  Took-nil : (st : Reading) → Took [] st st
  Took-nil st = record {
    hashed = sym (append-nil st.hashed);
    written = sym (append-nil st.written);
    size = omega arith;
    left = omega arith;
  }

  Took-append : (a b : Bytes) (r s t : Reading) → Took a r s → Took b s t → Took (a ++ b) r t
  Took-append a b r s t x y = record {
    hashed = y.hashed ∙ ap (λ l. l ++ b) x.hashed ∙ append_assoc r.hashed a b;
    written = y.written ∙ ap (λ l. l ++ b) x.written ∙ append_assoc r.written a b;
    size = omega (arith, x.size, y.size, length-append a b);
    left = omega (arith, x.left, y.left, length-append a b);
  }

  read_chunk-Took :
      (bytes : Bytes) (now : ℕ) (writable : Bool) (st : Reading)
      → (read_chunk limit ip consume (Chunk.data_ bytes now writable) st).0 ≡ ok tt
      → Took bytes st (read_chunk limit ip consume (Chunk.data_ bytes now writable) st).1
  unfolding read_chunk take_chunk
  read_chunk-Took bytes now writable st h =
      elim (Option-cases (consume (length bytes) st.remaining)) [
        | inl e ↦ absurd (ground (arith, e))
        | inr (left, e) ↦ ground (arith, e, consumes (length bytes) st.remaining left e)
      ]

  read_chunk-IsWhole :
      (c : Chunk) (st : Reading) → (read_chunk limit ip consume c st).0 ≡ ok tt → IsWhole c
  unfolding read_chunk take_chunk
  read_chunk-IsWhole Chunk.broken st h = absurd (ground arith)
  read_chunk-IsWhole (Chunk.data_ bytes now writable) st h =
      elim (Option-cases (consume (length bytes) st.remaining)) [
        | inl e ↦ absurd (ground (arith, e))
        | inr (left, e) ↦ ground (arith, e)
      ]

  read_chunks-step :
      (c : Chunk) (cs : List Chunk) (st : Reading)
      → (read_chunks limit ip consume (c ∷ cs) st).0 ≡ ok tt
      → let q = read_chunk limit ip consume c st in
        (q.0 ≡ ok tt)
        × (read_chunks limit ip consume (c ∷ cs) st ≡ read_chunks limit ip consume cs q.1)
  unfolding read_chunks
  read_chunks-step c cs st h = elim (Result-cases (read_chunk limit ip consume c st).0) [
    | inl (u, e) ↦ (e, ground (arith, e))
    | inr (x, e) ↦ absurd (ground (arith, e))
  ]

  read_chunks-Took :
      (cs : List Chunk) (st : Reading)
      → (read_chunks limit ip consume cs st).0 ≡ ok tt
      → All IsWhole cs × Took (content cs) st (read_chunks limit ip consume cs st).1
  unfolding read_chunks
  read_chunks-Took [] st h = (tt, Took-nil st)
  read_chunks-Took (Chunk.broken ∷ cs) st h =
      absurd (read_chunk-IsWhole Chunk.broken st (read_chunks-step Chunk.broken cs st h).0)
  read_chunks-Took (Chunk.data_ bytes now writable ∷ cs) st h =
      let c = Chunk.data_ bytes now writable in
      let (e, same) = read_chunks-step c cs st h in
      let st' = (read_chunk limit ip consume c st).1 in
      let (whole, took) = read_chunks-Took cs st' (sym (ap (λ q. q.0) same) ∙ h) in
      (
        (read_chunk-IsWhole c st e, whole),
        subst (Took (bytes ++ content cs) st) (sym (ap (λ q. q.1) same)) (
            Took-append bytes (content cs) st st' _ (read_chunk-Took bytes now writable st e) took),
      )

  module _ (types : TypeLibrary) (blake3 : Bytes → Bytes) (content_type : Option Mime)
      (file_name ext : Option Bytes) (files : Files) (cs : List Chunk) (remaining : ℕ)
      (buckets : Buckets) (f : HashedTempFile) (bytes : Bytes) where
    abbrev start : Reading
    start = record {
      hashed = [];
      written = [];
      size = 0;
      remaining = remaining;
      buckets = buckets;
      time = 0;
    }

    abbrev last : Result FieldError (Unit {0}) × Reading
    last = read_chunks limit ip consume cs start

    -- What a field that is read rests on.
    read_field-last :
        (read_field limit ip consume types blake3 content_type file_name ext files cs remaining
            buckets).0
          ≡ ok (f, bytes)
        → (last.0 ≡ ok tt)
          × (hashed_file limit ip consume types blake3 content_type file_name ext last.1 ≡ f)
          × (last.1.written ≡ bytes)
    unfolding read_field close_field
    read_field-last h = ground arith

    -- Where the limits count down by what they let through: a field that is read is the chunks of its
    -- stream in order, every one of which came whole and was written; the recorded size, hash and detected
    -- type are those of these bytes, and there are no more of them than the limits left.
    pub read_field-ok :
        (read_field limit ip consume types blake3 content_type file_name ext files cs remaining
            buckets).0
          ≡ ok (f, bytes)
        → All IsWhole cs
          × (bytes ≡ content cs)
          × (f.size ≡ length bytes)
          × (f.hash ≡ blake3 bytes)
          × (f.detected_content_type ≡ detect_content_type types (some bytes) ext)
          × (length bytes ≤ remaining)
    read_field-ok h =
        let (done, same_file, same_bytes) = read_field-last h in
        let (whole, took) = read_chunks-Took cs start done in
        (
          whole,
          sym same_bytes ∙ took.written,
          sym (ap (λ (g : HashedTempFile). g.size) same_file)
              ∙ omega (arith, took.size, ap length (sym same_bytes ∙ took.written)),
          sym (ap (λ (g : HashedTempFile). g.hash) same_file)
              ∙ ap blake3 (took.hashed ∙ sym took.written ∙ same_bytes),
          sym (ap (λ (g : HashedTempFile). g.detected_content_type) same_file)
              ∙ ap (λ b. detect_content_type types (some b) ext) same_bytes,
          omega (arith, took.left, ap length (sym same_bytes ∙ took.written)),
        )
