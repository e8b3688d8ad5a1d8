-- ===== src/Handlers/Types.antt =====
-- The content types of src/handlers.rs. A `Mime` is what the mime library parsed: its text, lower case,
-- and the parts. `guess` is `mime_guess::from_path` with `first`.
use Prim.Native.String.{String}
use filehost.Base.{
  ℕ, Bool, not, ◌&&◌, ◌||◌, Option, none, some, Bytes, bytes_eq, ascii, if◌then◌else◌,
}

pub record Mime : Type 0 where
  pub text : Bytes
  pub type_ : Bytes
  pub subtype : Bytes

abbrev pub octet_stream : Bytes
octet_stream = ascii "application/octet-stream"

abbrev pub is_octet_stream : Mime → Bool
is_octet_stream m = bytes_eq m.text octet_stream

abbrev pub is_type : String → Mime → Bool
is_type name m = bytes_eq m.type_ (ascii name)

abbrev pub is_subtype : String → Mime → Bool
is_subtype name m = bytes_eq m.subtype (ascii name)

-- `HashedTempFile`, without the file.
pub record HashedTempFile : Type 0 where
  pub content_type : Option Mime
  pub detected_content_type : Option Mime
  pub file_name : Option Bytes
  pub size : ℕ
  pub hash : Bytes

-- The second part of `determine_content_type`.
abbrev pub guessed : Option Mime → Bytes × Option Bytes
guessed none = (octet_stream, none)
guessed (some m) = (m.text, some m.subtype)

unfoldable pub determine_content_type :
    (Bytes → Option Mime) → HashedTempFile → Bytes → Bytes × Option Bytes
determine_content_type guess file original_name = elim file.content_type [
  | none ↦ guessed (guess original_name)
  | some ct ↦
      if not (is_octet_stream ct) then (ct.text, some ct.subtype) else guessed (guess original_name)
]

unfoldable pub reconcile_content_type_for_db : Option Mime → Bytes → Bytes
reconcile_content_type_for_db none content_type_str = content_type_str
reconcile_content_type_for_db (some detected) content_type_str =
    if not (is_type "text" detected) && not (is_octet_stream detected)
    then detected.text
    else if is_type "text" detected && bytes_eq content_type_str octet_stream
    then ascii "text/plain"
    else content_type_str

pub data DispositionType : Type 0 where
  inline attachment : DispositionType

-- The two matches of `get_file` on the stored type.
unfoldable pub disposition : Mime → DispositionType
disposition m =
    if is_type "image" m || is_type "video" m || is_type "audio" m
    then DispositionType.inline
    else if is_type "text" m && is_subtype "plain" m
    then DispositionType.inline
    else if is_type "application" m && (is_subtype "json" m || is_subtype "pdf" m)
    then DispositionType.inline
    else DispositionType.attachment

abbrev pub text_plain : Mime
text_plain = record { text = ascii "text/plain"; type_ = ascii "text"; subtype = ascii "plain" }

unfoldable pub serve_mime : Mime → Mime
serve_mime m = if is_type "text" m && not (is_subtype "plain" m) then text_plain else m
