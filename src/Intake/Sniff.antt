-- ===== src/Intake/Sniff.antt =====
-- The path of a stored file and the type of a file's content (src/upload.rs). The type database and
-- the guess by an extension are the libraries'.
use filehost.Base.{
  ℕ, Bool, not, ◌&&◌, Option, none, some, List, [], ◌∷◌, length, take, drop, Bytes, bytes_eq,
  starts_with, contains, ascii, if◌then◌else◌,
}
use filehost.Handlers.Types.{Mime, is_octet_stream}

-- `root/ab/cd/abcd…`, of the text of a UUID.
unfoldable pub uuid_to_path : (ℕ → Bytes) → Bytes → ℕ → List Bytes
uuid_to_path show_uuid root uuid =
    let name = show_uuid uuid in root ∷ take 2 name ∷ take 2 (drop 2 name) ∷ name ∷ []

-- `bytes.get(from..to).is_some_and(|w| w == word)`, for a word as long as the range.
abbrev pub has_at : ℕ → Bytes → Bytes → Bool
has_at from word bytes = bytes_eq (take (length word) (drop from bytes)) word

-- The text of the type that `sniff_well_known` parses.
unfoldable pub sniff_well_known : Bytes → Option Bytes
sniff_well_known bytes =
    if starts_with (ascii "RIFF") bytes && has_at 8 (ascii "WEBP") bytes
    then some (ascii "image/webp")
    else if starts_with (0x1a ∷ 0x45 ∷ 0xdf ∷ 0xa3 ∷ []) bytes && contains (ascii "webm") bytes
    then some (ascii "video/webm")
    else if has_at 4 (ascii "ftyp") bytes
    then some (ascii "video/mp4")
    else none

-- `FileType`: an entry of the library's database.
pub record FileType : Type 0 where
  pub is_default : Bool
  pub extensions : List Bytes
  pub media_types : List Bytes

pub record TypeLibrary : Type 0 where
  pub from_bytes : Bytes → FileType
  pub from_extension : Bytes → Option FileType
  pub guess_ext : Bytes → Option Mime
  pub parse_mime : Bytes → Option Mime

-- `SNIFF_LIMIT`.
abbrev pub sniff_limit : ℕ
sniff_limit = 1024

module _ (types : TypeLibrary) where
  -- `find_map` over the extensions.
  unfoldable pub guess_first : List Bytes → Option Mime
  guess_first [] = none
  guess_first (ext ∷ exts) = elim (types.guess_ext ext) [
    | some m ↦ some m
    | none ↦ guess_first exts
  ]

  -- The first media type, unless it is the generic one.
  unfoldable pub first_media : List Bytes → Option Mime
  first_media [] = none
  first_media (s ∷ rest) = elim (types.parse_mime s) [
    | none ↦ none
    | some m ↦ if is_octet_stream m then none else some m
  ]

  unfoldable pub resolve_mime : FileType → Option Mime
  resolve_mime ft = elim (guess_first ft.extensions) [
    | some m ↦ some m
    | none ↦ first_media ft.media_types
  ]

  abbrev pub sniffed : Bytes → Option Mime
  sniffed bytes = elim (sniff_well_known bytes) [ none ↦ none | some s ↦ types.parse_mime s ]

  -- The entry of the path's extension, or else the one of the content.
  abbrev pub by_extension : FileType → Option Bytes → FileType
  by_extension by_content ext = elim ext [
    | none ↦ by_content
    | some e ↦ elim (types.from_extension e) [ none ↦ by_content | some ft ↦ ft ]
  ]

  -- `detect_content_type` of a file's content and its path's extension; a file that cannot be read
  -- has no content.
  unfoldable pub detect_content_type : Option Bytes → Option Bytes → Option Mime
  detect_content_type none ext = none
  detect_content_type (some content) ext =
      let bytes = take sniff_limit content in
      let by_content = types.from_bytes bytes in
      if not by_content.is_default then resolve_mime by_content else elim (sniffed bytes) [
        | some m ↦ some m
        | none ↦ resolve_mime (by_extension by_content ext)
      ]
