-- ===== src/Handlers/Slug.antt =====
-- `sanitize_filename_stem` and `build_slug` (src/upload.rs), `allocate_unique_slug`
-- (src/handlers.rs). A text is the list of its characters; `file_stem`, `extension` and
-- `is_alphanumeric` are the standard library's.
use filehost.Base.{
  ℕ, zero, suc, ◌+◌, ◌/◌, Bool, true, false, not, ◌&&◌, ◌||◌, Option, none, some, [], ◌∷◌, ◌++◌,
  map, Bytes, ascii, leb, ltb, ◌==◌, if◌then◌else◌,
}
use filehost.Base.Results.{ok, err}
use filehost.Db.World.{World, DbError}
use filehost.Db.Uploads.{is_slug_taken}

-- `str::len`: the bytes of the UTF-8 form.
abbrev pub char_len : ℕ → ℕ
char_len c = if ltb c 128 then 1 else (if ltb c 2048 then 2 else (if ltb c 65536 then 3 else 4))

abbrev pub str_len : Bytes → ℕ
str_len [] = 0
str_len (c ∷ cs) = char_len c + str_len cs

abbrev pub is_empty : Bytes → Bool
is_empty [] = true
is_empty (c ∷ cs) = false

-- What `Path` and `char` say of a name.
pub record Names : Type 0 where
  pub file_stem : Bytes → Option Bytes
  pub extension : Bytes → Option Bytes
  pub is_alphanumeric : ℕ → Bool

module _ (names : Names) where
  unfoldable pub sanitize_char : ℕ → ℕ
  sanitize_char c = if names.is_alphanumeric c || (c == 46) || (c == 95) || (c == 45) then c else 95

  unfoldable pub sanitize_filename_stem : Bytes → Bytes
  sanitize_filename_stem name = elim (names.file_stem name) [
    | none ↦ []
    | some stem ↦ map sanitize_char stem
  ]

  -- The filter on an extension.
  abbrev pub fitting : ℕ → Option Bytes → Option Bytes
  fitting max_ext_len none = none
  fitting max_ext_len (some e) =
      if not (is_empty e) && leb (str_len e) max_ext_len then some e else none

  unfoldable pub slug_ext : Bytes → Option Bytes → Bool → ℕ → Option Bytes
  slug_ext original_name subtype auto_ext max_ext_len =
      elim (fitting max_ext_len (names.extension original_name)) [
        | none ↦ if auto_ext then fitting max_ext_len subtype else none
        | some e ↦ some e
      ]

  unfoldable pub slug_base : Bytes → Bytes → Bool → Bytes
  slug_base id original_name keep_name =
      let stem = sanitize_filename_stem original_name in
      if keep_name && not (is_empty stem) then (stem ++ ascii "_" ++ id) else id

  -- `build_slug`, with the random string given.
  unfoldable pub build_slug : Bytes → Bytes → Option Bytes → Bool → ℕ → Bool → Bytes
  build_slug id original_name subtype auto_ext max_ext_len keep_name =
      let base = slug_base id original_name keep_name in
      elim (slug_ext original_name subtype auto_ext max_ext_len) [
        | none ↦ base
        | some ext ↦ base ++ ascii "." ++ ext
      ]

-- What `allocate_unique_slug` came to; `searching` is a run that its fuel cut short.
pub data Search : Type 0 where
  found : Bytes → Search
  failed : DbError → Search
  searching : Search

abbrev pub max_slug_attempts : ℕ
max_slug_attempts = 3

module _ (collate : Bytes → Bytes) (candidate : ℕ → ℕ → Bytes) where
  -- The two loops of `allocate_unique_slug`: attempt `k`, with the id's length one more after every
  -- `MAX_SLUG_ATTEMPTS`. `candidate k len` is the slug that attempt `k` builds at that length.
  unfoldable pub attempts : ℕ → ℕ → ℕ → World → Search × World
  attempts zero k id_len w = (Search.searching, w)
  attempts (suc fuel) k id_len w =
      let slug = candidate k (id_len + k / max_slug_attempts) in
      let (r, w') = is_slug_taken collate slug w in
      let rest = attempts fuel (suc k) id_len w' in
      elim r [
        | ok taken ↦ if taken then rest else (Search.found slug, w')
        | err e ↦ (Search.failed e, w')
      ]

  unfoldable pub allocate_unique_slug : ℕ → ℕ → World → Search × World
  allocate_unique_slug fuel id_len w = attempts fuel 0 id_len w
