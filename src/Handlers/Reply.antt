-- ===== src/Handlers/Reply.antt =====
-- Responses, their texts and the settings of src/handlers.rs. `show_status` is the display of a status
-- code, the http library's.
use filehost.Base.{
  ℕ, Bool, Option, none, some, List, [], ◌∷◌, ◌++◌, Bytes, ascii, ◌==◌, if◌then◌else◌,
}
use filehost.Db.Model.{Score}

-- The fields of `Settings` (src/settings.rs) that the handlers read.
pub record Settings : Type 0 where
  pub base_url : Option Bytes
  pub min_id_length : ℕ
  pub max_id_length : ℕ
  pub max_ext_len : ℕ
  pub auto_file_ext : Bool
  pub nsfw_threshold : Score
  pub max_uploads_per_day : Option ℕ
  pub max_bytes_per_day : Option ℕ
  pub dedup : Bool
  pub ban_cache_ttl_seconds : ℕ
  pub pow_difficulty : ℕ
  pub pow_challenge_ttl_seconds : ℕ
  pub challenge_verified_ttl_seconds : ℕ

pub data ContentType : Type 0 where
  plaintext html : ContentType

pub record Response : Type 0 where
  pub status : ℕ
  pub content_type : ContentType
  pub body : Bytes

module _ (show_status : ℕ → Bytes) where
  unfoldable pub error_page : ℕ → Bytes → Response
  error_page status message = record {
    status = status;
    content_type = ContentType.plaintext;
    body = show_status status ++ ascii " " ++ message;
  }

  abbrev pub internal_err : Response
  internal_err = error_page 500 (ascii "Something went wrong.")

-- `str::replace` of one character.
unfoldable pub replace : ℕ → Bytes → Bytes → Bytes
replace c by [] = []
replace c by (x ∷ xs) = let rest = replace c by xs in if x == c then (by ++ rest) else (x ∷ rest)

unfoldable pub escape_html : Bytes → Bytes
escape_html s = replace 39 (ascii "&#039;") (
    replace 34 (ascii "&quot;")
      (replace 62 (ascii "&gt;") (replace 60 (ascii "&lt;") (replace 38 (ascii "&amp;") s))))

unfoldable pub captcha_url : Settings → Bytes
captcha_url settings = elim settings.base_url [
  | none ↦ ascii "/captcha"
  | some base ↦ base ++ ascii "captcha"
]

abbrev pub challenge_message : Bytes → Bytes
challenge_message action = ascii "Please verify you're not a script before " ++ action ++ ascii ":"

-- `<a href="url">text</a>`, as the formatted replies write it.
abbrev pub anchor : Bytes → Bytes
anchor url = ascii "<a href=\"" ++ url ++ ascii "\">" ++ escape_html url ++ ascii "</a></pre>\n"

unfoldable pub challenge_required_response : (ℕ → Bytes) → Settings → Bytes → Bool → Response
challenge_required_response show_status settings action formatted =
    if formatted
    then (record {
      status = 428;
      content_type = ContentType.html;
      body =
          ascii "<pre>" ++ challenge_message action ++ ascii " " ++ anchor (captcha_url settings);
    })
    else error_page show_status 428 (challenge_message action ++ ascii " " ++ captcha_url settings)

-- The two loops of `format_links`.
abbrev pub links_html : List Bytes → Bytes
links_html [] = []
links_html (url ∷ urls) = ascii "<pre>Access your file here: " ++ anchor url ++ links_html urls

abbrev pub links_text : List Bytes → Bytes
links_text [] = []
links_text (url ∷ urls) = url ++ ascii "\n" ++ links_text urls

unfoldable pub format_links : List Bytes → Bool → Response
format_links links formatted =
    if formatted
    then (record { status = 200; content_type = ContentType.html; body = links_html links })
    else (record { status = 200; content_type = ContentType.plaintext; body = links_text links })
