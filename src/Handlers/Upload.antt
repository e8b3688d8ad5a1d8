-- ===== src/Handlers/Upload.antt =====
-- `upload` (src/handlers.rs). The multipart form is given as it was read.
use filehost.Base.{
  ℕ, min, max, Bool, false, Option, none, some, List, [], ◌∷◌, ◌++◌, Bytes, ascii, contains, ltb,
  if◌then◌else◌,
}
use filehost.Base.Results.{Result, ok, err, Step}
use filehost.Ip.Addr.{IpAddr}
use filehost.Ip.Xff.{XffTrust, client_ip}
use filehost.Db.World.{World}
use filehost.Handlers.Reply.{Settings, Response, error_page, format_links}
use filehost.Handlers.Gates.{enforce_upload_gates}
use filehost.Handlers.Types.{HashedTempFile}
use filehost.Handlers.Process.{Libraries, Draw, Stop, process_file}

-- What the handlers read of a request: headers that are texts, and the socket's peer.
pub record Request : Type 0 where
  pub x_forwarded_for : Option Bytes
  pub peer_addr : Option IpAddr
  pub user_agent : Option Bytes
  pub accept : Option Bytes

-- `extract_ip` of src/upload.rs.
unfoldable pub extract_ip : (Bytes → Option IpAddr) → Request → XffTrust → Option IpAddr
extract_ip parse_ip req xff_trust = client_ip parse_ip req.x_forwarded_for req.peer_addr xff_trust

unfoldable pub wants_html : Request → Bool
wants_html req = elim req.accept [ none ↦ false | some v ↦ contains (ascii "text/html") v ]

-- `UploadForm`; each file stands with what its run draws from outside.
pub record UploadForm : Type 0 where
  pub files : List (HashedTempFile × Draw)
  pub id_length : Option ℕ
  pub keep_name : Bool

-- What a handler ends with.
pub data Outcome : Type 0 where
  respond : Response → Outcome
  panic : Outcome
  unfinished : Outcome

abbrev pub stopped : Stop → Outcome
stopped (Stop.reply r) = Outcome.respond r
stopped Stop.panic = Outcome.panic
stopped Stop.unfinished = Outcome.unfinished

-- `clamp`, which panics on an empty range.
unfoldable pub clamp : ℕ → ℕ → ℕ → Option ℕ
clamp n low high = if ltb high low then none else some (min (max n low) high)

-- The length of the random part: the form's, clamped, or else the least.
unfoldable pub id_len : Settings → UploadForm → Option ℕ
id_len settings form = elim form.id_length [
  | none ↦ some settings.min_id_length
  | some n ↦ clamp n settings.min_id_length settings.max_id_length
]

module _ (lib : Libraries) (settings : Settings) (xff_trust : XffTrust) where
  -- The loop over the form's files, with the links so far.
  unfoldable pub process_files :
      List (HashedTempFile × Draw)
      → IpAddr
      → Option Bytes
      → ℕ
      → Bool
      → List Bytes
      → Step World Stop (List Bytes)
  process_files [] ip ua len keep links w = (ok links, w)
  process_files ((file, draw) ∷ files) ip ua len keep links w =
      let (r, w') = process_file lib settings draw file ip ua len keep w in
      elim r [
        | ok link ↦ process_files files ip ua len keep (links ++ (link ∷ [])) w'
        | err stop ↦ (err stop, w')
      ]

  unfoldable pub process_form : UploadForm → IpAddr → Option Bytes → Bool → World → Outcome × World
  process_form form ip ua formatted w = elim (id_len settings form) [
    | none ↦ (Outcome.panic, w)
    | some len ↦
        let (r, w') = process_files form.files ip ua len form.keep_name [] w in
        elim r [
          | ok links ↦ (Outcome.respond (format_links links formatted), w')
          | err stop ↦ (stopped stop, w')
        ]
  ]

  -- `upload`: `form` is what reading the body gives, or the response for a malformed one.
  unfoldable pub upload : Request → Result Response UploadForm → World → Outcome × World
  upload req form w = elim (extract_ip lib.parse_ip req xff_trust) [
    | none ↦ (
      Outcome.respond
          (error_page lib.show_status 500 (ascii "Could not determine your IP address.")),
      w,
    )
    | some ip ↦
        let (gate, w') =
          enforce_upload_gates lib.show_status lib.collate lib.lower lib.to_lowercase settings
            (some ip) req.user_agent (wants_html req) w in
        elim gate [
          | err resp ↦ (Outcome.respond resp, w')
          | ok u ↦ elim form [
            | err resp ↦ (Outcome.respond resp, w')
            | ok f ↦ process_form f ip req.user_agent (wants_html req) w'
          ]
        ]
  ]
