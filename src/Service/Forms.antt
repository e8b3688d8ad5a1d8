-- ===== src/Service/Forms.antt =====
-- A whole form (src/handlers.rs): its files are stored one after the other.
use mathlib.Core.Path.{subst}
use filehost.Base.{ℕ, ◌≡◌, refl, sym, Bool, Option, none, some, List, [], ◌∷◌, ◌++◌, Bytes}
use filehost.Base.Results.{Result, ok, err}
use filehost.Ip.Addr.{IpAddr}
use filehost.Ip.Xff.{XffTrust}
use filehost.Db.Model.{Upload}
use filehost.Db.World.{World}
use filehost.Handlers.Reply.{Settings, Response, format_links}
use filehost.Handlers.Types.{HashedTempFile}
use filehost.Handlers.Process.{Libraries, Draw, Stop, process_file}
use filehost.Handlers.Upload.{
  Request, UploadForm, Outcome, stopped, extract_ip, wants_html, process_files, process_form,
  upload, id_len,
}
use filehost.Service.Sound.{IsFree}
use filehost.Service.Guards.{enforce_upload_gates-Kept}
use filehost.Service.Leads.{Leads, Leads-case}
use filehost.Service.Added.{process_file-Leads}

abbrev pub Files : Type 0
Files = List (HashedTempFile × Draw)

-- The files that a form was read to have.
abbrev pub files_of : Result Response UploadForm → Files
files_of (ok form) = form.files
files_of (err resp) = []

-- `S fs` is what holds of the table while the files `fs` are still to come.
module _ (lib : Libraries) (settings : Settings) (xff_trust : XffTrust)
    (S : Files → List Upload → Type 0)
    (weaker : (file : HashedTempFile) (draw : Draw) (files : Files) (us : List Upload)
      → S ((file, draw) ∷ files) us
      → S files us)
    (append : (file : HashedTempFile) (draw : Draw) (files : Files) (us : List Upload) (r : Upload)
      → r.id ≡ draw.uuid
      → IsFree lib.collate r.slug us
      → S ((file, draw) ∷ files) us
      → S files (us ++ (r ∷ []))) where
  ended : (files : Files) (us : List Upload) → S files us → S [] us
  ended [] us h = h
  ended ((file, draw) ∷ files) us h = ended files us (weaker file draw files us h)

  process_files-Leads :
      (files : Files) (ip : IpAddr) (ua : Option Bytes) (len : ℕ) (keep : Bool) (links : List Bytes)
      → Leads (S files) (S []) (process_files lib settings xff_trust files ip ua len keep links)
  unfolding process_files
  process_files-Leads [] ip ua len keep links = record { after = λ w h. h }
  process_files-Leads ((file, draw) ∷ files) ip ua len keep links = record {
    after = λ w h.
        let (r, w') = process_file lib settings draw file ip ua len keep w in
        (Leads-case (S files) (S []) (ended files) r _
            (λ link. process_files-Leads files ip ua len keep (links ++ (link ∷ [])))).after
          w'
          ((process_file-Leads (S ((file, draw) ∷ files)) (S files) (weaker file draw files) lib
              settings draw file ip ua len keep (append file draw files)).after
            w h);
  }

  finished :
      (r : Result Stop (List Bytes)) (w : World) (formatted : Bool)
      → (elim r as (λ r. Outcome × World) [
        | ok links ↦ (Outcome.respond (format_links links formatted), w)
        | err stop ↦ (stopped stop, w)
      ]).1
        ≡ w
  finished (ok links) w formatted = refl
  finished (err stop) w formatted = refl

  pub process_form-Leads :
      (form : UploadForm) (ip : IpAddr) (ua : Option Bytes) (formatted : Bool)
      → Leads (S form.files) (S []) (process_form lib settings xff_trust form ip ua formatted)
  unfolding process_form
  process_form-Leads form ip ua formatted =
      let sure = ended form.files in
      elim (id_len settings form)
        as (λ o. Leads (S form.files) (S []) {X = Outcome} (λ w. elim o [
          | none ↦ (Outcome.panic, w)
          | some len ↦
              let (r, w') =
                process_files lib settings xff_trust form.files ip ua len form.keep_name [] w in
              elim r [
                | ok links ↦ (Outcome.respond (format_links links formatted), w')
                | err stop ↦ (stopped stop, w')
              ]
        ])) [
          | none ↦ record { after = λ w h. sure _ h }
          | some len ↦ record {
            after = λ w h.
                let (r, w') =
                  process_files lib settings xff_trust form.files ip ua len form.keep_name [] w in
                subst (λ v. S [] v.tables.uploads) (sym (finished r w' formatted))
                  ((process_files-Leads form.files ip ua len form.keep_name []).after w h);
          }
        ]

  gated :
      (gate : Result Response (Unit {0})) (form : Result Response UploadForm) (ip : IpAddr)
      (ua : Option Bytes) (formatted : Bool)
      → Leads (S (files_of form)) (S []) {X = Outcome} (λ w. elim gate [
        | err resp ↦ (Outcome.respond resp, w)
        | ok u ↦ elim form [
          | err resp ↦ (Outcome.respond resp, w)
          | ok f ↦ process_form lib settings xff_trust f ip ua formatted w
        ]
      ])
  gated (err resp) form ip ua formatted = record { after = λ w h. ended (files_of form) _ h }
  gated (ok u) (err resp) ip ua formatted = record { after = λ w h. h }
  gated (ok u) (ok form) ip ua formatted = process_form-Leads form ip ua formatted

  from :
      (o : Option IpAddr) (files : Files) (d : World → Outcome × World)
      (f : IpAddr → World → Outcome × World)
      → Leads (S files) (S []) d
      → ((ip : IpAddr) → Leads (S files) (S []) (f ip))
      → Leads (S files) (S []) {X = Outcome} (λ w. elim o [ none ↦ d w | some ip ↦ f ip w ])
  from none files d f k l = k
  from (some ip) files d f k l = l ip

  pub upload-Leads :
      (req : Request) (form : Result Response UploadForm)
      → Leads (S (files_of form)) (S []) (upload lib settings xff_trust req form)
  unfolding upload
  upload-Leads req form =
      from (extract_ip lib.parse_ip req xff_trust) (files_of form) _ _
        (record { after = λ w h. ended (files_of form) _ h })
        (λ ip. record {
          after = λ w h.
              let gates =
                enforce_upload_gates-Kept (S (files_of form)) lib.show_status lib.collate lib.lower
                  lib.to_lowercase settings (some ip) req.user_agent (wants_html req) in
              (gated _ form ip req.user_agent (wants_html req)).after _ (gates.after w h);
        })
