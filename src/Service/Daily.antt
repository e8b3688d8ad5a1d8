-- ===== src/Service/Daily.antt =====
-- The number of uploads of a day (src/handlers.rs): the gate looks at it once for a whole form.
use mathlib.Core.Path.{ap, subst}
use filehost.Base.{
  ℕ, ◌+◌, ◌^◌, ◌≤◌, ◌<◌, ◌≡◌, refl, ◌∙◌, inl, inr, ◌⊎◌, Bool, true, false, Option, some, List, [],
  ◌∷◌, ◌++◌, filter, length, Bytes, Bool-cases, arith, leb-false, leb, ◌||◌,
}
use filehost.Base.Results.{Result, ok, Result-cases}
use filehost.Ip.Addr.{IpAddr}
use filehost.Ip.Xff.{XffTrust}
use filehost.Db.Model.{Upload, BanType}
use filehost.Db.World.{World}
use filehost.Db.Uploads.{in_quota, day, uploads_count_last_day}
use filehost.Handlers.Reply.{Settings, Response}
use filehost.Handlers.Gates.{reaches, enforce_upload_gates}
use filehost.Handlers.Admitted.{IsUnder, past_agent, enforce_upload_gates-ok}
use filehost.Handlers.Process.{Libraries}
use filehost.Handlers.Upload.{Request, UploadForm, extract_ip, wants_html, upload}
use filehost.Service.Guards.{
  agent_gate-Kept, check_not_banned-Kept, is_ip_banned-Kept, enforce_upload_gates-Kept,
}
use filehost.Service.Forms.{Files, files_of, upload-Leads}

-- The uploads of the quota range of an address in the day before a time.
abbrev pub day_count : IpAddr → ℕ → List Upload → ℕ
day_count ip now us = length (filter (in_quota ip now day) us)

filter-length_append :
    (q : Upload → Bool) (us : List Upload) (r : Upload)
    → length (filter q (us ++ (r ∷ []))) ≤ length (filter q us) + 1
filter-length_append q [] r = elim (Bool-cases (q r)) [
  | inl e ↦ rw e (omega arith)
  | inr e ↦ rw e (omega arith)
]
filter-length_append q (u ∷ us) r = elim (Bool-cases (q u)) [
  | inl e ↦ rw e (let ih = filter-length_append q us r in omega arith)
  | inr e ↦ rw e (filter-length_append q us r)
]

module _ (lib : Libraries) (settings : Settings) (xff_trust : XffTrust) (q : Upload → Bool)
    (bound : ℕ) where
  abbrev Room : Files → List Upload → Type 0
  Room files us = length (filter q us) + length files ≤ bound

  upload-Room :
      (req : Request) (form : Result Response UploadForm) (w : World)
      → Room (files_of form) w.tables.uploads
      → Room [] ((upload lib settings xff_trust req form w).1).tables.uploads
  upload-Room req form w h =
      (upload-Leads lib settings xff_trust Room (λ file draw files us r. omega arith)
          (λ file draw files us r e free room.
            let more = filter-length_append q us r in omega arith)
          req form).after
        w h

no_more : (a b : ℕ) → a + 0 ≤ b → a ≤ b
no_more a b h = omega arith

-- What the query answers, if it does, is the number of the uploads.
counted-at :
    (ip : IpAddr) (n : ℕ) (os : List Bool) (w : World)
    → (uploads_count_last_day ip (record w { outages = os })).0 ≡ ok n
    → n ≡ day_count ip w.now w.tables.uploads
unfolding uploads_count_last_day
counted-at ip n [] w h = ground (arith, h)
counted-at ip n (true ∷ os) w h = absurd (ground (arith, h))
counted-at ip n (false ∷ os) w h = ground (arith, h)

second : (a b : Bool) → (a || b) ≡ false → b ≡ true → ⊥
second true b h e = ground (arith, h)
second false b h e = ground (arith, h, e)

under : (limit n : ℕ) → reaches limit n ≡ false → n < limit
unfolding reaches
under limit n h = elim (Bool-cases (leb limit n)) [
  | inl e ↦ absurd (second (leb (2 ^ 63) limit) (leb limit n) h e)
  | inr e ↦ leb-false limit n e
]

module _ (lib : Libraries) (settings : Settings) (ip : IpAddr) (ua : Option Bytes) where
  -- The state in which the count gate looks.
  abbrev pub at_count : World → World
  at_count w = past_agent lib.show_status lib.collate lib.lower lib.to_lowercase settings ip ua w

  at_count-rows : (w : World) → (at_count w).tables.uploads ≡ w.tables.uploads
  at_count-rows w =
      let ttl = settings.ban_cache_ttl_seconds in
      let P : List Upload → Type 0 = λ us. us ≡ w.tables.uploads in
      let ban =
        check_not_banned-Kept P lib.show_status _ _
          (is_ip_banned-Kept P ttl ip BanType.read_only) in
      (agent_gate-Kept P lib.show_status lib.collate lib.lower lib.to_lowercase settings ua).after _
        (ban.after w refl)

  -- Past the gates the count was below the limit.
  passed-count :
      (formatted : Bool) (limit : ℕ) (w : World)
      → settings.max_uploads_per_day ≡ some limit
      → (enforce_upload_gates lib.show_status lib.collate lib.lower lib.to_lowercase settings
          (some ip)
          ua
          formatted
          w).0
        ≡ ok tt
      → day_count ip (at_count w).now w.tables.uploads < limit
  passed-count formatted limit w limited e =
      let (answered, allowed, counted, bytes, easy) =
        enforce_upload_gates-ok lib.show_status lib.collate lib.lower lib.to_lowercase settings ip
          ua formatted w e in
      let asked = uploads_count_last_day ip (at_count w) in
      let (n, ans, low) = subst (λ o. IsUnder lib.show_status o asked.0) limited counted in
      let same : n ≡ day_count ip (at_count w).now w.tables.uploads =
        counted-at ip n (at_count w).outages (at_count w) ans
        ∙ ap (day_count ip (at_count w).now) (at_count-rows w) in
      subst (λ m. m < limit) same (under limit n low)

-- Take a limit on a day's uploads, and a client whose address is known. An upload leaves the table as it
-- is, or the address's uploads of the day before the check were fewer than the limit, and the upload adds
-- at most one for each file of its form.
pub upload-day_count :
    (lib : Libraries) (settings : Settings) (xff_trust : XffTrust) (req : Request)
    (form : Result Response UploadForm) (w : World) (ip : IpAddr) (limit : ℕ)
    → extract_ip lib.parse_ip req xff_trust ≡ some ip
    → settings.max_uploads_per_day ≡ some limit
    → let now = (at_count lib settings ip req.user_agent w).now in
      let after = ((upload lib settings xff_trust req form w).1).tables.uploads in
      (after ≡ w.tables.uploads)
      ⊎ ((day_count ip now w.tables.uploads < limit)
          × (day_count ip now after ≤ day_count ip now w.tables.uploads + length (files_of form)))
unfolding upload
upload-day_count lib settings xff_trust req form w ip limit known limited =
    let us = w.tables.uploads in
    let html = wants_html req in
    let gates =
      enforce_upload_gates lib.show_status lib.collate lib.lower lib.to_lowercase settings (some ip)
        req.user_agent html in
    let kept =
      enforce_upload_gates-Kept (λ xs. xs ≡ us) lib.show_status lib.collate lib.lower
        lib.to_lowercase settings (some ip) req.user_agent html in
    elim (Result-cases ((gates w).0)) [
      | inr (resp, e) ↦ inl (rw (upload, known, e) (kept.after w refl))
      | inl (u, e) ↦
          let q = in_quota ip (at_count lib settings ip req.user_agent w).now day in
          let bound = length (filter q us) + length (files_of form) in
          let room : length (filter q us) + length (files_of form) ≤ bound = omega arith in
          let after = upload-Room lib settings xff_trust q bound req form w room in
          inr (
            passed-count lib settings ip req.user_agent html limit w limited e,
            no_more _ bound after,
          )
    ]
