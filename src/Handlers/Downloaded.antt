-- ===== src/Handlers/Downloaded.antt =====
-- What a download that is served has been checked for.
use filehost.Base.{
  ◌≡◌, refl, inl, inr, Bool, true, false, Option, some, Bytes, any, ◌==◌, Option-cases, arith,
  if◌then◌else◌,
}
use filehost.Base.Results.{Result, ok, err, Result-cases}
use filehost.Ip.Addr.{IpAddr}
use filehost.Db.Model.{Upload, BanType}
use filehost.Ip.Xff.{XffTrust}
use filehost.Db.World.{World, DbError}
use filehost.Db.Uploads.{get_upload_by_slug}
use filehost.Guard.BanCache.{is_ip_banned}
use filehost.Guard.Challenge.{needs_challenge}
use filehost.Handlers.Reply.{Settings}
use filehost.Handlers.Types.{Mime}
use filehost.Handlers.Process.{Libraries}
use filehost.Handlers.Upload.{Request, extract_ip}
use filehost.Handlers.Download.{
  Served, Download, served, send, challenged, find_file, after_challenge, after_ban, get_file,
}

module _ (lib : Libraries) (parse_mime : Bytes → Option Mime) (settings : Settings)
    (xff_trust : XffTrust) (req : Request) (slug : Bytes) where
  -- The upload found, whose file is there, is the one that is served.
  abbrev pub IsFound : IpAddr → Served → World → Type 0
  IsFound ip s w =
      (row : Upload) × ((get_upload_by_slug lib.collate slug w).0 ≡ ok (some row))
      × (s ≡ served lib parse_mime settings xff_trust row)

  not_challenged :
      (s : Served)
      → (b : Bool) → challenged lib parse_mime settings xff_trust req slug ≡ Download.serve s
      → b ≡ false
  unfolding challenged
  not_challenged s b h = absurd (ground arith)

  opened :
      (b : Bool) (x s : Served)
      → (if b then Download.serve x else Download.missing) ≡ Download.serve s
      → s ≡ x
  opened true x s h = ground (arith, h)
  opened false x s h = absurd (ground (arith, h))

  found :
      (ip : IpAddr) (s : Served) (w : World)
      → (find_file lib parse_mime settings xff_trust req ip slug w).0 ≡ Download.serve s
      → IsFound ip s w
  unfolding find_file send
  found ip s w h = elim (Result-cases (get_upload_by_slug lib.collate slug w).0) [
    | inr (x, e) ↦ absurd (ground (arith, e, h))
    | inl (o, e) ↦ elim (Option-cases o) [
      | inl f ↦ absurd (ground (arith, e, f, h))
      | inr (row, f) ↦ (
        row,
        ground (arith, e, f),
        opened (any (λ f. f == row.id) (get_upload_by_slug lib.collate slug w).1.files)
            (served lib parse_mime settings xff_trust row) s (ground (arith, e, f, h)),
      )
    ]
  ]

  past_challenge :
      (ip : IpAddr) (s : Served) (r : Result DbError Bool) (w : World)
      → (after_challenge lib parse_mime settings xff_trust req ip slug (r, w)).0 ≡ Download.serve s
      → (r ≡ ok false) × IsFound ip s w
  past_challenge ip s (err e) w h = absurd (ground (arith, h))
  past_challenge ip s (ok true) w h = absurd (ground (arith, h, not_challenged s true h))
  past_challenge ip s (ok false) w h = (refl, found ip s w h)

  -- The states after the check of the bans, and after that of the challenge.
  abbrev pub past_ban : IpAddr → World → World
  past_ban ip w = (is_ip_banned settings.ban_cache_ttl_seconds ip BanType.full w).1

  abbrev pub past_both : IpAddr → World → World
  past_both ip w =
      (needs_challenge settings.ban_cache_ttl_seconds ip settings.nsfw_threshold (past_ban ip w)).1

  past_checks :
      (ip : IpAddr) (s : Served) (r : Result DbError Bool) (w : World)
      → (after_ban lib parse_mime settings xff_trust req ip slug (r, w)).0 ≡ Download.serve s
      → let (c, w') = needs_challenge settings.ban_cache_ttl_seconds ip settings.nsfw_threshold w in
        (r ≡ ok false) × (c ≡ ok false) × IsFound ip s w'
  past_checks ip s (err e) w h = absurd (ground (arith, h))
  past_checks ip s (ok true) w h = absurd (ground (arith, h))
  past_checks ip s (ok false) w h =
      let (a, b) =
        past_challenge ip s
          (needs_challenge settings.ban_cache_ttl_seconds ip settings.nsfw_threshold w).0
          (needs_challenge settings.ban_cache_ttl_seconds ip settings.nsfw_threshold w).1 h in
      (refl, a, b)

  -- A file is served only to a client with an address that was found not to be fully banned and, after
  -- that, to need no challenge; and what is served is the upload that the database then gave for the
  -- slug. Where a check fails, nothing is served.
  pub get_file-serve :
      (s : Served) (w : World)
      → (get_file lib parse_mime settings xff_trust req slug w).0 ≡ Download.serve s
      → (ip : IpAddr) × (extract_ip lib.parse_ip req xff_trust ≡ some ip)
        × ((is_ip_banned settings.ban_cache_ttl_seconds ip BanType.full w).0 ≡ ok false)
        × ((needs_challenge settings.ban_cache_ttl_seconds ip settings.nsfw_threshold
              (past_ban ip w)).0
            ≡ ok false)
        × IsFound ip s (past_both ip w)
  unfolding get_file
  get_file-serve s w h = elim (Option-cases (extract_ip lib.parse_ip req xff_trust)) [
    | inl e ↦ absurd (ground (arith, e, h))
    | inr (ip, e) ↦
        let (a, b, c) =
          past_checks ip s (is_ip_banned settings.ban_cache_ttl_seconds ip BanType.full w).0
            (past_ban ip w) (ground (arith, e, h)) in
        (ip, e, a, b, c)
  ]
