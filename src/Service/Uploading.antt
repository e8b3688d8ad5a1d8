-- ===== src/Service/Uploading.antt =====
-- The checks of a file and the search for its slug (src/handlers.rs): they leave the uploads, and the
-- slug found is free.
use filehost.Base.{
  ℕ, zero, suc, ◌+◌, ◌/◌, ◌≡◌, refl, Bool, true, false, Option, none, some, List, [], ◌∷◌, Bytes,
  if◌then◌else◌, arith,
}
use filehost.Base.Results.{Result, ok, err}
use filehost.Db.Model.{Upload}
use filehost.Db.World.{World, DbError}
use filehost.Db.Uploads.{is_slug_taken, find_active_upload_by_hash}
use filehost.Handlers.Reply.{Settings}
use filehost.Handlers.Slug.{Search, attempts, max_slug_attempts}
use filehost.Handlers.Types.{HashedTempFile}
use filehost.Handlers.Process.{Libraries, mime_check, file_checks, existing}
use filehost.Service.Sound.{IsFree}
use filehost.Service.Kept.{Kept, Kept-pure, Kept-if, Kept-result, Kept->>=, Kept-select}
use filehost.Service.Guards.{
  check_not_banned-Kept, is_filename_banned-Kept, is_mime_banned-Kept, is_hash_banned-Kept,
}

module _ (P : List Upload → Type 0) (lib : Libraries) (settings : Settings) where
  mime_check-Kept : (ct : Option _) → Kept P (mime_check lib settings ct)
  mime_check-Kept none = Kept-pure P
  mime_check-Kept (some ct) = check_not_banned-Kept P lib.show_status _ _ (
      is_mime_banned-Kept P settings.ban_cache_ttl_seconds lib.collate lib.lower lib.to_lowercase
        ct.text)

  pub file_checks-Kept : (file : HashedTempFile) → Kept P (file_checks lib settings file)
  unfolding file_checks
  file_checks-Kept file =
      let ttl = settings.ban_cache_ttl_seconds in
      let name = check_not_banned-Kept P lib.show_status _ _ (
        is_filename_banned-Kept P ttl lib.collate lib.lower lib.to_lowercase lib.compiles
          lib.is_match _) in
      let hash =
        check_not_banned-Kept P lib.show_status _ _ (is_hash_banned-Kept P ttl file.hash) in
      Kept->>= P _ _
        (Kept->>= P _ _ (Kept->>= P _ _ name (λ u. mime_check-Kept file.content_type))
          (λ u. mime_check-Kept file.detected_content_type))
        (λ u. hash)

  pub existing-Kept : (hash : Bytes) → Kept P (existing lib settings hash)
  unfolding existing find_active_upload_by_hash
  existing-Kept hash = Kept-if P settings.dedup (Kept-select P _) (Kept-pure P)

-- The answer `false` of a query, if that is what it is.
abbrev denies : {E : Type 0} → Result E Bool → Bool
denies (ok b) = b
denies (err e) = true

module _ (collate : Bytes → Bytes) where
  is_slug_taken-at :
      (slug : Bytes) (os : List Bool) (w : World)
      → denies ((is_slug_taken collate slug (record w { outages = os })).0) ≡ false
      → IsFree collate slug
          ((is_slug_taken collate slug (record w { outages = os })).1).tables.uploads
  unfolding is_slug_taken
  is_slug_taken-at slug [] w h = h
  is_slug_taken-at slug (true ∷ os) w h = absurd (ground (arith, h))
  is_slug_taken-at slug (false ∷ os) w h = h

  -- A slug that a search found is free.
  abbrev pub IsAllocated : Search × World → Type 0
  IsAllocated (Search.found slug, w) = IsFree collate slug w.tables.uploads
  IsAllocated (Search.failed e, w) = Unit
  IsAllocated (Search.searching, w) = Unit

  tried :
      (r : Result DbError Bool) (w : World) (slug : Bytes) (rest : Search × World)
      → (denies r ≡ false → IsFree collate slug w.tables.uploads)
      → IsAllocated rest
      → IsAllocated (elim r [
        | ok taken ↦ if taken then rest else (Search.found slug, w)
        | err e ↦ (Search.failed e, w)
      ])
  tried (ok true) w slug rest free h = h
  tried (ok false) w slug rest free h = free refl
  tried (err e) w slug rest free h = tt

  module _ (candidate : ℕ → ℕ → Bytes) where
    pub attempts-IsAllocated :
        (fuel k len : ℕ) (w : World) → IsAllocated (attempts collate candidate fuel k len w)
    unfolding attempts
    attempts-IsAllocated zero k len w = tt
    attempts-IsAllocated (suc fuel) k len w =
        let slug = candidate k (len + k / max_slug_attempts) in
        let (r, w') = is_slug_taken collate slug w in
        tried r w' slug (attempts collate candidate fuel (suc k) len w')
          (is_slug_taken-at slug w.outages w) (attempts-IsAllocated fuel (suc k) len w')

    module _ (P : List Upload → Type 0) where
      is_slug_taken-Kept : (slug : Bytes) → Kept P (is_slug_taken collate slug)
      unfolding is_slug_taken
      is_slug_taken-Kept slug = Kept-select P _

      pub attempts-Kept : (fuel k len : ℕ) → Kept P (attempts collate candidate fuel k len)
      unfolding attempts
      attempts-Kept zero k len = Kept-pure P
      attempts-Kept (suc fuel) k len =
          let slug = candidate k (len + k / max_slug_attempts) in
          let again : Bool → World → Search × World = λ taken w.
            if taken
            then (attempts collate candidate fuel (suc k) len w)
            else (Search.found slug, w) in
          Kept-result P again (λ e w. (Search.failed e, w)) (is_slug_taken-Kept slug)
            (λ taken. Kept-if P taken (attempts-Kept fuel (suc k) len) (Kept-pure P))
            (λ e. Kept-pure P)
