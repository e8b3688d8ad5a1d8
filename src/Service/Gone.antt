-- ===== src/Service/Gone.antt =====
-- A deleted upload is not served again.
use mathlib.Core.Path.{ap, subst}
use filehost.Base.{
  ◌≡◌, ◌≢◌, refl, sym, ◌∙◌, inl, inr, Bool, true, false, not, ◌&&◌, Option, none, some, List, [],
  ◌∷◌, All, filter, Bytes, ◌==◌, ==_iff, Bool-cases, arith,
}
use filehost.Base.Results.{Result, ok, err}
use filehost.Db.Model.{Upload, BanType}
use filehost.Db.World.{World, DbError}
use filehost.Db.Uploads.{is_active, has_slug, first, get_upload_by_slug}
use filehost.Db.Deleted.{IsKeyed}
use filehost.Handlers.Download.{Download, Served, served, get_file}
use filehost.Handlers.Downloaded.{past_both, get_file-serve}
use filehost.Handlers.Upload.{Request}
use filehost.Service.Sound.{IsSound}
use filehost.Service.Guards.{is_ip_banned-Kept, needs_challenge-Kept}
use filehost.Service.Reach.{Deployment, Reach}
use filehost.Service.Named.{Has, Later-row, Reach-Grows, Reach-IsSound}

-- The answer is no row, or an active row of the table.
abbrev IsLive : List Upload → Result DbError (Option Upload) → Type 0
IsLive us (err e) = Unit
IsLive us (ok none) = Unit
IsLive us (ok (some u)) = Has u us × (is_active u ≡ true)

widen :
    (u : Upload) (us : List Upload) (o : Option Upload) → IsLive us (ok o) → IsLive (u ∷ us) (ok o)
widen u us none h = tt
widen u us (some x) (h, a) = (inr h, a)

both : (a b : Bool) → (a && b) ≡ true → b ≡ true
both true b h = h
both false b h = absurd (ground (arith, h))

still_deleted : (a b : Bool) → a ≡ false → (not a && b) ≡ false → b ≡ false
still_deleted false b h k = k
still_deleted true b h k = absurd (ground (arith, h))

module _ (collate : Bytes → Bytes) (slug : Bytes) where
  first-IsLive : (us : List Upload) → IsLive us (ok (first (filter (has_slug collate slug) us)))
  first-IsLive [] = tt
  first-IsLive (u ∷ us) = elim (Bool-cases (has_slug collate slug u)) [
    | inl e ↦ rw e (inl refl, both _ (is_active u) e)
    | inr e ↦ rw e (widen u us (first (filter (has_slug collate slug) us)) (first-IsLive us))
  ]

  found-at :
      (os : List Bool) (w : World)
      → IsLive w.tables.uploads ((get_upload_by_slug collate slug (record w { outages = os })).0)
  unfolding get_upload_by_slug
  found-at [] w = first-IsLive w.tables.uploads
  found-at (true ∷ os) w = tt
  found-at (false ∷ os) w = first-IsLive w.tables.uploads

-- In a keyed table an id has one row.
other_id :
    (x y : Upload) (us : List Upload)
    → All (λ v. (v.id == x.id) ≡ false) us
    → Has y us
    → (y.id == x.id) ≡ false
other_id x y [] a h = absurd h
other_id x y (v ∷ us) (here, a) (inl e) = ap (λ z. z.id == x.id) e ∙ here
other_id x y (v ∷ us) (here, a) (inr h) = other_id x y us a h

distinct_ids :
    (x y : Upload) (us : List Upload)
    → Has x us
    → Has y us
    → IsKeyed us
    → is_active x ≡ false
    → is_active y ≡ true
    → x.id ≢ y.id
distinct_ids x y [] h k keyed a b e = h
distinct_ids x y (v ∷ us) (inl h) (inl k) keyed a b e =
    ground (arith, sym (ap is_active (h ∙ sym k)), a, b)
distinct_ids x y (v ∷ us) (inl h) (inr k) (fresh, keyed) a b e = ground (
  arith,
  subst (λ z. (y.id == z.id) ≡ false) (sym h) (other_id v y us fresh k),
  ==_iff y.id x.id,
  e,
)
distinct_ids x y (v ∷ us) (inr h) (inl k) (fresh, keyed) a b e = ground (
  arith,
  subst (λ z. (x.id == z.id) ≡ false) (sym k) (other_id v x us fresh h),
  ==_iff x.id y.id,
  e,
)
distinct_ids x y (v ∷ us) (inr h) (inr k) (fresh, keyed) a b e = distinct_ids x y us h k keyed a b e

-- Take a deleted row of a table in which no two rows have one id and no slug has two active rows. In every
-- state reached from there a download, by whatever slug, does not serve the file of that row.
pub Reach-get_file :
    (d : Deployment) (w v : World) (u : Upload) (req : Request) (slug : Bytes) (s : Served)
    → Reach d w v
    → IsSound d.lib.collate w.tables.uploads
    → Has u w.tables.uploads
    → is_active u ≡ false
    → (get_file d.lib d.parse_mime d.settings d.xff_trust req slug v).0 ≡ Download.serve s
    → s.id ≢ u.id
unfolding served
Reach-get_file d w v u req slug s r sound has gone h e =
    let ttl = d.settings.ban_cache_ttl_seconds in
    let (ip, known, free, easy, (row, answer, same)) =
      get_file-serve d.lib d.parse_mime d.settings d.xff_trust req slug s v h in
    let at = past_both d.lib d.parse_mime d.settings d.xff_trust req slug ip v in
    let us = v.tables.uploads in
    let same_rows : at.tables.uploads ≡ us =
      (needs_challenge-Kept (λ xs. xs ≡ us) ttl ip d.settings.nsfw_threshold).after _
        ((is_ip_banned-Kept (λ xs. xs ≡ us) ttl ip BanType.full).after v refl) in
    let (there, live) = subst (IsLive us) answer (
      subst (λ xs. IsLive xs ((get_upload_by_slug d.lib.collate slug at).0)) same_rows
        (found-at d.lib.collate slug at.outages at)) in
    let (x, still, later) = Later-row u w.tables.uploads us has (Reach-Grows d w v r) in
    distinct_ids x row us still there (Reach-IsSound d w v r sound).0
      (still_deleted (is_active u) (is_active x) gone later.stays_deleted) live
      (later.same_id ∙ sym e ∙ ap (λ t. t.id) same)
