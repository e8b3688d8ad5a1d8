-- ===== src/Service/Added.antt =====
-- What an upload (src/handlers.rs) does to the table of uploads: it adds rows at its end, each under a
-- new id and a slug that is free.
use filehost.Base.{
  ℕ, ◌≡◌, refl, Bool, true, false, not, ◌&&◌, Option, none, some, List, [], ◌∷◌, ◌++◌, Bytes,
}
use filehost.Base.Results.{Result, ok, err, ◌>>◌}
use filehost.Ip.Addr.{IpAddr}
use filehost.Db.Model.{Upload}
use filehost.Db.World.{World}
use filehost.Db.Uploads.{insert_upload_row}
use filehost.Handlers.Reply.{Settings}
use filehost.Handlers.Slug.{Search, attempts, allocate_unique_slug}
use filehost.Handlers.Types.{HashedTempFile}
use filehost.Handlers.Process.{
  Libraries, Draw, Stop, candidate, new_slug, slug_step, save, row, store, link, query,
  process_file, stopping, answer,
}
use filehost.Service.Sound.{IsFree}
use filehost.Service.Kept.{Kept, Kept-pure, Kept-same, Kept-if, Kept->>=, Kept-modify}
use filehost.Service.Leads.{Leads, Leads-Kept, Leads->>=, Leads-end}
use filehost.Service.Uploading.{
  IsAllocated, attempts-IsAllocated, attempts-Kept, file_checks-Kept, existing-Kept,
}

module _ (P Q : List Upload → Type 0) (weaker : (us : List Upload) → P us → Q us) (lib : Libraries)
    (settings : Settings) (draw : Draw) (file : HashedTempFile) (ip : IpAddr) (ua : Option Bytes)
    (len : ℕ) (keep : Bool)
    (append : (us : List Upload) (r : Upload)
      → r.id ≡ draw.uuid
      → IsFree lib.collate r.slug us
      → P us
      → Q (us ++ (r ∷ []))) where
  insert-at :
      (slug : Bytes) (os : List Bool) (w : World)
      → IsFree lib.collate slug w.tables.uploads
      → P w.tables.uploads
      → Q
          ((insert_upload_row
              (row lib settings draw file ip ua len keep slug)
              (record w { outages = os })).1
            ).tables.uploads
  unfolding insert_upload_row
  insert-at slug [] w free h = append w.tables.uploads _ refl free h
  insert-at slug (true ∷ os) w free h = weaker _ h
  insert-at slug (false ∷ os) w free h = append w.tables.uploads _ refl free h

  save-Kept : (R : List Upload → Type 0) → Kept R (save lib settings draw file ip ua len keep)
  unfolding save
  save-Kept R =
      Kept-if R (not (draw.created && draw.saved)) (Kept-pure R) (Kept-modify R _ (λ w. refl))

  -- The table before a row is added at a slug.
  abbrev Ready : Bytes → List Upload → Type 0
  Ready slug us = IsFree lib.collate slug us × P us

  written :
      (slug : Bytes)
      → Leads
          (Ready slug)
          Q
          (query lib settings (insert_upload_row (row lib settings draw file ip ua len keep slug)))
  written slug = record { after = λ w (free, h). insert-at slug w.outages w free h }

  slug-written :
      (s : Search) (w : World)
      → IsAllocated lib.collate (s, w)
      → P w.tables.uploads
      → Q
          ((elim (slug_step lib settings draw file ip ua len keep s)
              as (λ r. Result Stop Bytes × World) [
                | ok slug ↦
                    (save lib settings draw file ip ua len keep
                        >> query lib settings
                            (insert_upload_row (row lib settings draw file ip ua len keep slug))
                        >> λ w. (link lib settings slug, w))
                      w
                | err e ↦ (err e, w)
              ]).1
            ).tables.uploads
  slug-written (Search.failed e) w free h = weaker _ h
  slug-written Search.searching w free h = weaker _ h
  slug-written (Search.found slug) w free h =
      let sure : (us : List Upload) → Ready slug us → Q us = λ us (f, k). weaker us k in
      let put =
        Leads->>= (Ready slug) Q sure (save lib settings draw file ip ua len keep) _
          (save-Kept (Ready slug)) (λ u. written slug) in
      (Leads-end (Ready slug) Q sure _ (λ u. link lib settings slug) put).after w (free, h)

  pub store-Leads : Leads P Q (store lib settings draw file ip ua len keep)
  unfolding store new_slug allocate_unique_slug
  store-Leads = record {
    after = λ w h.
        let find =
          attempts lib.collate (candidate lib settings draw file ip ua len keep) draw.fuel 0 len in
        let (s, w') = find w in
        slug-written s w'
          (attempts-IsAllocated lib.collate (candidate lib settings draw file ip ua len keep)
            draw.fuel 0 len w)
          ((attempts-Kept lib.collate (candidate lib settings draw file ip ua len keep) P draw.fuel
              0 len).after
            w h);
  }

  pub process_file-Leads : Leads P Q (process_file lib settings draw file ip ua len keep)
  unfolding process_file
  process_file-Leads =
      let checked =
        Kept-same P (λ (r, w). (stopping r, w)) (λ p. refl)
          (file_checks-Kept P lib settings file) in
      let looked =
        Kept-same P (λ (r, w). (answer lib settings r, w)) (λ p. refl)
          (existing-Kept P lib settings file.hash) in
      Leads->>= P Q weaker _ _ (Kept->>= P _ _ checked (λ u. looked)) (λ found.
        elim found
          as (λ o. Leads P Q (elim o [
            | some (id, slug) ↦ λ w. (link lib settings slug, w)
            | none ↦ store lib settings draw file ip ua len keep
          ])) [ none ↦ store-Leads | some (id, slug) ↦ Leads-Kept P Q weaker (Kept-pure P) ])
