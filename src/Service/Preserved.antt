-- ===== src/Service/Preserved.antt =====
-- What every state that is reached keeps (src/main.rs): an induction on the steps.
use mathlib.Core.Path.{subst}
use filehost.Base.{◌≡◌, sym, false, List, [], ◌∷◌, ◌++◌, All, ◌==◌, ap, ◌∙◌}
use filehost.Db.Model.{Upload, Uuid}
use filehost.Db.World.{World}
use filehost.Handlers.Types.{HashedTempFile}
use filehost.Handlers.Process.{Draw}
use filehost.Service.Rows.{Evolves}
use filehost.Service.Sound.{Fresh, Fresh-append, IsFree}
use filehost.Service.Requests.{get_file-Kept, captcha_verify-Kept, clamd_task-Kept, nsfw_task-Kept}
use filehost.Service.Administration.{serve_admin-Kept}
use filehost.Service.Maintenance.{dispatch-Kept}
use filehost.Service.Forms.{Files, upload-Leads}
use filehost.Service.Reach.{Deployment, AreNew, Moves, Reach}

AreNew-append :
    (id : Uuid) (files : Files) (us : List Upload) (r : Upload)
    → r.id ≡ id
    → All (λ f. (id == f.1.uuid) ≡ false) files
    → AreNew files us
    → AreNew files (us ++ (r ∷ []))
AreNew-append id [] us r e others new = tt
AreNew-append id ((file, draw) ∷ files) us r e (other, others) (fresh, apart, new) = (
  Fresh-append draw.uuid us r fresh (ap (λ i. i == draw.uuid) e ∙ other),
  apart,
  AreNew-append id files us r e others new,
)

-- A property of the table that holds however its rows evolve, and when a row is added under a new id and
-- a free slug.
module _ (d : Deployment) (P : List Upload → Type 0)
    (closed : (us vs : List Upload) → Evolves us vs → P us → P vs)
    (append : (us : List Upload) (r : Upload)
      → Fresh r.id us
      → IsFree d.lib.collate r.slug us
      → P us
      → P (us ++ (r ∷ []))) where
  -- The property, and that the files to come have new ids.
  abbrev Pending : Files → List Upload → Type 0
  Pending files us = P us × AreNew files us

  Pending-append :
      (file : HashedTempFile) (draw : Draw) (files : Files) (us : List Upload) (r : Upload)
      → r.id ≡ draw.uuid
      → IsFree d.lib.collate r.slug us
      → Pending ((file, draw) ∷ files) us
      → Pending files (us ++ (r ∷ []))
  Pending-append file draw files us r e free (h, (fresh, others, new)) = (
    append us r (subst (λ i. Fresh i us) (sym e) fresh) free h,
    AreNew-append draw.uuid files us r e others new,
  )

  pub Moves-keeps : (w v : World) → Moves d w v → P w.tables.uploads → P v.tables.uploads
  Moves-keeps w _ (Moves.uploaded req form new) h =
      ((upload-Leads d.lib d.settings d.xff_trust Pending
          (λ file draw files us (k, (fresh, others, rest)). (k, rest)) Pending-append req
          form).after
        w (h, new)).0
  Moves-keeps w _ (Moves.fetched req slug) h =
      (get_file-Kept P d.lib d.parse_mime d.settings d.xff_trust req slug).after w h
  Moves-keeps w _ (Moves.verified req body unix) h =
      (captcha_verify-Kept P d.lib d.settings d.xff_trust d.keyed_hash d.sha256 d.key req body
          unix).after
        w h
  Moves-keeps w _ (Moves.virus_scanned result id hash) h =
      (clamd_task-Kept P closed result id hash).after w h
  Moves-keeps w _ (Moves.nsfw_scanned score threshold ip id) h =
      (nsfw_task-Kept P closed score threshold ip id).after w h
  Moves-keeps w _ (Moves.administered threshold authorization request) h =
      (serve_admin-Kept P d.admin threshold closed d.admin_token authorization request).after w h
  Moves-keeps w _ (Moves.commanded machine command) h =
      (dispatch-Kept P closed d.cli machine command).after w h
  Moves-keeps w v (Moves.outside same) h = subst P (sym same) h

  pub Reach-keeps : (w v : World) → Reach d w v → P w.tables.uploads → P v.tables.uploads
  Reach-keeps w _ Reach.here h = h
  Reach-keeps w v (Reach.then {v = x} m r) h = Reach-keeps x v r (Moves-keeps w x m h)
