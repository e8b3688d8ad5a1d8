-- ===== src/Service/Reach.antt =====
-- The states that the service reaches: requests, the tasks that uploads spawn, commands and what goes on
-- outside, one after the other (src/main.rs, src/handlers.rs, src/admin.rs, src/cli.rs). Each has its
-- arguments at will, and calls of the database may fail at any time.
use filehost.Base.{ℕ, ◌≡◌, false, Option, List, [], ◌∷◌, All, Bytes, ◌==◌}
use filehost.Base.Results.{Result}
use filehost.Ip.Addr.{IpAddr}
use filehost.Ip.Xff.{XffTrust}
use filehost.Db.Model.{Upload, Uuid, Score}
use filehost.Db.World.{World}
use filehost.Db.Deleted.{uploads_of}
use filehost.Handlers.Reply.{Settings, Response}
use filehost.Handlers.Types.{Mime}
use filehost.Handlers.Process.{Libraries}
use filehost.Handlers.Upload.{Request, UploadForm, upload}
use filehost.Handlers.Download.{get_file}
use filehost.Handlers.Captcha.{VerifyRequest, captcha_verify}
use filehost.Handlers.Scans.{ScanResult, clamd_task, nsfw_task}
use filehost.Admin.Api.{AdminRequest, AdminLibraries, serve_admin}
use filehost.Cli.Lines.{CliLibraries}
use filehost.Cli.Run.{CliCommand, dispatch}
use filehost.Cli.Stored.{Machine}
use filehost.Service.Sound.{Fresh}
use filehost.Service.Forms.{Files, files_of}

-- What the process and the commands run with.
pub record Deployment : Type 0 where
  pub lib : Libraries
  pub parse_mime : Bytes → Option Mime
  pub settings : Settings
  pub xff_trust : XffTrust
  pub keyed_hash : Bytes → Bytes → Bytes
  pub sha256 : Bytes → Bytes
  pub key : Bytes
  pub admin : AdminLibraries
  pub admin_token : Option Bytes
  pub cli : CliLibraries

-- The ids of a form's files are new: no row has one of them, and no two files share one.
abbrev pub AreNew : Files → List Upload → Type 0
AreNew [] us = Unit
AreNew ((file, draw) ∷ files) us =
    Fresh draw.uuid us × All (λ f. (draw.uuid == f.1.uuid) ≡ false) files × AreNew files us

-- One step. The only condition on a request is that the UUIDs it draws are new; what goes on outside is
-- the clocks, the failures of the database, the store, the caches, other tables, but no upload.
pub data Moves (d : Deployment) : World → World → Type 0 where
  uploaded :
      {w : World} (req : Request) (form : Result Response UploadForm)
      → AreNew (files_of form) w.tables.uploads
      → Moves d w ((upload d.lib d.settings d.xff_trust req form w).1)
  fetched :
      {w : World} (req : Request) (slug : Bytes)
      → Moves d w ((get_file d.lib d.parse_mime d.settings d.xff_trust req slug w).1)
  verified :
      {w : World} (req : Request) (body : VerifyRequest) (unix : ℕ)
      → Moves d w (
          (captcha_verify d.lib d.settings d.xff_trust d.keyed_hash d.sha256 d.key req body unix
            w).1)
  virus_scanned :
      {w : World} (result : Option ScanResult) (id : Uuid) (hash : Bytes)
      → Moves d w (clamd_task result id hash w)
  nsfw_scanned :
      {w : World} (score : Option Score) (threshold : Score) (ip : Option IpAddr) (id : Uuid)
      → Moves d w (nsfw_task score threshold ip id w)
  administered :
      {w : World} (threshold : Score) (authorization : Option Bytes) (request : AdminRequest)
      → Moves d w ((serve_admin d.admin threshold d.admin_token authorization request w).1)
  commanded :
      {w : World} (machine : Machine) (command : CliCommand)
      → Moves d w ((dispatch d.cli machine command w).1)
  outside : {w w' : World} → uploads_of w' ≡ uploads_of w → Moves d w w'

-- Any number of steps.
pub data Reach (d : Deployment) : World → World → Type 0 where
  here : {w : World} → Reach d w w
  then : {w v x : World} → Moves d w v → Reach d v x → Reach d w x
