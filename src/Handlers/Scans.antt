-- ===== src/Handlers/Scans.antt =====
-- The tasks that an upload spawns (src/handlers.rs): what they do with a scan's result, which is the
-- scanner's. A failed call is only logged.
use filehost.Base.{Option, none, some, ◌++◌, Bytes, ascii, leb, if◌then◌else◌}
use filehost.Base.Results.{ok, err}
use filehost.Ip.Addr.{IpAddr}
use filehost.Db.Model.{Uuid, Score}
use filehost.Db.World.{World}
use filehost.Db.Uploads.{update_nsfw_score}
use filehost.Db.Deletes.{delete_by_id}
use filehost.Db.Bans.{insert_banned, banned_hashes}
use filehost.Guard.BanCache.{invalidate_hashes}
use filehost.Guard.Challenge.{mark_ip_suspect}

-- `ScanResult` (src/clamd.rs).
pub data ScanResult : Type 0 where
  clean : ScanResult
  infected : Bytes → ScanResult

-- The ban of the hash: the cache is emptied only when the row was written.
unfoldable pub ban_hash : Bytes → Bytes → World → World
ban_hash hash reason w =
    let (r, w') = insert_banned banned_hashes hash (some reason) w in
    elim r [ ok u ↦ invalidate_hashes w' | err e ↦ w' ]

-- The body of the task of `spawn_clamd_scan`; `none` is a scan that failed.
unfoldable pub clamd_task : Option ScanResult → Uuid → Bytes → World → World
clamd_task none uuid hash w = w
clamd_task (some ScanResult.clean) uuid hash w = w
clamd_task (some (ScanResult.infected name)) uuid hash w =
    (delete_by_id uuid (ban_hash hash (ascii "clamd: " ++ name) w)).1

-- The body of the task of `spawn_nsfw_scan`; `none` is a scan that failed.
unfoldable pub nsfw_task : Option Score → Score → Option IpAddr → Uuid → World → World
nsfw_task none threshold uploader_ip uuid w = w
nsfw_task (some score) threshold uploader_ip uuid w =
    let w' = (update_nsfw_score uuid score w).1 in
    elim uploader_ip [
      | none ↦ w'
      | some ip ↦ if leb threshold score then mark_ip_suspect ip w' else w'
    ]
