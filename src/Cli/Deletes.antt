-- ===== src/Cli/Deletes.antt =====
-- The commands of src/cli.rs that delete uploads.
use filehost.Base.{ℕ, List, Bytes}
use filehost.Base.Results.{Result, ok, err, ◌>>=◌}
use filehost.Ip.Addr.{IpAddr}
use filehost.Db.Model.{Uuid}
use filehost.Db.World.{World}
use filehost.Db.Deletes.{
  delete_by_id, delete_by_slug, delete_by_ip, delete_by_ip_range, RangeError, delete_expired,
}
use filehost.Cli.Lines.{Line, deleted, deleted_expired, CliError, Command, query, prints}

-- `delete_expired`.
unfoldable pub remove_expired : Command (List Line)
remove_expired = query delete_expired >>= λ count. prints (deleted_expired count)

pub data DeleteTarget : Type 0 where
  id : Uuid → DeleteTarget
  slug : Bytes → DeleteTarget
  ip : IpAddr → DeleteTarget
  ip_range : IpAddr → IpAddr → DeleteTarget

-- The two errors of `delete_by_ip_range`.
abbrev pub ranged : Result RangeError ℕ × World → Result CliError ℕ × World
ranged (r, w) = elim r [
  | ok n ↦ (ok n, w)
  | err e ↦ (
    elim e [
      | RangeError.mixed_families ↦ err CliError.mixed_families
      | RangeError.database d ↦ err (CliError.database d)
    ],
    w,
  )
]

unfoldable pub delete_count : (Bytes → Bytes) → DeleteTarget → Command ℕ
delete_count collate (DeleteTarget.id i) = query (delete_by_id i)
delete_count collate (DeleteTarget.slug s) = query (delete_by_slug collate s)
delete_count collate (DeleteTarget.ip a) = query (delete_by_ip a)
delete_count collate (DeleteTarget.ip_range start end) =
    λ w. ranged (delete_by_ip_range start end w)

unfoldable pub delete : (Bytes → Bytes) → DeleteTarget → Command (List Line)
delete collate target = delete_count collate target >>= λ count. prints (deleted count)
