-- ===== src/Cli/Lines.antt =====
-- What a command of src/cli.rs prints and fails with. A printed line is a value: its constant text, or
-- the numbers and texts that its format puts in place.
use filehost.Base.{
  ℕ, Bool, Option, none, some, List, [], ◌∷◌, map, Bytes, ascii, ◌==◌, if◌then◌else◌,
}
use filehost.Base.Results.{Result, ok, err, Step, pure, fail}
use filehost.Ip.Addr.{IpAddr}
use filehost.Times.{OffsetDateTime}
use filehost.Db.Model.{BanType, Blacklist}
use filehost.Db.World.{World, DbError, Query}
use filehost.Admin.Reply.{Formats}
use filehost.Sync.{Capture}

-- One printed line.
pub data Line : Type 0 where
  text : Bytes → Line
  deleted deleted_expired added : ℕ → Line
  banned_range : IpAddr → IpAddr → ℕ → Line
  banned_key removed_key : Bytes → Line
  removed : ℕ → Line
  blacklist_row : Blacklist → Bytes → Line
  range_row : ℕ → Bytes → Bytes → BanType → Bytes → Bytes → Line
  key_row : Bytes → Bytes → Line
  mime_row : Bytes → Line

-- What a command fails with; `missing` is the error of `removal_result`.
pub data CliError : Type 0 where
  database : DbError → CliError
  mixed_families invalid_type invalid_expires invalid_hash invalid_hash_length missing : CliError
  invalid_regex : Bytes → CliError

abbrev pub Command : Type 0 → Type 0
Command A = Step World CliError A

-- `?` on a query.
abbrev pub lifted : {A : Type 0} → Result DbError A → Result CliError A
lifted (ok a) = ok a
lifted (err e) = err (CliError.database e)

abbrev pub query : {A : Type 0} → Query A → Command A
query q w = let (r, w') = q w in (lifted r, w')

abbrev pub prints : Line → Command (List Line)
prints line = pure (line ∷ [])

unfoldable pub parse_ban_type : ℕ → Result CliError BanType
parse_ban_type n =
    if n == 1
    then ok BanType.read_only
    else if n == 2
    then ok BanType.full
    else err CliError.invalid_type

-- `print_list_or_empty`.
unfoldable pub print_list_or_empty : {A : Type 0} → List A → Bytes → (A → Line) → List Line
print_list_or_empty [] empty_msg print_one = text empty_msg ∷ []
print_list_or_empty (e ∷ entries) empty_msg print_one = map print_one (e ∷ entries)

-- `removal_result`.
unfoldable pub removal_result : Bool → Line → Command (List Line)
removal_result found line = if found then prints line else fail CliError.missing

-- `unwrap_or("-")`.
abbrev pub or_dash : Option Bytes → Bytes
or_dash none = ascii "-"
or_dash (some reason) = reason

-- What the commands call of the libraries.
pub record CliLibraries : Type 0 where
  pub formats : Formats
  pub show_time : ℕ → Bytes
  pub parse_time : Bytes → Option OffsetDateTime
  pub regex_error : Bytes → Option Bytes
  pub collate : Bytes → Bytes
  pub lower : Bytes → Bytes
  pub parse_v4 : Bytes → Option ℕ
  pub request : Bytes → Option (List Capture)
