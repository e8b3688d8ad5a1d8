-- ===== src/Handlers/Expiry.antt =====
-- `life_expectancy_days` and `calculate_expiry` (src/upload.rs). The operations on `f64` are the
-- hardware's; `powi` is the standard library's, which leaves its precision open. The subtraction of
-- the ages wraps around, as it does in a release build.
use filehost.Base.{ℕ, ◌+◌, ◌-◌, ◌*◌, ◌%◌, ◌^◌, ◌||◌, Option, none, some, ltb, leb, if◌then◌else◌}

pub record Floats : Type 1 where
  pub F : Type 0
  pub of_u64 : ℕ → F
  pub div : F → F → F
  pub min : F → F → F
  pub sub : F → F → F
  pub add : F → F → F
  pub mul : F → F → F
  -- the exponent is given by the bits of an `i32`
  pub powi : F → ℕ → F
  -- `as i64`, of a number that is not negative
  pub to_days : F → ℕ

-- The settings on the lifetime of a file; `max_filesize` is in MiB.
pub record Lifetime : Type 0 where
  pub max_filesize : ℕ
  pub min_fileage : ℕ
  pub max_fileage : ℕ
  pub decay_exp : ℕ

-- The last second of the year 9999, which is the last one that an `OffsetDateTime` has.
abbrev pub last_second : ℕ
last_second = 253_402_300_799

-- `now + Duration::days(days)`: `Duration::days` panics if the seconds are no `i64`, and the addition if
-- the date is out of range.
unfoldable pub add_days : ℕ → ℕ → Option ℕ
add_days now days =
    let seconds = days * 86400 in
    if leb (2 ^ 63) seconds || ltb last_second (now + seconds) then none else some (now + seconds)

module _ (fl : Floats) (settings : Lifetime) where
  unfoldable pub ratio : ℕ → fl.F
  ratio file_size =
      let max_bytes = fl.of_u64 (settings.max_filesize * 1024 * 1024 % 2 ^ 64) in
      fl.min (fl.div (fl.of_u64 file_size) max_bytes) (fl.of_u64 1)

  unfoldable pub life_expectancy_days : ℕ → fl.F
  life_expectancy_days file_size = fl.add (fl.of_u64 settings.min_fileage) (
      fl.mul (fl.of_u64 ((settings.max_fileage + 2 ^ 64 - settings.min_fileage) % 2 ^ 64))
        (fl.powi (fl.sub (fl.of_u64 1) (ratio file_size)) (settings.decay_exp % 2 ^ 32)))

  -- At the time `now`, in seconds.
  unfoldable pub calculate_expiry : ℕ → ℕ → Option ℕ
  calculate_expiry now file_size = add_days now (fl.to_days (life_expectancy_days file_size))
