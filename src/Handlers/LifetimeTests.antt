-- ===== src/Handlers/LifetimeTests.antt =====
-- The lifetime of a file over whole numbers.
use filehost.Base.{ℕ, none, some, ◌+◌, ◌-◌, ◌*◌, ◌/◌, min, ◌≡◌, refl, ◌==◌, if◌then◌else◌}
use filehost.Handlers.Expiry.{
  Floats, Lifetime, add_days, ratio, life_expectancy_days, calculate_expiry,
}

-- Fractions are cut off; a power is looked at between 0 and 1 only.
abbrev whole : Floats
whole = record {
  F = ℕ;
  of_u64 = λ n. n;
  div = λ a b. a / b;
  min = λ a b. min a b;
  sub = λ a b. a - b;
  add = λ a b. a + b;
  mul = λ a b. a * b;
  powi = λ a n. if n == 0 then 1 else a;
  to_days = λ n. n;
}

abbrev days : Lifetime
days = record { max_filesize = 512; min_fileage = 30; max_fileage = 365; decay_exp = 2 }

empty_file : calculate_expiry whole days 0 0 ≡ some (365 * 86400)
unfolding calculate_expiry life_expectancy_days ratio add_days
empty_file = refl

full_file : calculate_expiry whole days 0 (512 * 1024 * 1024) ≡ some (30 * 86400)
unfolding calculate_expiry life_expectancy_days ratio add_days
full_file = refl

-- An age that leads beyond the year 9999 panics.
too_late : calculate_expiry whole (record days { max_fileage = 2_932_898 }) 0 0 ≡ none
unfolding calculate_expiry life_expectancy_days ratio add_days
too_late = refl
