-- ===== src/Times.antt =====
-- The RFC 3339 times of src/util.rs. `parse` is the time library's parser: the date and time that the
-- text shows, in seconds since the epoch, and how far its zone is ahead of UTC or behind it.
use filehost.Base.{ℕ, ◌+◌, ◌-◌, Option, none, some, Bytes}

pub record OffsetDateTime : Type 0 where
  pub date_time : ℕ
  pub ahead : ℕ
  pub behind : ℕ

-- The seconds since the epoch that the value stands for.
abbrev pub instant : OffsetDateTime → ℕ
instant t = t.date_time + t.behind - t.ahead

-- `PrimitiveDateTime::new(odt.date(), odt.time())`: the offset is left out.
unfoldable pub parse_rfc3339 : (Bytes → Option OffsetDateTime) → Bytes → Option ℕ
parse_rfc3339 parse s = elim (parse s) [ none ↦ none | some odt ↦ some odt.date_time ]
