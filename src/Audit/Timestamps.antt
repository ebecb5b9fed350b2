-- ===== src/Audit/Timestamps.antt =====
-- Timestamps: `canonical_ts` gives one form to a datetime, whether or not it carries a zone.
use skyrecon.Base.{ℕ, ◌+◌, ◌-◌, Option, none, some, String}

-- The offset of a zone from UTC, in microseconds.
pub data Offset : Type 0 where
  ahead : ℕ → Offset
  behind : ℕ → Offset

-- A wall clock reading in microseconds since the first representable instant, with its zone if any.
pub record DateTime : Type 0 where
  pub wall : ℕ
  pub tzinfo : Option Offset

-- `astimezone(UTC).replace(tzinfo=None)`
abbrev pub utc_wall : ℕ → Option Offset → ℕ
utc_wall w none = w
utc_wall w (some (ahead n)) = w - n
utc_wall w (some (behind n)) = w + n

unfoldable pub canonical_ts : (ℕ → String) → DateTime → String
canonical_ts isoformat dt = isoformat (utc_wall dt.wall dt.tzinfo)
