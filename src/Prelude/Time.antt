-- ===== src/Prelude/Time.antt =====
-- Python's datetimes, as the microseconds since the epoch.
use Prim.Native.Nat.{ℕ, ◌+◌, ◌-◌}
use mathlib.Core.Option.{Option, none, some}

-- A datetime with its time zone, or without one.
pub data Datetime : Type 0 where
  aware naive : ℕ → Datetime

abbrev pub aware_at : Datetime → Option ℕ
aware_at (aware at_time) = some at_time
aware_at (naive at_time) = none

-- `abs(a - b)`.
abbrev pub distance : ℕ → ℕ → ℕ
distance a b = (a - b) + (b - a)
