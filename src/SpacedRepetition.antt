-- ===== src/SpacedRepetition.antt =====
-- apps/api/src/common/domain/spaced-repetition.ts: when a word is due.
-- JavaScript's `Date` and the time zone's rules are not code of the repository. They are the record
-- `Calendar`: an instant is a number of milliseconds, a day is counted from a day before all data.
pub mod Due
pub mod Utc
use sealvo.Base.{ℕ, ◌+◌, ◌-◌, ◌<◌, ◌≡◌, ◌↔◌, Bool, false, Option, none, some, List, map, ltb}
use sealvo.Levels.{Level, levels, level_interval}

-- `Date` in the local time zone. `set_date t d` is the instant on day `d` at the clock time of `t`.
pub record Calendar : Type 0 where
  pub day_of : ℕ → ℕ
  pub midnight : ℕ → ℕ
  pub set_date : ℕ → ℕ → ℕ
  pub lt-midnight : (t d : ℕ) → (t < midnight d) ↔ (day_of t < d)
  pub day_of-midnight : (d : ℕ) → day_of (midnight d) ≡ d
  pub set_date-midnight : (d e : ℕ) → set_date (midnight d) e ≡ midnight e

module _ (c : Calendar) where
  -- setHours(0, 0, 0, 0) on the current instant
  unfoldable pub start_of_today : ℕ → ℕ
  start_of_today now = c.midnight (c.day_of now)

  unfoldable pub days_cutoff : ℕ → ℕ → ℕ
  days_cutoff days today = c.set_date today (c.day_of today + 1 - days)

  unfoldable pub due_cutoff : Level → ℕ → ℕ
  unfolding days_cutoff
  due_cutoff level today = days_cutoff (level_interval level) today

  unfoldable pub is_due : Level → Option ℕ → ℕ → Bool
  is_due level none today = false
  is_due level (some date) today = ltb date (due_cutoff level today)

  -- The clauses of the query's OR: a level with the date below which its rows match.
  unfoldable pub due_where_conditions : ℕ → List (Level × ℕ)
  due_where_conditions today = map (λ level. (level, due_cutoff level today)) levels
