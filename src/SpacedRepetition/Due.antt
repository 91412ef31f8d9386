-- ===== src/SpacedRepetition/Due.antt =====
-- The cut-off dates are the calendar rule that the comments and BUSINESS_RULES.md state.
mod Tests
use sealvo.Base.{
  ℕ, ◌+◌, ◌-◌, ◌≤◌, ◌<◌, ◌≡◌, refl, ◌↔◌, Bool, true, false, Option, none, some, List, [], ◌∷◌,
  arith, ltb, ltb_iff, any, ◌&&◌, Bool-cases, inl, inr,
}
use sealvo.Levels.{Level, level_x, level_0, level_1, level_2, level_v, same_level, level_interval}
use sealvo.SpacedRepetition.{
  Calendar, start_of_today, days_cutoff, due_cutoff, is_due, due_where_conditions,
}

module _ (c : Calendar) where
  -- The cut-off of today is the midnight that begins day `today + 1 - days`.
  pub days_cutoff-start_of_today :
      (days now : ℕ)
      → days_cutoff c days (start_of_today c now) ≡ c.midnight (c.day_of now + 1 - days)
  unfolding days_cutoff start_of_today
  days_cutoff-start_of_today days now =
      rw (c.day_of-midnight (c.day_of now), days_cutoff) (c.set_date-midnight (c.day_of now) _)

  -- A word is due exactly when the day of its date plus the level's interval is not after today.
  pub is_due_iff :
      (l : Level) (date now : ℕ)
      → (is_due c l (some date) (start_of_today c now) ≡ true)
        ↔ (c.day_of date + level_interval l ≤ c.day_of now)
  unfolding is_due due_cutoff
  is_due_iff l date now =
      rw (days_cutoff-start_of_today (level_interval l) now) (due_test l date now)
    where
      due_test :
          (l : Level) (date now : ℕ)
          → (ltb date (c.midnight (c.day_of now + 1 - level_interval l)) ≡ true)
            ↔ (c.day_of date + level_interval l ≤ c.day_of now)
      due_test l date now =
          let cut = c.lt-midnight date (c.day_of now + 1 - level_interval l) in
          let test = ltb_iff date (c.midnight (c.day_of now + 1 - level_interval l)) in
          (λ h. omega (arith, cut.0 (test.0 h)), λ h. test.1 (cut.1 (omega arith)))

  -- The row matches a clause of the query.
  abbrev pub matches_row : Level → Option ℕ → Level × ℕ → Bool
  matches_row l none (k, cutoff) = false
  matches_row l (some date) (k, cutoff) = same_level k l && ltb date cutoff

  -- The database query for due rows and the test in the code select the same rows, at every level.
  pub due_where_conditions-eq-is_due :
      (l : Level) (date : Option ℕ) (today : ℕ)
      → any (matches_row l date) (due_where_conditions c today) ≡ is_due c l date today
  unfolding due_where_conditions is_due
  due_where_conditions-eq-is_due level_x none today = refl
  due_where_conditions-eq-is_due level_0 none today = refl
  due_where_conditions-eq-is_due level_1 none today = refl
  due_where_conditions-eq-is_due level_2 none today = refl
  due_where_conditions-eq-is_due level_v none today = refl
  due_where_conditions-eq-is_due level_x (some date) today = ground arith
  due_where_conditions-eq-is_due level_0 (some date) today = ground arith
  due_where_conditions-eq-is_due level_1 (some date) today = ground arith
  due_where_conditions-eq-is_due level_2 (some date) today = ground arith
  due_where_conditions-eq-is_due level_v (some date) today = ground arith
