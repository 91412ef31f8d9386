-- ===== src/Learning/Streak.antt =====
-- `checkAndUpdateStreak`: the read of the user's row, the conditional write, and the second read
-- when the write matched nothing. Other requests may run between the read and the write, so the
-- two database calls are functions of their own.
use sealvo.Base.{
  ℕ, ◌+◌, ◌-◌, ◌≤◌, ◌<◌, ◌≡◌, ◌↔◌, Bool, true, false, Option, none, some, arith, ltb, leb,
  if◌then◌else◌, leb_iff,
}
use native.Mathlib.Decide.{dec_lt}
use sealvo.SpacedRepetition.{Calendar, start_of_today}

pub record User : Type 0 where
  pub streak : ℕ
  pub streak_updated_at : Option ℕ

-- `updated`, the streak shown, and whether the reason "already updated today" is given.
pub record Reply : Type 0 where
  pub updated : Bool
  pub streak : ℕ
  pub already_today : Bool

module _ (c : Calendar) where
  unfoldable pub yesterday : ℕ → ℕ
  yesterday today = c.set_date today (c.day_of today - 1)

  -- last && last >= bound
  unfoldable pub since : ℕ → Option ℕ → Bool
  since bound none = false
  since bound (some last) = leb bound last

  unfoldable pub new_streak : ℕ → User → ℕ
  unfolding since yesterday
  new_streak today u = if since (yesterday today) u.streak_updated_at then u.streak + 1 else 1

  -- updateMany where streak_updated_at is null or before today: the row, and the count.
  unfoldable pub streak_write : ℕ → ℕ → ℕ → Option User → Option User × ℕ
  unfolding since
  streak_write today now streak none = (none, 0)
  streak_write today now streak (some u) =
      if since today u.streak_updated_at
      then (some u, 0)
      else (some (record { streak = streak; streak_updated_at = some now }), 1)

  abbrev shown : Option User → ℕ
  shown none = 0
  shown (some u) = u.streak

  -- `read` is the row at the first read, `row` the row when the write is made.
  unfoldable pub check_and_update_streak : ℕ → Option User → Option User → Reply × Option User
  unfolding since new_streak streak_write start_of_today
  check_and_update_streak now none row =
      (record { updated = false; streak = 0; already_today = false }, row)
  check_and_update_streak now (some u) row =
      let today = start_of_today c now in
      if since today u.streak_updated_at
      then (record { updated = false; streak = u.streak; already_today = true }, row)
      else (let (row', count) = streak_write today now (new_streak today u) row in
          if ltb 0 count
          then (record { updated = true; streak = new_streak today u; already_today = false }, row')
          else (record { updated = false; streak = shown row'; already_today = true }, row'))

  not_lt : {a b x y : ℕ} → (x < y → a < b) → b ≤ a → y ≤ x
  not_lt {a} {b} {x} {y} f h = elim (dec_lt x y) [
    | yes k ↦ absurd (omega (arith, f k))
    | no k ↦ omega arith
  ]

  since-today :
      (now last : ℕ)
      → (since (start_of_today c now) (some last) ≡ true) ↔ (c.day_of now ≤ c.day_of last)
  unfolding since start_of_today yesterday
  since-today now last =
      let bound = leb_iff (c.midnight (c.day_of now)) last in
      let cut = c.lt-midnight last (c.day_of now) in
      (λ h. not_lt (λ k. cut.1 k) (bound.0 h), λ h. bound.1 (not_lt (λ k. cut.0 k) h))

  since-yesterday :
      (now last : ℕ)
      → (since (yesterday (start_of_today c now)) (some last) ≡ true)
        ↔ (c.day_of now ≤ c.day_of last + 1)
  unfolding since start_of_today yesterday
  since-yesterday now last =
      let bound = leb_iff (c.midnight (c.day_of now - 1)) last in
      let cut = c.lt-midnight last (c.day_of now - 1) in
      rw (c.day_of-midnight (c.day_of now), yesterday, c.set_date-midnight (c.day_of now) _)
        (
          λ h. omega (arith, not_lt (λ k. cut.1 k) (bound.0 h)),
          λ h. bound.1 (not_lt (λ k. cut.0 k) (omega arith)),
        )

  -- The streak counts the calendar days: a day already counted is not counted again, the day
  -- after the last one adds 1, and any other day (or the first) starts again at 1.
  pub streak_by_day :
      (now last streak : ℕ)
      → let u : User = record { streak = streak; streak_updated_at = some last } in
        let (reply, row) = check_and_update_streak now (some u) (some u) in
        let day = c.day_of now in
        let fresh = λ (n : ℕ).
          (reply.updated ≡ true)
          × (reply.streak ≡ n)
          × (row ≡ some (record { streak = n; streak_updated_at = some now })) in
        (day ≤ c.day_of last → (reply.updated ≡ false) × (reply.streak ≡ streak) × (row ≡ some u))
        × (c.day_of last + 1 ≡ day → fresh (streak + 1))
        × (c.day_of last + 1 < day → fresh 1)
  unfolding check_and_update_streak
  streak_by_day now last streak = ground (arith, since-today now last, since-yesterday now last)

  -- However the requests of one day interleave, only one counts: once a request has written, any
  -- other of the same day leaves the row alone, whatever it had read.
  pub streak_once_a_day :
      (now later : ℕ) (read row other : Option User)
      → (check_and_update_streak now read row).0.updated ≡ true
      → c.day_of later ≡ c.day_of now
      → let row' = (check_and_update_streak now read row).1 in
        let (reply, row'') = check_and_update_streak later other row' in
        (reply.updated ≡ false) × (row'' ≡ row')
  unfolding check_and_update_streak
  streak_once_a_day now later read row other h same = ground (arith, since-today later now)
