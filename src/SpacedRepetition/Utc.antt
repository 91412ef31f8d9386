-- ===== src/SpacedRepetition/Utc.antt =====
-- A calendar whose days have 24 hours: the laws of `Calendar` can be met, and tests can run.
use sealvo.Base.{ℕ, ◌+◌, ◌*◌, ◌/◌, ◌%◌, ◌<◌, ◌≡◌, ◌↔◌, arith}
use sealvo.SpacedRepetition.{Calendar}

pub lt-day : (t d : ℕ) → (t < d * 86_400_000) ↔ (t / 86_400_000 < d)
lt-day t d = (λ h. omega arith, λ h. omega arith)

pub day-midnight : (d : ℕ) → d * 86_400_000 / 86_400_000 ≡ d
day-midnight d = omega arith

pub set-midnight : (d e : ℕ) → e * 86_400_000 + d * 86_400_000 % 86_400_000 ≡ e * 86_400_000
set-midnight d e = omega arith

-- UTC: every day has 86 400 000 ms.
abbrev pub utc : Calendar
utc = record {
  day_of = λ t. t / 86_400_000;
  midnight = λ d. d * 86_400_000;
  set_date = λ t e. e * 86_400_000 + t % 86_400_000;
  lt-midnight = lt-day;
  day_of-midnight = day-midnight;
  set_date-midnight = set-midnight;
}
