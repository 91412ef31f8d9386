-- ===== src/SpacedRepetition/Due/Tests.antt =====
-- Tests of the due dates, in a calendar whose days have 24 hours.
use sealvo.Base.{◌≡◌, refl, some, true}
use sealvo.Levels.{level_0, level_interval}
use sealvo.SpacedRepetition.{start_of_today, due_cutoff, is_due}
use sealvo.SpacedRepetition.Utc.{utc}

due_after_a_day : is_due utc level_0 (some 1_000) (start_of_today utc 172_800_000) ≡ true
unfolding is_due due_cutoff start_of_today level_interval
due_after_a_day = refl
