-- ===== src/Reminders/Tests.antt =====
-- Tests of reminders.
use sealvo.Base.{take, map, ℕ, ◌≡◌, true, none, some, List, [], ◌∷◌, length, select, ◌==◌}
use sealvo.Levels.{level_x}
use sealvo.SpacedRepetition.Utc.{utc}
use sealvo.Reminders.{DueRow, find_due_words_by_user, due_row, summary_of}
use sealvo.Reminders.Counting.{total_of, preview_of, find_due_words-counts}

abbrev first_row : DueRow
first_row = record {
  detail_id = 1;
  level = level_x;
  date_memorized = some 0;
  user_id = 7;
  is_active = true;
}

abbrev rows : List DueRow
rows = first_row ∷ record first_row { detail_id = 2 } ∷ record first_row { user_id = 8 } ∷ []

abbrev now : ℕ
now = 864_000_000

find_due_words-counts_example :
    (total_of (summary_of 7 (find_due_words_by_user utc none now rows))
      ≡ length (select (λ (r : DueRow). r.user_id == 7) (select (due_row utc none now) rows)))
    × (preview_of (summary_of 7 (find_due_words_by_user utc none now rows))
        ≡ take 5 (
            map
              (λ (r : DueRow). (r.detail_id, r.level))
              (select (λ (r : DueRow). r.user_id == 7) (select (due_row utc none now) rows))))
    × (summary_of 7 (find_due_words_by_user utc (some 7) now rows)
        ≡ summary_of 7 (find_due_words_by_user utc none now rows))
find_due_words-counts_example = find_due_words-counts utc now 7 rows
