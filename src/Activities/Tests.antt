-- ===== src/Activities/Tests.antt =====
-- Tests of the journal.
use sealvo.Base.{ℕ, ◌≡◌, refl, true, Option, none, some, List, [], ◌∷◌, map}
use sealvo.Activities.{
  ActivityStatus, ActivityPhase, Row, JobEntry, Outcome, import_type, start, advance, finish_job,
  update_rows, saving, parsing, done_phase, running, succeeded_status,
}

abbrev entry : JobEntry
entry = record {
  user_id = 7;
  type = import_type;
  package_id = 3;
  package_name = none;
  file_name = none;
  word_count = 40;
}

abbrev all_saved : Outcome
all_saved = record {
  succeeds = true;
  current = some 40;
  total = none;
  error_count = some 0;
  error_message = none;
}

abbrev shown : Row → ActivityStatus × Option ActivityPhase × Option ℕ
shown r = (r.status, r.phase, r.progress_current)

-- Two jobs, of which the first is reported and ends.
abbrev two_jobs : List Row
two_jobs = start 10 entry 6 (start 0 entry 5 [])

while_saving :
    map shown (advance 20 5 saving 12 40 two_jobs)
    ≡ (running, some parsing, some 0) ∷ (running, some saving, some 12) ∷ []
unfolding start advance update_rows
while_saving = refl

afterwards :
    map shown (finish_job 30 5 all_saved (advance 20 5 saving 12 40 two_jobs))
    ≡ (running, some parsing, some 0) ∷ (succeeded_status, some done_phase, some 40) ∷ []
unfolding start advance finish_job update_rows
afterwards = refl
