-- ===== src/Activities.antt =====
-- apps/api/src/activity/activity-log.service.ts: the journal of the user's activities. Imports and
-- bulk additions have one row that changes while they run. The random key of a row is left out:
-- rows are found by their job.
mod Tests
pub mod Jobs
use sealvo.Base.{
  ℕ, Bool, true, false, not, ◌&&◌, Option, none, some, List, [], ◌∷◌, select, take, length, ◌==◌,
  if◌then◌else◌,
}
use sealvo.Session.Token.{Text}

pub data ActivityType : Type 0 where
  login_type password_change_type email_change_type package_create_type package_delete_type
        import_type add_words_type :
      ActivityType

pub data ActivityStatus : Type 0 where
  running succeeded_status failed_status : ActivityStatus

pub data ActivityPhase : Type 0 where
  parsing enriching saving done_phase : ActivityPhase

pub record Row : Type 0 where
  pub user_id : ℕ
  pub type : ActivityType
  pub status : ActivityStatus
  pub occurred_at : ℕ
  pub updated_at : ℕ
  pub package_id : Option ℕ
  pub package_name : Option Text
  pub file_name : Option Text
  pub word_count : Option ℕ
  pub error_count : Option ℕ
  pub phase : Option ActivityPhase
  pub progress_current : Option ℕ
  pub error_message : Option Text
  pub job_id : Option ℕ

-- An entry of a job, as the services give it.
pub record JobEntry : Type 0 where
  pub user_id : ℕ
  pub type : ActivityType
  pub package_id : ℕ
  pub package_name : Option Text
  pub file_name : Option Text
  pub word_count : ℕ

abbrev pub clip : ℕ → Option Text → Option Text
clip n none = none
clip n (some t) = some (take n t)

unfoldable pub succeeded : ℕ → ℕ → ActivityType → Option ℕ → Option Text → List Row → List Row
succeeded now user type package_id package_name rows =
    record {
      user_id = user;
      type = type;
      status = succeeded_status;
      occurred_at = now;
      updated_at = now;
      package_id = package_id;
      package_name = package_name;
      file_name = none;
      word_count = none;
      error_count = none;
      phase = none;
      progress_current = none;
      error_message = none;
      job_id = none;
    }
    ∷ rows

-- A row of an entry, with what its kind adds.
abbrev pub entry_row :
    ℕ
    → JobEntry
    → ActivityStatus
    → Option ActivityPhase
    → Option ℕ
    → Option Text
    → Option ℕ
    → ℕ
    → Row
entry_row now e status phase current message job errors = record {
  user_id = e.user_id;
  type = e.type;
  status = status;
  occurred_at = now;
  updated_at = now;
  package_id = some e.package_id;
  package_name = e.package_name;
  file_name = clip 255 e.file_name;
  word_count = some e.word_count;
  error_count = some errors;
  phase = phase;
  progress_current = current;
  error_message = message;
  job_id = job;
}

unfoldable pub start : ℕ → JobEntry → ℕ → List Row → List Row
start now e job rows = entry_row now e running (some parsing) (some 0) none (some job) 0 ∷ rows

unfoldable pub record_finished : ℕ → JobEntry → List Row → List Row
record_finished now e rows =
    entry_row now e succeeded_status (some done_phase) (some e.word_count) none none 0 ∷ rows

-- The entry's type is import.
unfoldable pub record_import_failed : ℕ → JobEntry → Text → List Row → List Row
record_import_failed now e message rows =
    entry_row now (record e { type = import_type }) failed_status none none
      (some (take 255 message)) none 0
    ∷ rows

abbrev pub of_job : ℕ → Row → Bool
of_job job r = elim r.job_id [ none ↦ false | some j ↦ j == job ]

unfoldable pub discard : ℕ → List Row → List Row
discard job rows = select (λ r. not (of_job job r)) rows

abbrev pub is_running : ActivityStatus → Bool
is_running running = true
is_running succeeded_status = false
is_running failed_status = false

unfoldable pub update_rows : (Row → Bool) → (Row → Row) → List Row → List Row
update_rows where_ write [] = []
update_rows where_ write (r ∷ rows) =
    (if where_ r then write r else r) ∷ update_rows where_ write rows

unfoldable pub advance : ℕ → ℕ → ActivityPhase → ℕ → ℕ → List Row → List Row
advance now job phase current total rows =
    update_rows (λ r. of_job job r && is_running r.status)
      (λ r. record r {
        phase = some phase;
        progress_current = some current;
        word_count = some total;
        updated_at = now;
      })
      rows

pub record Outcome : Type 0 where
  pub succeeds : Bool
  pub current : Option ℕ
  pub total : Option ℕ
  pub error_count : Option ℕ
  pub error_message : Option Text

abbrev pub or_kept : {A : Type 0} → Option A → Option A → Option A
or_kept none old = old
or_kept (some new) old = some new

unfoldable pub finish_job : ℕ → ℕ → Outcome → List Row → List Row
finish_job now job o rows =
    update_rows (of_job job)
      (λ r. record r {
        status = if o.succeeds then succeeded_status else failed_status;
        phase = if o.succeeds then some done_phase else r.phase;
        progress_current = or_kept o.current r.progress_current;
        word_count = or_kept o.total r.word_count;
        error_count = or_kept o.error_count r.error_count;
        error_message = or_kept (clip 255 o.error_message) r.error_message;
        updated_at = now;
      })
      rows
