-- ===== src/Imports/Bulk.antt =====
-- apps/api/src/import/bulk-words.service.ts: a request with many words becomes a job in the outbox
-- and is published at once if the broker takes it; one with few words is saved in the request. The
-- tracked job is left out, also its removal when the transaction fails.
use sealvo.Base.{ℕ, Bool, false, not, ◌&&◌, none, some, List, leb, if◌then◌else◌, length}
use sealvo.Vocabulary.Tables.{Key, Db, Result, ok, db_error}
use sealvo.Vocabulary.Enrichment.{Gemini}
use sealvo.Vocabulary.Words.{Attempt, add_words}
use sealvo.Session.Token.{Text}
use sealvo.Activities.{Row, JobEntry, start, record_finished, record_import_failed}
use sealvo.Imports.{Payload}
use sealvo.Imports.Outbox.{OutboxRow, add, remove}

pub data BulkJobType : Type 0 where
  import_type add_words_type : BulkJobType

unfoldable pub queue_threshold : BulkJobType → ℕ
queue_threshold import_type = 1
queue_threshold add_words_type = 3

-- What the broker does to the message of the request: is there a channel, is the message confirmed,
-- and can the row be removed afterwards.
pub record Broking : Type 0 where
  pub channel : Bool
  pub confirmed : Bool
  pub removable : Bool

unfoldable pub try_publish : Broking → Bool
try_publish b = if not b.channel then false else b.confirmed

-- The transaction writes the journal and the outbox, or neither: `commits` is whether it does. `at`
-- is the time that the journal stores, `now` that of the outbox.
unfoldable pub enqueue :
    Broking
    → Bool
    → ℕ
    → ℕ
    → JobEntry
    → Payload
    → List Row
    → List OutboxRow
    → Result ℕ × List Row × List OutboxRow
unfolding try_publish
enqueue b commits at now entry p journal rows = elim (add now p rows) [
  | none ↦ (db_error, journal, rows)
  | some stored ↦ if not commits then (db_error, journal, rows) else (
    ok p.job_id,
    start at entry p.job_id journal,
    if try_publish b && b.removable then remove p.job_id stored else stored,
  )
]

pub data BulkResult : Type 0 where
  queued : ℕ → BulkResult
  saved : ℕ → BulkResult
  refused : BulkResult

-- The journal after a save in the request that failed: it tells of imports only.
unfoldable pub note_failure : BulkJobType → ℕ → JobEntry → Text → List Row → List Row
note_failure import_type at entry message journal = record_import_failed at entry message journal
note_failure add_words_type at entry message journal = journal

module _ (collate before : Key → Key → Bool) (gemini : Gemini) (attempts : ℕ → Attempt)
    (failed_message : Text) where
  -- `journals`: whether the journal takes the line of a save in the request, whose loss is ignored.
  unfoldable pub bulk_add :
      BulkJobType
      → Broking
      → Bool
      → Bool
      → ℕ
      → ℕ
      → JobEntry
      → Payload
      → Db
      → List Row
      → List OutboxRow
      → BulkResult × Db × List Row × List OutboxRow
  unfolding queue_threshold
  bulk_add type b commits journals at now entry p db journal rows =
      let (accepted, journal', stored) = enqueue b commits at now entry p journal rows in
      let (added, after) =
        add_words collate before gemini attempts now p.package_id none p.words_data db db in
      let noted : List Row → List Row = λ lines. if journals then lines else journal in
      if leb (queue_threshold type) (length p.words_data)
      then elim accepted [
        | ok job ↦ (queued job, db, journal', stored)
        | _ ↦ (refused, db, journal', stored)
      ]
      else elim added [
        | ok a ↦ (
          saved a.success_count,
          after,
          noted (record_finished at (record entry { word_count = a.success_count }) journal),
          rows,
        )
        | _ ↦ (refused, after, noted (note_failure type at entry failed_message journal), rows)
      ]
