-- ===== src/Imports.antt =====
-- apps/api/src/rabbitmq/retry-queue.ts and the worker of
-- apps/api/src/import/import-queue.service.ts. The broker is not code of the repository: a message
-- comes with what the broker says of it. The journal, the cache of the dashboard and the progress
-- of a job between its start and its end are left out.
pub mod Life
pub mod Once
pub mod Outbox
pub mod Bulk
pub mod Claims
pub mod Excluding
mod Tests
use sealvo.Base.{
  ℕ, zero, suc, ◌+◌, ◌-◌, Bool, true, false, not, ◌&&◌, Option, none, some, List, [], ◌∷◌, leb,
  if◌then◌else◌, find, length,
}
use sealvo.Vocabulary.Tables.{Key, Db, Result, ok, not_found, forbidden, db_error}
use sealvo.Vocabulary.Enrichment.{NewWord, Gemini}
use sealvo.Vocabulary.Words.{Attempt, Added, add_words, is_job_applied}

-- An entry of the header x-death: `mine` for this work queue, `rejected` for that reason.
pub record Death : Type 0 where
  pub mine : Bool
  pub rejected : Bool
  pub count : ℕ

pub record Payload : Type 0 where
  pub job_id : ℕ
  pub words_data : List NewWord
  pub package_id : ℕ
  pub user_id : ℕ

-- `none`: not JSON, or not an import job.
pub record Message : Type 0 where
  pub payload : Option Payload
  pub redelivered : Bool
  pub deaths : List Death

abbrev pub max_retries : ℕ
max_retries = 1

unfoldable pub retry_count : Message → ℕ
retry_count msg = elim (find (λ (d : Death). d.mine && d.rejected) msg.deaths) [
  | none ↦ 0
  | some d ↦ d.count
]

unfoldable pub exhausted : Message → Bool
unfolding retry_count
exhausted msg = leb max_retries (retry_count msg)

-- What becomes of a message: `nacked` goes round the retry queue, `parked` is in the failed queue,
-- `unanswered` stays with the broker, since the worker stopped.
pub data Verdict : Type 0 where
  acked nacked parked unanswered : Verdict

-- reject(): `confirmed` is whether the broker confirms the parked copy.
unfoldable pub reject : Bool → Message → Verdict
unfolding exhausted
reject confirmed msg = if not (exhausted msg) then nacked else if confirmed then parked else nacked

pub data JobStatus : Type 0 where
  pending processing retrying completed failed : JobStatus

pub record Job : Type 0 where
  pub status : JobStatus
  pub imported : Option ℕ

-- JobTrackerService.update: nothing without Redis, or when the job has expired. A result that is
-- not given stays.
unfoldable pub update_job : Bool → JobStatus → Option ℕ → Option Job → Option Job
update_job up status imported none = none
update_job up status imported (some j) =
    let kept : Option ℕ = elim imported [ none ↦ j.imported | some n ↦ some n ] in
    if up then some (record { status = status; imported = kept }) else some j

pub record World : Type 0 where
  pub db : Db
  pub job : Option Job

-- When the worker stops: before the words are committed, after that, or after all but the answer,
-- which a lost ack is like.
pub data Crash : Type 0 where
  no_crash before_commit after_commit before_ack : Crash

-- What the surroundings do to one delivery.
pub record Delivery : Type 0 where
  pub attempts : ℕ → Attempt
  pub now : ℕ
  pub redis_up : Bool
  pub confirmed : Bool
  pub crash : Crash

unfoldable pub complete : Delivery → ℕ → World → World
unfolding update_job
complete e imported w = record w { job = update_job e.redis_up completed (some imported) w.job }

unfoldable pub fail : Delivery → Message → World → Verdict × World
unfolding update_job reject exhausted
fail e msg w =
    let status = if exhausted msg then failed else retrying in
    (reject e.confirmed msg, record w { job = update_job e.redis_up status none w.job })

-- The end of an attempt: the job is complete, or the attempt has failed.
unfoldable pub settle : Delivery → Message → Result Added → World → Verdict × World
settle e msg (ok a) w = (acked, complete e a.success_count w)
settle e msg _ w = fail e msg w

-- What a stop leaves of a delivery that saves no words: nothing, or all but the answer.
unfoldable pub cut_short : Crash → World → Verdict × World → Verdict × World
cut_short no_crash w r = r
cut_short before_commit w r = (unanswered, w)
cut_short after_commit w r = (unanswered, r.1)
cut_short before_ack w r = (unanswered, r.1)

module _ (collate before : Key → Key → Bool) (gemini : Gemini) where
  -- addWords with the job's id, on the tables as they are.
  unfoldable pub save : Delivery → Payload → Db → Result Added × Db
  save e p db =
      add_words collate before gemini e.attempts e.now p.package_id (some p.job_id) p.words_data db
        db

  unfoldable pub process_job : Delivery → Message → Payload → World → Verdict × World
  process_job e msg p w =
      let started = record w { job = update_job e.redis_up processing none w.job } in
      let (r, db) = save e p w.db in
      let saved = record started { db = db } in
      let (verdict, settled) = settle e msg r saved in
      elim e.crash [
        | no_crash ↦ (verdict, settled)
        | before_commit ↦ (unanswered, started)
        | after_commit ↦ (unanswered, saved)
        | before_ack ↦ (unanswered, settled)
      ]

  unfoldable pub handle : Delivery → Message → World → Verdict × World
  handle e msg w = elim msg.payload [
    | none ↦ cut_short e.crash w (acked, w)
    | some p ↦
        let interrupted =
          if is_job_applied (some p.job_id) w.db
          then (acked, complete e (length p.words_data) w)
          else fail e msg w in
        if msg.redelivered then cut_short e.crash w interrupted else process_job e msg p w
  ]
