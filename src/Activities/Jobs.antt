-- ===== src/Activities/Jobs.antt =====
-- What the rows of a job go through.
use sealvo.Base.{
  ℕ, ◌≡◌, refl, ap, inl, inr, Bool, true, false, not, ◌&&◌, List, [], ◌∷◌, arith, All, select,
  if◌then◌else◌, Bool-cases, ==_iff,
}
use sealvo.Activities.{
  Row, JobEntry, Outcome, ActivityPhase, of_job, is_running, update_rows, start, advance,
  finish_job, discard, failed_status, succeeded_status,
}

-- No row of the job is running.
abbrev pub Ended : ℕ → List Row → Type 0
Ended job = All (λ r. of_job job r ≡ true → is_running r.status ≡ false)

has_ended : (b : Bool) → is_running (if b then succeeded_status else failed_status) ≡ false
has_ended true = refl
has_ended false = refl

finish_job-Ended :
    (now job : ℕ) (o : Outcome) (rows : List Row) → Ended job (finish_job now job o rows)
unfolding finish_job update_rows
finish_job-Ended now job o [] = tt
finish_job-Ended now job o (r ∷ rows) = (
  elim (Bool-cases (of_job job r)) [
    | inl mine ↦ rw mine (λ own. has_ended o.succeeds)
    | inr other ↦ rw other (λ own. absurd (ground arith))
  ],
  finish_job-Ended now job o rows,
)

Ended-advance :
    (now job : ℕ) (phase : ActivityPhase) (current total : ℕ) (rows : List Row)
    → Ended job rows
    → advance now job phase current total rows ≡ rows
unfolding advance update_rows
Ended-advance now job phase current total [] e = refl
Ended-advance now job phase current total (r ∷ rows) e =
    elim (Bool-cases (of_job job r && is_running r.status)) [
      | inl both ↦ absurd (ground (arith, e.0))
      | inr apart ↦
          rw apart (ap (λ rs. r ∷ rs) (Ended-advance now job phase current total rows e.1))
    ]

-- Once a job has been finished, with whatever result, a later report of its progress changes
-- nothing in the journal.
pub advance-finish_job :
    (now later job : ℕ) (o : Outcome) (phase : ActivityPhase) (current total : ℕ) (rows : List Row)
    → advance later job phase current total (finish_job now job o rows) ≡ finish_job now job o rows
advance-finish_job now later job o phase current total rows =
    Ended-advance later job phase current total (finish_job now job o rows)
      (finish_job-Ended now job o rows)

-- The rows of other jobs.
select_others :
    (job : ℕ) (rows : List Row)
    → All (λ r. of_job job r ≡ false) rows
    → select (λ r. not (of_job job r)) rows ≡ rows
select_others job [] a = refl
select_others job (r ∷ rows) a = rw (a.0) (ap (λ rs. r ∷ rs) (select_others job rows a.1))

-- When no row of the journal is of the job: starting the job and discarding it gives the journal as
-- it was.
pub discard-start :
    (now job : ℕ) (e : JobEntry) (rows : List Row)
    → All (λ r. of_job job r ≡ false) rows
    → discard job (start now e job rows) ≡ rows
unfolding discard start
discard-start now job e rows a = ground (arith, select_others job rows a, ==_iff job job)
