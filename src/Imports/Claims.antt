-- ===== src/Imports/Claims.antt =====
-- A stored job is not lost.
use sealvo.Base.{
  &&_iff, ℕ, ◌≡◌, ◌≢◌, ◌⊎◌, inl, inr, refl, ap, subst, ◌∙◌, Bool, true, false, ◌&&◌, none, some,
  List, [], ◌∷◌, map, arith, ◌==◌, if◌then◌else◌, find, Bool-cases, Option-cases,
}
use sealvo.Activities.{Row, JobEntry, start}
use sealvo.Imports.{Payload}
use sealvo.Imports.Bulk.{Broking, try_publish, enqueue}
use sealvo.Vocabulary.Tables.{ok, db_error}
use sealvo.Imports.Outbox.{
  OutboxRow, add, is_job, claimable, claim, holds_claim, release, remove, flush_row, flush_rows,
  flush, pending_rows,
}

-- The row with the job and its words is stored.
abbrev pub Stored : Payload → List OutboxRow → Type 0
Stored p [] = ⊥
Stored p (r ∷ rows) = (r.job ≡ p) ⊎ Stored p rows

map-Stored :
    (f : OutboxRow → OutboxRow) (p : Payload) (rows : List OutboxRow)
    → ((r : OutboxRow) → (f r).job ≡ r.job)
    → Stored p rows
    → Stored p (map f rows)
map-Stored f p [] same h = h
map-Stored f p (r ∷ rows) same (inl e) = inl (same r ∙ e)
map-Stored f p (r ∷ rows) same (inr there) = inr (map-Stored f p rows same there)

claim-Stored :
    (now job : ℕ) (p : Payload) (rows : List OutboxRow)
    → Stored p rows
    → Stored p (claim now job rows).1
unfolding claim
claim-Stored now job p rows =
    map-Stored (λ r. if claimable now job r then record r { claimed_at = some now } else r) p rows
      (λ r. ground arith)

release-Stored :
    (job t : ℕ) (p : Payload) (rows : List OutboxRow)
    → Stored p rows
    → Stored p (release job t rows)
unfolding release
release-Stored job t p rows =
    map-Stored (λ r. if is_job job r && holds_claim t r then record r { claimed_at = none } else r)
      p rows (λ r. ground arith)

remove-Stored :
    (job : ℕ) (p : Payload) (rows : List OutboxRow)
    → p.job_id ≢ job
    → Stored p rows
    → Stored p (remove job rows)
unfolding remove
remove-Stored job p [] other h = h
remove-Stored job p (r ∷ rows) other (inl e) =
    let mine : is_job job r ≡ false = ap (λ (q : Payload). q.job_id == job) e ∙ ground arith in
    rw mine (inl e)
remove-Stored job p (r ∷ rows) other (inr there) = elim (Bool-cases (is_job job r)) [
  | inl e ↦ rw e (remove-Stored job p rows other there)
  | inr e ↦ rw e (inr (remove-Stored job p rows other there))
]

flush_row-Stored :
    (publish : Payload → Bool) (now : ℕ) (q p : Payload) (rows : List OutboxRow)
    → (publish q ≡ true → p.job_id ≢ q.job_id)
    → Stored p rows
    → Stored p (flush_row publish now q rows)
unfolding flush_row
flush_row-Stored publish now q p rows other h =
    let kept = claim-Stored now q.job_id p rows h in
    elim (Option-cases (claim now q.job_id rows).0) [
      | inl e ↦ rw (flush_row, e) kept
      | inr (t, e) ↦ elim (Bool-cases (publish q)) [
        | inl yes_sent ↦
            rw (flush_row, e, yes_sent)
              (remove-Stored q.job_id p (claim now q.job_id rows).1 (other yes_sent) kept)
        | inr not_sent ↦
            rw (flush_row, e, not_sent)
              (release-Stored q.job_id t p (claim now q.job_id rows).1 kept)
      ]
    ]

flush_rows-Stored :
    (publish : Payload → Bool) (now : ℕ) (p : Payload) (batch rows : List OutboxRow)
    → ((q : Payload) → publish q ≡ true → p.job_id ≢ q.job_id)
    → Stored p rows
    → Stored p (flush_rows publish now batch rows)
unfolding flush_rows
flush_rows-Stored publish now p [] rows other h = h
flush_rows-Stored publish now p (r ∷ batch) rows other h =
    flush_rows-Stored publish now p batch (flush_row publish now r.job rows) other
      (flush_row-Stored publish now r.job p rows (other r.job) h)

-- A stored job of which the broker confirms no message is still stored, with its words, after the
-- relay has flushed the table.
pub flush-Stored :
    (publish : Payload → Bool) (now : ℕ) (p : Payload) (rows : List OutboxRow)
    → ((q : Payload) → publish q ≡ true → p.job_id ≢ q.job_id)
    → Stored p rows
    → Stored p (flush publish now rows)
unfolding flush
flush-Stored publish now p rows = flush_rows-Stored publish now p (pending_rows now rows) rows

add_stores :
    (now : ℕ) (p : Payload) (rows stored : List OutboxRow)
    → add now p rows ≡ some stored
    → Stored p stored × ((q : Payload) → Stored q rows → Stored q stored)
unfolding add
add_stores now p rows stored h = elim (Option-cases (find (is_job p.job_id) rows)) [
  | inr (r, e) ↦ absurd (ground arith)
  | inl e ↦
      let same : (record { job = p; created_at = now; claimed_at = none }) ∷ rows ≡ stored =
        ground arith in
      (subst (Stored p) same (inl refl), λ q there. subst (Stored q) same (inr there))
]

-- A job is refused exactly when the transaction does not commit or its id is stored already, and
-- then neither the journal nor the outbox changes. Otherwise it is accepted: the journal has its
-- new line, the job is published or stored in the outbox, and the jobs stored before with other ids
-- stay.
pub enqueue_keeps :
    (b : Broking) (commits : Bool) (at now : ℕ) (entry : JobEntry) (p : Payload)
    (journal : List Row) (rows : List OutboxRow)
    → let (r, journal', after) = enqueue b commits at now entry p journal rows in
      (((commits ≡ false) ⊎ ((old : OutboxRow) × (find (is_job p.job_id) rows ≡ some old)))
        × (r ≡ db_error)
        × (journal' ≡ journal)
        × (after ≡ rows))
      ⊎ ((commits ≡ true)
          × (find (is_job p.job_id) rows ≡ none)
          × (r ≡ ok p.job_id)
          × (journal' ≡ start at entry p.job_id journal)
          × ((try_publish b ≡ true) ⊎ Stored p after)
          × ((q : Payload) → q.job_id ≢ p.job_id → Stored q rows → Stored q after))
unfolding enqueue add
enqueue_keeps b commits at now entry p journal rows =
    elim (Option-cases (find (is_job p.job_id) rows)) [
      | inr (old, e) ↦ rw (enqueue, add, e) (inl (inr (old, refl), refl, refl, refl))
      | inl e ↦
          let stored = (record { job = p; created_at = now; claimed_at = none }) ∷ rows in
          let added : add now p rows ≡ some stored = rw (add, e) refl in
          let (mine, others) = add_stores now p rows stored added in
          elim (Bool-cases commits) [
            | inr fails ↦ rw (enqueue, added, fails) (inl (inl refl, refl, refl, refl))
            | inl done ↦ elim (Bool-cases (try_publish b && b.removable)) [
              | inr stays ↦
                  rw (enqueue, added, done, stays)
                    (inr (refl, e, refl, refl, inr mine, λ q other there. others q there))
              | inl gone ↦
                  let sent : try_publish b ≡ true =
                    ((&&_iff (try_publish b) b.removable).0 gone).0 in
                  rw (enqueue, added, done, gone)
                    (inr (
                      refl,
                      e,
                      refl,
                      refl,
                      inl sent,
                      λ q other there. remove-Stored p.job_id q stored other (others q there),
                    ))
            ]
          ]
    ]
