-- ===== src/Imports/Outbox.antt =====
-- apps/api/src/import/import-outbox.service.ts: jobs that wait in the table `import_outbox` until a
-- worker has published them. MySQL's NOW() is in seconds, as the claims are; `created_at` is here in
-- the same unit. The order of the batch and the timer of the relay are left out.
use sealvo.Base.{
  ℕ, ◌+◌, Bool, true, false, not, ◌&&◌, Option, none, some, List, [], ◌∷◌, map, ltb, ◌==◌,
  if◌then◌else◌, select, length, find, take,
}
use sealvo.Imports.{Payload}

pub record OutboxRow : Type 0 where
  pub job : Payload
  pub created_at : ℕ
  pub claimed_at : Option ℕ

abbrev pub relay_batch : ℕ
relay_batch = 20

abbrev pub relay_grace : ℕ
relay_grace = 15

abbrev pub claim_seconds : ℕ
claim_seconds = 30

abbrev pub is_job : ℕ → OutboxRow → Bool
is_job job r = r.job.job_id == job

-- A row of a new job: the primary key must be free.
unfoldable pub add : ℕ → Payload → List OutboxRow → Option (List OutboxRow)
add now p rows = elim (find (is_job p.job_id) rows) [
  | none ↦ some ((record { job = p; created_at = now; claimed_at = none }) ∷ rows)
  | some r ↦ none
]

unfoldable pub remove : ℕ → List OutboxRow → List OutboxRow
remove job rows = select (λ r. not (is_job job r)) rows

-- created_at < now - RELAY_GRACE
unfoldable pub pending_rows : ℕ → List OutboxRow → List OutboxRow
pending_rows now rows = take relay_batch (select (λ r. ltb (r.created_at + relay_grace) now) rows)

-- claimed_at IS NULL OR claimed_at < DATE_SUB(NOW(), INTERVAL 30 SECOND)
abbrev pub is_free : ℕ → Option ℕ → Bool
is_free now none = true
is_free now (some t) = ltb (t + claim_seconds) now

unfoldable pub claimable : ℕ → ℕ → OutboxRow → Bool
claimable now job r = is_job job r && is_free now r.claimed_at

-- The time that is stored, or none when another worker holds the row.
unfoldable pub claim : ℕ → ℕ → List OutboxRow → Option ℕ × List OutboxRow
unfolding claimable
claim now job rows =
    let won = length (select (claimable now job) rows) in
    let after =
      map (λ r. if claimable now job r then record r { claimed_at = some now } else r) rows in
    (if won == 1 then some now else none, after)

abbrev pub holds_claim : ℕ → OutboxRow → Bool
holds_claim t r = elim r.claimed_at [ none ↦ false | some s ↦ s == t ]

unfoldable pub release : ℕ → ℕ → List OutboxRow → List OutboxRow
release job t rows =
    map (λ r. if is_job job r && holds_claim t r then record r { claimed_at = none } else r) rows

-- One row of a flush: claimed, published, then removed or released.
unfoldable pub flush_row : (Payload → Bool) → ℕ → Payload → List OutboxRow → List OutboxRow
unfolding claim remove release
flush_row publish now p rows =
    let (claimed, held) = claim now p.job_id rows in
    elim claimed [
      | none ↦ held
      | some t ↦ if publish p then remove p.job_id held else release p.job_id t held
    ]

unfoldable pub flush_rows : (Payload → Bool) → ℕ → List OutboxRow → List OutboxRow → List OutboxRow
flush_rows publish now [] rows = rows
flush_rows publish now (r ∷ batch) rows =
    flush_rows publish now batch (flush_row publish now r.job rows)

unfoldable pub flush : (Payload → Bool) → ℕ → List OutboxRow → List OutboxRow
unfolding pending_rows flush_rows
flush publish now rows = flush_rows publish now (pending_rows now rows) rows
