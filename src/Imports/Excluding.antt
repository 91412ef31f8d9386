-- ===== src/Imports/Excluding.antt =====
-- One worker at a time publishes a stored job.
use sealvo.Base.{
  All, not, ℕ, ◌+◌, ◌≤◌, ◌<◌, ◌≡◌, ◌≢◌, ◌⊎◌, inl, inr, refl, Bool, true, ◌&&◌, none, some, List, [],
  ◌∷◌, map, arith, if◌then◌else◌, select, length, find, Bool-cases, Option-cases,
}
use sealvo.Imports.{Payload}
use sealvo.Imports.Outbox.{
  OutboxRow, add, is_job, is_free, claimable, claim, claim_seconds, holds_claim, release, remove,
}

claimable_le :
    (t job : ℕ) (rows : List OutboxRow)
    → length (select (claimable t job) rows) ≤ length (select (is_job job) rows)
unfolding claimable
claimable_le t job [] = omega arith
claimable_le t job (r ∷ rows) = ground (arith, claimable_le t job rows)

-- The rows after a claim at t.
abbrev claimed_rows : ℕ → ℕ → List OutboxRow → List OutboxRow
claimed_rows t job rows =
    map (λ r. if claimable t job r then record r { claimed_at = some t } else r) rows

-- The claim of the job at t is stored.
abbrev pub Held : ℕ → ℕ → List OutboxRow → Type 0
Held t job = All (λ r. is_job job r ≡ true → r.claimed_at ≡ some t)

claim-Held :
    (t job : ℕ) (rows : List OutboxRow)
    → length (select (claimable t job) rows) ≡ length (select (is_job job) rows)
    → Held t job (claimed_rows t job rows)
unfolding claimable
claim-Held t job [] h = tt
claim-Held t job (r ∷ rows) h = elim (Bool-cases (is_job job r)) [
  | inr other ↦ (ground (arith, other), claim-Held t job rows (ground (arith, other, h)))
  | inl mine ↦ elim (Bool-cases (is_free t r.claimed_at)) [
    | inl free ↦ (ground (arith, mine, free), claim-Held t job rows (ground (arith, mine, free, h)))
    | inr held ↦ absurd (ground (arith, mine, held, h, claimable_le t job rows))
  ]
]

map-Held :
    (t job : ℕ) (f : OutboxRow → OutboxRow) (rows : List OutboxRow)
    → ((r : OutboxRow)
        → (is_job job r ≡ true → r.claimed_at ≡ some t)
        → is_job job (f r) ≡ true
        → (f r).claimed_at ≡ some t)
    → Held t job rows
    → Held t job (map f rows)
map-Held t job f [] keeps h = tt
map-Held t job f (r ∷ rows) keeps h = (keeps r h.0, map-Held t job f rows keeps h.1)

select-Held :
    (t job : ℕ) (p : OutboxRow → Bool) (rows : List OutboxRow)
    → Held t job rows
    → Held t job (select p rows)
select-Held t job p [] h = tt
select-Held t job p (r ∷ rows) h = elim (Bool-cases (p r)) [
  | inl kept ↦ rw kept (h.0, select-Held t job p rows h.1)
  | inr gone ↦ rw gone (select-Held t job p rows h.1)
]

-- What other workers and requests do to the outbox in the meantime.
pub data OutboxStep : Type 0 where
  claim_step : (t job : ℕ) → OutboxStep
  release_step : (job t : ℕ) → OutboxStep
  remove_step : (job : ℕ) → OutboxStep
  add_step : (now : ℕ) (p : Payload) → OutboxStep

unfoldable pub run_step : OutboxStep → List OutboxRow → List OutboxRow
run_step (claim_step t job) rows = (claim t job rows).1
run_step (release_step job t) rows = release job t rows
run_step (remove_step job) rows = remove job rows
run_step (add_step now p) rows = elim (add now p rows) [ none ↦ rows | some more ↦ more ]

unfoldable pub run_steps : List OutboxStep → List OutboxRow → List OutboxRow
run_steps [] rows = rows
run_steps (x ∷ xs) rows = run_steps xs (run_step x rows)

-- The claim of t is not released, and no new row is made of the job.
abbrev pub Leaves : ℕ → ℕ → OutboxStep → Type 0
Leaves t job (claim_step t' j) = t' ≤ t + claim_seconds
Leaves t job (release_step j t') = (j ≢ job) ⊎ (t' ≢ t)
Leaves t job (remove_step j) = Unit
Leaves t job (add_step now p) = p.job_id ≢ job

run_step-Held :
    (t job : ℕ) (x : OutboxStep) (rows : List OutboxRow)
    → Leaves t job x
    → Held t job rows
    → Held t job (run_step x rows)
unfolding run_step claim release remove add claimable
run_step-Held t job (claim_step t' j) rows le h =
    map-Held t job _ rows
      (λ r own mine. elim (Bool-cases (claimable t' j r)) [
        | inl taken ↦ absurd (ground (arith, taken, own, mine, le))
        | inr free ↦ ground (arith, free, own, mine)
      ])
      h
run_step-Held t job (release_step j t') rows other h =
    map-Held t job _ rows
      (λ r own mine. elim (Bool-cases (is_job j r && holds_claim t' r)) [
        | inl freed ↦ absurd (ground (arith, freed, own, mine, other))
        | inr kept ↦ ground (arith, kept, own, mine)
      ])
      h
run_step-Held t job (remove_step j) rows _ h = select-Held t job (λ r. not (is_job j r)) rows h
run_step-Held t job (add_step now p) rows other h =
    elim (Option-cases (find (is_job p.job_id) rows)) [
      | inr (r, there) ↦ rw (run_step, add, there) h
      | inl free ↦ rw (run_step, add, free) ((λ mine. absurd (ground (arith, mine, other))), h)
    ]

run_steps-Held :
    (t job : ℕ) (xs : List OutboxStep) (rows : List OutboxRow)
    → All (Leaves t job) xs
    → Held t job rows
    → Held t job (run_steps xs rows)
unfolding run_steps
run_steps-Held t job [] rows a h = h
run_steps-Held t job (x ∷ xs) rows a h =
    run_steps-Held t job xs (run_step x rows) a.1 (run_step-Held t job x rows a.0 h)

none_claimable :
    (t now job : ℕ) (rows : List OutboxRow)
    → now ≤ t + claim_seconds
    → Held t job rows
    → length (select (claimable now job) rows) ≡ 0
unfolding claimable
none_claimable t now job [] le h = refl
none_claimable t now job (r ∷ rows) le h = elim (Bool-cases (claimable now job r)) [
  | inl free ↦ absurd (ground (arith, free, h.0, le))
  | inr held ↦ ground (arith, held, none_claimable t now job rows le h.1)
]

-- Where a job has one row at most: up to 30 seconds after a claim that was given, another claim of
-- the job is refused, whatever other workers and requests did to the outbox in between, unless the
-- claim was released or the job was added again.
pub claims_exclude :
    (t now job : ℕ) (xs : List OutboxStep) (rows : List OutboxRow)
    → length (select (is_job job) rows) ≤ 1
    → (claim t job rows).0 ≡ some t
    → All (Leaves t job) xs
    → now ≤ t + claim_seconds
    → (claim now job (run_steps xs (claim t job rows).1)).0 ≡ none
unfolding claim
claims_exclude t now job xs rows unique won between le =
    let one : length (select (claimable t job) rows) ≡ 1 = ground (arith, won) in
    let held = claim-Held t job rows (omega (arith, one, unique, claimable_le t job rows)) in
    let none_left =
      none_claimable t now job (run_steps xs (claimed_rows t job rows)) le
        (run_steps-Held t job xs (claimed_rows t job rows) between held) in
    ground (arith, none_left)

late :
    (t now job : ℕ) (rows : List OutboxRow)
    → t < now
    → length (select (claimable now job) rows) ≡ length (select (is_job job) rows)
    → release job t (claimed_rows now job rows) ≡ claimed_rows now job rows
unfolding claimable release
late t now job [] lt h = refl
late t now job (r ∷ rows) lt h = elim (Bool-cases (is_job job r)) [
  | inr other ↦ ground (arith, late t now job rows lt)
  | inl mine ↦ elim (Bool-cases (is_free now r.claimed_at)) [
    | inl free ↦ ground (arith, late t now job rows lt)
    | inr held ↦ absurd (ground (arith, claimable_le now job rows))
  ]
]

-- A worker that was too slow does not drop the claim of another: where a job has one row at most,
-- its release changes nothing after another worker was given the claim.
pub release_late :
    (t now job : ℕ) (rows : List OutboxRow)
    → t < now
    → length (select (is_job job) rows) ≤ 1
    → (claim now job rows).0 ≡ some now
    → release job t (claim now job rows).1 ≡ (claim now job rows).1
unfolding claim release
release_late t now job rows lt unique won =
    let one : length (select (claimable now job) rows) ≡ 1 = ground arith in
    late t now job rows lt (omega (arith, one, unique, claimable_le now job rows))
