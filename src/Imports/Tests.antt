-- ===== src/Imports/Tests.antt =====
-- An import job at concrete words: the worker stops after it has saved them, and the job comes
-- again.
use sealvo.Base.{
  find, ℕ, ◌+◌, ◌≡◌, ◌≢◌, inl, ◌⊎◌, refl, Bool, true, false, none, some, List, [], ◌∷◌, arith, ◌==◌,
  if◌then◌else◌,
}
use sealvo.Vocabulary.Tables.{public_mode, ok, db_error}
use sealvo.Imports.Outbox.{OutboxRow, claim, claimable, is_job}
use sealvo.Imports.Bulk.{Broking, enqueue, try_publish}
use sealvo.Activities.{JobEntry, start, add_words_type}
use sealvo.Imports.Excluding.{
  claims_exclude, run_steps, claim_step, release_step, remove_step, add_step,
}
use sealvo.Imports.Claims.{Stored, enqueue_keeps}
use sealvo.Vocabulary.Words.{same_key, is_job_applied}
use sealvo.Vocabulary.Adding.{same_key_refl}
use sealvo.Vocabulary.Samples.{
  shared_cat, shared_cat-Whole, gemini, first_victim, before, two_dogs, owned_by,
}
use sealvo.Imports.{
  Payload, Message, acked, World, Delivery, no_crash, after_commit, retry_count, pending,
}
use sealvo.Imports.Life.{Broker, life}
use sealvo.Imports.Once.{AtMostOnce, life_saves_once}

abbrev one_more : Message → Message
one_more msg = record {
  payload = msg.payload;
  redelivered = false;
  deaths = (record { mine = true; rejected = true; count = retry_count msg + 1 }) ∷ [];
}

one_more_counted : (msg : Message) → retry_count (one_more msg) ≡ retry_count msg + 1
unfolding retry_count
one_more_counted msg = refl

abbrev rabbit : Broker
rabbit = record {
  returned = one_more;
  same_payload = λ msg. refl;
  not_redelivered = λ msg. refl;
  counted = one_more_counted;
}

-- The worker stops once, after the commit.
abbrev stops_once : ℕ → Delivery
stops_once i = record {
  attempts = first_victim;
  now = 9;
  redis_up = true;
  confirmed = true;
  crash = if i == 0 then after_commit else no_crash;
}

abbrev job : Payload
job = record { job_id = 41; words_data = two_dogs; package_id = 1; user_id = 7 }

abbrev first_message : Message
first_message = record { payload = some job; redelivered = false; deaths = [] }

abbrev world : World
world = record { db = shared_cat; job = some (record { status = pending; imported = none }) }

life_saves_once_example :
    let (answer, after) = life same_key before gemini rabbit stops_once 4 0 first_message world in
    AtMostOnce same_key before same_key_refl gemini job shared_cat after.db
    × (answer ≡ some acked → is_job_applied (some 41) after.db ≡ true)
life_saves_once_example =
    life_saves_once same_key before same_key_refl gemini job shared_cat (owned_by 7 public_mode)
      shared_cat-Whole refl rabbit stops_once 4 0 first_message world refl (inl refl)

abbrev other_job : Payload
other_job = record { job_id = 42; words_data = two_dogs; package_id = 1; user_id = 7 }

abbrev waiting : List OutboxRow
waiting =
    (record { job = job; created_at = 0; claimed_at = none })
    ∷ (record { job = other_job; created_at = 1; claimed_at = some 5 })
    ∷ []

claims_exclude_example :
    (claim 75 41 (
      run_steps
        (claim_step 60 41 ∷ release_step 42 5 ∷ remove_step 42 ∷ add_step 61 other_job ∷ [])
        (claim 50 41 waiting).1)).0
    ≡ none
unfolding claim claimable
claims_exclude_example =
    claims_exclude 50 75 41
      (claim_step 60 41 ∷ release_step 42 5 ∷ remove_step 42 ∷ add_step 61 other_job ∷ []) waiting
      (omega arith) refl
      (
        omega arith,
        (inl (λ e. absurd (omega (arith, e))), (tt, ((λ e. absurd (omega (arith, e))), tt))),
      )
      (omega arith)

-- The broker takes the job 42 and no other.
abbrev takes_other : Payload → Bool
takes_other p = p.job_id == 42

job_not_taken : (q : Payload) → takes_other q ≡ true → job.job_id ≢ q.job_id
job_not_taken q h e = absurd (ground arith)

abbrev no_answer : Broking
no_answer = record { channel = true; confirmed = false; removable = true }

abbrev entry : JobEntry
entry = record {
  user_id = 7;
  type = add_words_type;
  package_id = 1;
  package_name = none;
  file_name = none;
  word_count = 2;
}

enqueue_keeps_example :
    let (r, journal', after) = enqueue no_answer true 3_000 3 entry job [] [] in
    (((true ≡ false) ⊎ ((old : OutboxRow) × (find (is_job 41) [] ≡ some old)))
      × (r ≡ db_error)
      × (journal' ≡ [])
      × (after ≡ []))
    ⊎ ((true ≡ true)
        × (find (is_job 41) [] ≡ none)
        × (r ≡ ok 41)
        × (journal' ≡ start 3_000 entry 41 [])
        × ((try_publish no_answer ≡ true) ⊎ Stored job after)
        × ((q : Payload) → q.job_id ≢ 41 → Stored q [] → Stored q after))
enqueue_keeps_example = enqueue_keeps no_answer true 3_000 3 entry job [] []
