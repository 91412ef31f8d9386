-- ===== src/Imports/Life.antt =====
-- The life of an import job at the broker: it ends, and its words are saved at most once.
use sealvo.Base.{
  ℕ, zero, suc, ◌+◌, ◌≡◌, ◌⊎◌, inl, inr, refl, Bool, true, false, Option, none, some, arith,
  if◌then◌else◌, length,
}
use sealvo.Vocabulary.Tables.{Key, Result, ok, not_found, forbidden, db_error}
use sealvo.Vocabulary.Enrichment.{Gemini}
use sealvo.Vocabulary.Words.{is_job_applied}
use sealvo.Imports.{
  Payload, Message, Verdict, acked, nacked, parked, unanswered, World, Crash, no_crash,
  before_commit, after_commit, before_ack, cut_short, Delivery, handle, process_job, fail, complete,
  reject, exhausted, retry_count,
}

-- How the broker sends a rejected message back after its time in the retry queue: the same
-- message, not flagged as a redelivery, with one more rejection in its header.
pub record Broker : Type 0 where
  pub returned : Message → Message
  pub same_payload : (msg : Message) → (returned msg).payload ≡ msg.payload
  pub not_redelivered : (msg : Message) → (returned msg).redelivered ≡ false
  pub counted : (msg : Message) → retry_count (returned msg) ≡ retry_count msg + 1

-- A message that no one answered comes again, flagged.
abbrev pub again : Message → Message
again msg = record msg { redelivered = true }

pub Crash-cases :
    (c : Crash) → (c ≡ no_crash) ⊎ (c ≡ before_commit) ⊎ (c ≡ after_commit) ⊎ (c ≡ before_ack)
Crash-cases no_crash = inl refl
Crash-cases before_commit = inr (inl refl)
Crash-cases after_commit = inr (inr (inl refl))
Crash-cases before_ack = inr (inr (inr refl))

abbrev pub is_steady : Crash → Bool
is_steady no_crash = true
is_steady before_commit = false
is_steady after_commit = false
is_steady before_ack = false

pub Result-cases :
    {A : Type 0} (r : Result A)
    → ((a : A) × (r ≡ ok a)) ⊎ (r ≡ not_found) ⊎ (r ≡ forbidden) ⊎ (r ≡ db_error)
Result-cases (ok a) = inl (a, refl)
Result-cases not_found = inr (inl refl)
Result-cases forbidden = inr (inr (inl refl))
Result-cases db_error = inr (inr (inr refl))

module _ (collate before : Key → Key → Bool) (gemini : Gemini) where
  pub handle_junk :
      (e : Delivery) (msg : Message) (w : World)
      → msg.payload ≡ none
      → handle collate before gemini e msg w ≡ cut_short e.crash w (acked, w)
  unfolding handle
  handle_junk e msg w m = ground arith

  pub handle_fresh :
      (e : Delivery) (msg : Message) (p : Payload) (w : World)
      → msg.payload ≡ some p
      → msg.redelivered ≡ false
      → handle collate before gemini e msg w ≡ process_job collate before gemini e msg p w
  unfolding handle
  handle_fresh e msg p w m fresh = ground arith

  pub handle_done :
      (e : Delivery) (msg : Message) (p : Payload) (w : World)
      → msg.payload ≡ some p
      → msg.redelivered ≡ true
      → is_job_applied (some p.job_id) w.db ≡ true
      → handle collate before gemini e msg w
        ≡ cut_short e.crash w (acked, complete e (length p.words_data) w)
  unfolding handle
  handle_done e msg p w m known done = ground arith

  pub handle_interrupted :
      (e : Delivery) (msg : Message) (p : Payload) (w : World)
      → msg.payload ≡ some p
      → msg.redelivered ≡ true
      → is_job_applied (some p.job_id) w.db ≡ false
      → handle collate before gemini e msg w ≡ cut_short e.crash w (fail e msg w)
  unfolding handle
  handle_interrupted e msg p w m known open_job = ground arith

module _ (collate before : Key → Key → Bool) (gemini : Gemini) (broker : Broker)
    (env : ℕ → Delivery) where
  -- The deliveries of a message from the i-th on, `left` at most; none when they do not suffice.
  unfoldable pub life : ℕ → ℕ → Message → World → Option Verdict × World
  life zero i msg w = (none, w)
  life (suc left) i msg w =
      let (v, w') = handle collate before gemini (env i) msg w in
      elim v [
        | acked ↦ (some acked, w')
        | parked ↦ (some parked, w')
        | nacked ↦ life left (i + 1) (broker.returned msg) w'
        | unanswered ↦ life left (i + 1) (again msg) w'
      ]

  -- Of `left` deliveries from the i-th on, those in which the worker does not stop.
  unfoldable pub steady : ℕ → ℕ → ℕ
  steady zero i = 0
  steady (suc left) i = (if is_steady (env i).crash then 1 else 0) + steady left (i + 1)

  -- How many of them a message can still need.
  abbrev pub needs : Message → ℕ
  needs msg = if exhausted msg then 1 else 2

  pub fail_verdict :
      (e : Delivery) (msg : Message) (w : World)
      → e.confirmed ≡ true
      → (fail e msg w).0 ≡ (if exhausted msg then parked else nacked)
  unfolding fail reject
  fail_verdict e msg w h = ground arith

  -- What a delivery may come to.
  abbrev Answered : Delivery → Message → Verdict → Type 0
  Answered e msg v =
      ((is_steady e.crash ≡ false) × (v ≡ unanswered))
      ⊎ (v ≡ acked)
      ⊎ (v ≡ (if exhausted msg then parked else nacked))
