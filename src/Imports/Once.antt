-- ===== src/Imports/Once.antt =====
-- However often an import job is delivered, its words are saved at most once, and it is acked only
-- when they are saved.
use sealvo.Base.{
  ℕ, zero, suc, ◌+◌, ◌≡◌, ◌⊎◌, inl, inr, refl, sym, ap, subst, ◌∙◌, Bool, true, false, some, arith,
  Bool-cases, length,
}
use sealvo.Vocabulary.Tables.{Key, Db, Result, ok, db_error, not_found, forbidden, PackageRow}
use sealvo.Vocabulary.Enrichment.{Gemini, enrich_with_gemini}
use sealvo.Vocabulary.Words.{
  Added, add_words, is_job_applied, add_transaction, retry_on_deadlock, deadlock_retries,
}
use sealvo.Vocabulary.Integrity.{Whole}
use sealvo.Vocabulary.Claiming.{add_transaction_lem, retry_cases}
use sealvo.Vocabulary.Delivery.{add_words_again}
use sealvo.Imports.{
  Payload, Message, Verdict, acked, nacked, parked, unanswered, World, Delivery, handle,
  process_job, save, fail, complete, reject, settle, cut_short, Crash, no_crash, before_commit,
  after_commit, before_ack,
}
use sealvo.Imports.Life.{
  Broker, again, life, Crash-cases, handle_fresh, handle_done, handle_interrupted,
}

Verdict-cases : (v : Verdict) → (v ≡ acked) ⊎ (v ≡ nacked) ⊎ (v ≡ parked) ⊎ (v ≡ unanswered)
Verdict-cases acked = inl refl
Verdict-cases nacked = inr (inl refl)
Verdict-cases parked = inr (inr (inl refl))
Verdict-cases unanswered = inr (inr (inr refl))

module _ (collate before : Key → Key → Bool) (reflexive : (k : Key) → collate k k ≡ true)
    (gemini : Gemini) (p : Payload) where
  abbrev Applied : Db → Type 0
  Applied db = is_job_applied (some p.job_id) db ≡ true

  -- The tables are as they were, or a single delivery has saved the words in them.
  abbrev pub AtMostOnce : Db → Db → Type 0
  AtMostOnce start db =
      (db ≡ start)
      ⊎ ((is_job_applied (some p.job_id) db ≡ true)
          × (e : Delivery) × (db ≡ (save collate before gemini e p start).1))

  save_again : (e : Delivery) (db : Db) → Applied db → (save collate before gemini e p db).1 ≡ db
  unfolding save
  save_again e db h =
      add_words_again collate before reflexive gemini e.attempts e.now p.package_id p.job_id
        p.words_data db db h

  save_first :
      (e : Delivery) (db : Db) (row : PackageRow)
      → Whole db
      → db.packages p.package_id ≡ some row
      → is_job_applied (some p.job_id) db ≡ false
      → (save collate before gemini e p db ≡ (db_error, db))
        ⊎ Applied (save collate before gemini e p db).1
  unfolding save add_words
  save_first e db row w there fresh =
      let words = enrich_with_gemini gemini p.words_data in
      let t = add_transaction collate before e.now p.package_id (some p.job_id) words db in
      let (final, run, applied, saved) =
        add_transaction_lem collate before reflexive e.now p.package_id (some p.job_id) words db row
          w there fresh in
      elim (retry_cases e.attempts t deadlock_retries 0) [
        | inl ran ↦
            let tried : retry_on_deadlock e.attempts t deadlock_retries 0 ≡ ok (true, final) =
              ran ∙ run in
            inr (rw (add_words, fresh, tried) applied)
        | inr failed ↦ inl (rw (add_words, fresh, failed) refl)
      ]

  module _ (start : Db) (row : PackageRow) (w : Whole start)
      (there : start.packages p.package_id ≡ some row) where
    -- What is known after a delivery.
    abbrev Known : Verdict → Db → Type 0
    Known v db = AtMostOnce start db × (v ≡ acked → Applied db)

    save_once :
        (e : Delivery) (db : Db)
        → AtMostOnce start db
        → let (r, db') = save collate before gemini e p db in
          AtMostOnce start db' × ((r ≡ db_error) ⊎ Applied db')
    save_once e db (inr (h, d, same)) =
        let kept = save_again e db h in
        let done : Applied (save collate before gemini e p db).1 = subst Applied (sym kept) h in
        (inr (done, d, kept ∙ same), inr done)
    save_once e db (inl same) = elim (Bool-cases (is_job_applied (some p.job_id) db)) [
      | inl h ↦
          let kept = save_again e db h in (inl (kept ∙ same), inr (subst Applied (sym kept) h))
      | inr fresh ↦
          elim (save_first e db row (subst Whole (sym same) w)
            (ap (λ (d : Db). d.packages p.package_id) same ∙ there) fresh) [
              | inl failed ↦ (
                inl (ap (λ (x : Result Added × Db). x.1) failed ∙ same),
                inl (ap (λ (x : Result Added × Db). x.0) failed),
              )
              | inr done ↦
                  (inr (done, e, ap (λ d. (save collate before gemini e p d).1) same), inr done)
            ]
    ]

    fail-Known :
        (e : Delivery) (msg : Message) (v : World)
        → AtMostOnce start v.db
        → let (verdict, v') = fail e msg v in Known verdict v'.db
    unfolding fail reject
    fail-Known e msg v a = (a, λ h. absurd (ground arith))

    complete_db : (e : Delivery) (n : ℕ) (v : World) → (complete e n v).db ≡ v.db
    unfolding complete
    complete_db e n v = refl

    settle-Known :
        (e : Delivery) (msg : Message) (r : Result Added) (v : World)
        → AtMostOnce start v.db
        → (r ≡ db_error) ⊎ Applied v.db
        → let (verdict, v') = settle e msg r v in Known verdict v'.db
    unfolding settle
    settle-Known e msg (ok n) v a (inl bad) = absurd (ground arith)
    settle-Known e msg (ok n) v a (inr done) = (
      subst (AtMostOnce start) (sym (complete_db e n.success_count v)) a,
      λ h. subst Applied (sym (complete_db e n.success_count v)) done,
    )
    settle-Known e msg not_found v a h = fail-Known e msg v a
    settle-Known e msg forbidden v a h = fail-Known e msg v a
    settle-Known e msg db_error v a h = fail-Known e msg v a

    process-Known :
        (e : Delivery) (msg : Message) (v : World)
        → AtMostOnce start v.db
        → let (verdict, v') = process_job collate before gemini e msg p v in Known verdict v'.db
    unfolding process_job
    process-Known e msg v a =
        let (once, outcome) = save_once e v.db a in
        let settled = settle-Known e msg (save collate before gemini e p v.db).0 _ once outcome in
        elim (Crash-cases e.crash) [
          | inl c ↦ rw (process_job, c) settled
          | inr (inl c) ↦ rw (process_job, c) (a, λ h. absurd (ground arith))
          | inr (inr (inl c)) ↦ rw (process_job, c) (once, λ h. absurd (ground arith))
          | inr (inr (inr c)) ↦ rw (process_job, c) (settled.0, λ h. absurd (ground arith))
        ]

    cut_short-Known :
        (c : Crash) (v : World) (r : Verdict × World)
        → AtMostOnce start v.db
        → Known r.0 r.1.db
        → let (verdict, v') = cut_short c v r in Known verdict v'.db
    unfolding cut_short
    cut_short-Known no_crash v r a known = known
    cut_short-Known before_commit v r a known = (a, λ h. absurd (ground arith))
    cut_short-Known after_commit v r a known = (known.0, λ h. absurd (ground arith))
    cut_short-Known before_ack v r a known = (known.0, λ h. absurd (ground arith))

    handle-Known :
        (e : Delivery) (msg : Message) (v : World)
        → msg.payload ≡ some p
        → AtMostOnce start v.db
        → let (verdict, v') = handle collate before gemini e msg v in Known verdict v'.db
    handle-Known e msg v m a = elim (Bool-cases msg.redelivered) [
      | inr fresh ↦
          rw (handle_fresh collate before gemini e msg p v m fresh) (process-Known e msg v a)
      | inl known ↦ elim (Bool-cases (is_job_applied (some p.job_id) v.db)) [
        | inl done ↦ rw (handle_done collate before gemini e msg p v m known done) (
            cut_short-Known e.crash v (acked, complete e (length p.words_data) v) a
              (
                subst (AtMostOnce start) (sym (complete_db e (length p.words_data) v)) a,
                λ h. subst Applied (sym (complete_db e (length p.words_data) v)) done,
              ))
        | inr open_job ↦
            rw (handle_interrupted collate before gemini e msg p v m known open_job)
              (cut_short-Known e.crash v (fail e msg v) a (fail-Known e msg v a))
      ]
    ]

    module _ (broker : Broker) (env : ℕ → Delivery) where
      -- Where the integrity holds at the start, the package is there and no other request comes between
      -- the deliveries: however often the job is delivered, with whatever faults, the tables are as at the start, or
      -- one delivery has saved the words in them; and the job is acked only when it is applied.
      pub life_saves_once :
          (left i : ℕ) (msg : Message) (v : World)
          → msg.payload ≡ some p
          → AtMostOnce start v.db
          → let (answer, v') = life collate before gemini broker env left i msg v in
            AtMostOnce start v'.db
            × (answer ≡ some acked → is_job_applied (some p.job_id) v'.db ≡ true)
      unfolding life
      life_saves_once zero i msg v m a = (a, λ h. absurd (ground arith))
      life_saves_once (suc left) i msg v m a =
          let (once, done) = handle-Known (env i) msg v m a in
          let after = (handle collate before gemini (env i) msg v).1 in
          elim (Verdict-cases (handle collate before gemini (env i) msg v).0) [
            | inl e ↦ rw (life, e) (once, λ h. done e)
            | inr (inl e) ↦
                rw (life, e)
                  (life_saves_once left (i + 1) (broker.returned msg) after
                    (broker.same_payload msg ∙ m) once)
            | inr (inr (inl e)) ↦ rw (life, e) (once, λ h. absurd (ground arith))
            | inr (inr (inr e)) ↦
                rw (life, e) (life_saves_once left (i + 1) (again msg) after m once)
          ]
