-- ===== src/Vocabulary/Delivery.antt =====
-- `addWords` under faults: deadlocks, and jobs that are delivered twice.
use sealvo.Base.{
  ℕ, ◌≤◌, ◌≡◌, inl, inr, refl, ◌∙◌, Bool, true, false, Option, some, List, arith, length,
  Bool-cases, ◌<◌, sym, ap, map, length-map,
}
use sealvo.Vocabulary.Tables.{Key, Db, ok, PackageRow}
use sealvo.Vocabulary.Enrichment.{NewWord, Gemini, enrich_with_gemini}
use sealvo.Vocabulary.Words.{
  is_job_applied, add_transaction, retry_on_deadlock, add_words, deadlock_retries, claim_job,
  Attempt, runs, deadlocks,
}
use sealvo.Vocabulary.Integrity.{Whole}
use sealvo.Vocabulary.Batches.{forget, enrich_only_examples}
use sealvo.Vocabulary.Once.{Saved}
use sealvo.Vocabulary.Claiming.{has_job, add_transaction_lem, retry_succeeds, retry_cases}

-- A job that another delivery committed is not claimed, and nothing is written.
add_transaction_again :
    (collate before : Key → Key → Bool) (now pkg : ℕ) (job : ℕ) (words : List NewWord) (db : Db)
    → is_job_applied (some job) db ≡ true
    → add_transaction collate before now pkg (some job) words db ≡ ok (false, db)
unfolding add_transaction claim_job is_job_applied
add_transaction_again collate before now pkg job words db h =
    rw (add_transaction, claim_job, h) refl

module _ (collate before : Key → Key → Bool) (reflexive : (k : Key) → collate k k ≡ true)
    (gemini : Gemini) (attempts : ℕ → Attempt) (now pkg : ℕ) where
  -- Where the integrity holds, the package is there and the collation is reflexive: a request, or a
  -- delivery of a job that is not applied yet, of which one of the three attempts runs and those
  -- before it were deadlock victims, saves every word that was given, with nothing changed but its
  -- example: each word has a row of the package with its level and its details. All earlier rows
  -- stay and show what they showed, the integrity holds, and a job is recorded as applied.
  pub add_words_saves :
      (job : Option ℕ) (words : List NewWord) (early db : Db) (p : PackageRow) (a : ℕ)
      → Whole db
      → db.packages pkg ≡ some p
      → is_job_applied job early ≡ false
      → is_job_applied job db ≡ false
      → a ≤ deadlock_retries
      → ((j : ℕ) → j < a → attempts j ≡ deadlocks)
      → attempts a ≡ runs
      → let enriched = enrich_with_gemini gemini words in
        let (r, final) = add_words collate before gemini attempts now pkg job words early db in
        (r ≡ ok (record { success_count = length words; already_applied = false }))
        × (map forget enriched ≡ map forget words)
        × Saved collate before reflexive now pkg db enriched final
        × (is_job_applied job final ≡ has_job job)
  unfolding add_words
  add_words_saves job words early db p a w e h h' le earlier alive =
      let enriched = enrich_with_gemini gemini words in
      let t = add_transaction collate before now pkg job enriched db in
      let (final, run, applied, saved) =
        add_transaction_lem collate before reflexive now pkg job enriched db p w e h' in
      let tried : retry_on_deadlock attempts t deadlock_retries 0 ≡ ok (true, final) =
        retry_succeeds attempts t deadlock_retries 0 a (omega arith) (omega (arith, le)) earlier
          alive
        ∙ run in
      let kept = enrich_only_examples gemini words in
      let same_length : length enriched ≡ length words =
        sym (length-map forget enriched) ∙ ap length kept ∙ length-map forget words in
      rw (add_words, h, tried, same_length) (refl, kept, saved, applied)

  -- Once a job is applied, no further delivery of it writes anything, whatever the faults and
  -- whenever it looked the job up.
  pub add_words_again :
      (job : ℕ) (words : List NewWord) (early db : Db)
      → is_job_applied (some job) db ≡ true
      → (add_words collate before gemini attempts now pkg (some job) words early db).1 ≡ db
  unfolding add_words
  add_words_again job words early db h =
      let t =
        add_transaction collate before now pkg (some job) (enrich_with_gemini gemini words) db in
      elim (Bool-cases (is_job_applied (some job) early)) [
        | inl e ↦ rw (add_words, e) refl
        | inr e ↦ elim (retry_cases attempts t deadlock_retries 0) [
          | inl ran ↦
              let again =
                ran
                ∙ add_transaction_again collate before now pkg job (enrich_with_gemini gemini words)
                    db h in
              rw (add_words, e, again) refl
          | inr failed ↦ rw (add_words, e, failed) refl
        ]
      ]
