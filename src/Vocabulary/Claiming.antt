-- ===== src/Vocabulary/Claiming.antt =====
-- The transaction of `addWords`: the job is claimed, and its words are saved.
use sealvo.Base.{
  ℕ, zero, suc, ◌+◌, ◌≤◌, ◌<◌, ◌≡◌, ◌⊎◌, inl, inr, refl, sym, ap, subst, ◌∙◌, Bool, true, false,
  Option, none, some, List, ◌∷◌, arith, ◌==◌, length, any, Bool-cases, ==_refl,
}
use sealvo.Vocabulary.Tables.{Key, Db, view, Result, ok, db_error, PackageRow}
use sealvo.Vocabulary.Enrichment.{NewWord}
use sealvo.Vocabulary.Words.{
  create_words, claim_job, is_job_applied, upsert_words, add_transaction, retry_on_deadlock,
  Attempt, runs, deadlocks, breaks,
}
use sealvo.Vocabulary.Integrity.{In, Whole, Extends, Extends-refl, Extends-trans}
use sealvo.Vocabulary.Adding.{upsert_words_lem}
use sealvo.Vocabulary.Once.{Saved, create_words_lem}

abbrev pub has_job : Option ℕ → Bool
has_job none = false
has_job (some job) = true

-- A claim changes the list of jobs only.
abbrev with_job : ℕ → Db → Db
with_job job db = record db { applied_jobs = job ∷ db.applied_jobs }

with_job-Whole : (job : ℕ) (db : Db) → Whole db → Whole (with_job job db)
unfolding view
with_job-Whole job db w = record {
  words_below = w.words_below;
  details_below = w.details_below;
  shows = w.shows;
  used = w.used;
}

with_job-Extends : (job : ℕ) (db : Db) → Extends db (with_job job db)
with_job-Extends job db = record { details_kept = λ i h. refl; words_kept = λ i h. refl }

-- What the claim leaves for the statements after it.
record Claimed (job : Option ℕ) (db claimed : Db) : Type 0 where
  whole : Whole claimed
  extends : Extends db claimed
  same_learning : claimed.learning ≡ db.learning
  same_packages : claimed.packages ≡ db.packages
  applied : is_job_applied job claimed ≡ has_job job

claim_job_lem :
    (job : Option ℕ) (db : Db)
    → Whole db
    → is_job_applied job db ≡ false
    → (claimed : Db) × (claim_job job db ≡ (true, claimed)) × Claimed job db claimed
unfolding claim_job is_job_applied
claim_job_lem none db w h = (
  db,
  refl,
  record {
    whole = w;
    extends = Extends-refl db;
    same_learning = refl;
    same_packages = refl;
    applied = refl;
  },
)
claim_job_lem (some job) db w h = (
  with_job job db,
  rw h refl,
  record {
    whole = with_job-Whole job db w;
    extends = with_job-Extends job db;
    same_learning = refl;
    same_packages = refl;
    applied = ground (arith, ==_refl job);
  },
)

is_job_applied_congr :
    (job : Option ℕ) (a b : Db)
    → a.applied_jobs ≡ b.applied_jobs
    → is_job_applied job a ≡ is_job_applied job b
unfolding is_job_applied
is_job_applied_congr none a b e = refl
is_job_applied_congr (some job) a b e = ap (any (λ j. job == j)) e

module _ (collate before : Key → Key → Bool) (reflexive : (k : Key) → collate k k ≡ true)
    (now pkg : ℕ) where
  -- The same rows, details and words, found in other tables.
  Saved-from :
      (db mid final : Db) (words : List NewWord)
      → Extends db mid
      → mid.learning ≡ db.learning
      → Saved collate before reflexive now pkg mid words final
      → Saved collate before reflexive now pkg db words final
  Saved-from db mid final words x e s = record {
    whole = s.whole;
    extends = Extends-trans db mid final x s.extends;
    rows_kept = λ r here. s.rows_kept r (subst (In r) (sym e) here);
    stored = s.stored;
    count = omega (arith, s.count, ap length e);
  }

  add_transaction_step :
      (job : Option ℕ) (words : List NewWord) (db claimed final : Db)
      → claim_job job db ≡ (true, claimed)
      → (create_words collate before now pkg
            (upsert_words collate before words claimed).0
            words
            (upsert_words collate before words claimed).1
          ≡ ok final)
      → add_transaction collate before now pkg job words db ≡ ok (true, final)
  unfolding add_transaction
  add_transaction_step job words db claimed final won run = rw (add_transaction, won, run) refl

  pub add_transaction_lem :
      (job : Option ℕ) (words : List NewWord) (db : Db) (p : PackageRow)
      → Whole db
      → db.packages pkg ≡ some p
      → is_job_applied job db ≡ false
      → (final : Db) × (add_transaction collate before now pkg job words db ≡ ok (true, final))
        × (is_job_applied job final ≡ has_job job)
        × Saved collate before reflexive now pkg db words final
  add_transaction_lem job words db p w e h =
      let (claimed, won, c) = claim_job_lem job db w h in
      let (up, named) = upsert_words_lem collate before reflexive words claimed c.whole in
      let result = upsert_words collate before words claimed in
      let there : result.1.packages pkg ≡ some p =
        ap (λ f. f pkg) (up.same_packages ∙ c.same_packages) ∙ e in
      let (final, run, jobs, saved) =
        create_words_lem collate before reflexive now pkg result.0 words result.1 p up.whole there
          named in
      (
        final,
        add_transaction_step job words db claimed final won run,
        is_job_applied_congr job final claimed (jobs ∙ up.same_jobs) ∙ c.applied,
        Saved-from db result.1 final words (Extends-trans db claimed result.1 c.extends up.extends)
            (up.same_learning ∙ c.same_learning) saved,
      )

compare_le : (i a : ℕ) → i ≤ a → (i ≡ a) ⊎ (i < a)
compare_le i a le = elim (Bool-cases (i == a)) [
  | inl same ↦ inl (ground arith)
  | inr other ↦ inr (ground (arith, le))
]

pub retry_succeeds :
    {A : Type 0} (attempts : ℕ → Attempt) (t : Result A) (left i a : ℕ)
    → i ≤ a
    → a ≤ i + left
    → ((j : ℕ) → j < a → attempts j ≡ deadlocks)
    → attempts a ≡ runs
    → retry_on_deadlock attempts t left i ≡ t
unfolding retry_on_deadlock
retry_succeeds attempts t zero i a lo hi earlier h =
    let e : a ≡ i = omega (arith, lo, hi) in
    let h' : attempts i ≡ runs = subst (λ j. attempts j ≡ runs) e h in
    rw (retry_on_deadlock, h') refl
retry_succeeds attempts t (suc left) i a lo hi earlier h = elim (compare_le i a lo) [
  | inl e ↦
      let h' : attempts i ≡ runs = subst (λ j. attempts j ≡ runs) (sym e) h in
      rw (retry_on_deadlock, h') refl
  | inr lt ↦
      rw (retry_on_deadlock, earlier i lt)
        (retry_succeeds attempts t left (i + 1) a (omega (arith, lt)) (omega (arith, hi)) earlier h)
]

Attempt-cases : (x : Attempt) → (x ≡ runs) ⊎ (x ≡ deadlocks) ⊎ (x ≡ breaks)
Attempt-cases runs = inl refl
Attempt-cases deadlocks = inr (inl refl)
Attempt-cases breaks = inr (inr refl)

-- Whatever becomes of the attempts: the transaction has run, or there is an error.
pub retry_cases :
    {A : Type 0} (attempts : ℕ → Attempt) (t : Result A) (left i : ℕ)
    → (retry_on_deadlock attempts t left i ≡ t) ⊎ (retry_on_deadlock attempts t left i ≡ db_error)
unfolding retry_on_deadlock
retry_cases attempts t zero i = elim (Attempt-cases (attempts i)) [
  | inl e ↦ rw (retry_on_deadlock, e) (inl refl)
  | inr (inl e) ↦ rw (retry_on_deadlock, e) (inr refl)
  | inr (inr e) ↦ rw (retry_on_deadlock, e) (inr refl)
]
retry_cases attempts t (suc left) i = elim (Attempt-cases (attempts i)) [
  | inl e ↦ rw (retry_on_deadlock, e) (inl refl)
  | inr (inl e) ↦ rw (retry_on_deadlock, e) (retry_cases attempts t left (i + 1))
  | inr (inr e) ↦ rw (retry_on_deadlock, e) (inr refl)
]
