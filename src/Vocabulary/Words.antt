-- ===== src/Vocabulary/Words.antt =====
-- apps/api/src/words/words.service.ts: adding words. The collation by which MySQL compares the
-- unique key of `words` and the order of JavaScript's strings are parameters. A transaction that fails leaves the tables as they were.
use text.Mathlib.Text.{◌==◌ as str_eq}
use sealvo.Base.{
  ℕ, zero, suc, ◌+◌, Bool, true, false, ◌&&◌, Option, none, some, List, [], ◌∷◌, map, ◌==◌,
  if◌then◌else◌, length, any,
}
use sealvo.Levels.{level_x}
use sealvo.Vocabulary.Enrichment.{NewWord, or_default, Gemini, enrich_with_gemini}
use sealvo.Vocabulary.Tables.{Key, Fields, Db, Result, ok, db_error, create_detail, create_learning}

-- wordKey(a) === wordKey(b)
abbrev pub same_key : Key → Key → Bool
same_key a b =
    str_eq a.word b.word && str_eq a.subject b.subject && str_eq a.language_code b.language_code

unfoldable pub fields_of : NewWord → Fields
fields_of w = record {
  word_type = w.word_type;
  meaning = w.meaning;
  pronunciation = or_default w.pronunciation "";
  synonyms = or_default w.synonyms "";
  antonyms = or_default w.antonyms "";
  example = or_default w.example "";
  grammar = or_default w.grammar "";
}

-- The first of the `left` ids from `i` on whose word has the key.
unfoldable pub find_word : (Key → Bool) → (ℕ → Option Key) → ℕ → ℕ → Option ℕ
find_word test words zero i = none
find_word test words (suc left) i =
    let rest = find_word test words left (i + 1) in
    elim (words i) [ none ↦ rest | some k ↦ if test k then some i else rest ]

-- new Map of the keys, as its keys: each key once, at its first place.
unfoldable pub distinct : List Key → List Key → List Key
distinct seen [] = []
distinct seen (k ∷ keys) =
    let rest = distinct (k ∷ seen) keys in if any (same_key k) seen then rest else k ∷ rest

unfoldable pub insert_sorted : (Key → Key → Bool) → Key → List Key → List Key
insert_sorted before k [] = k ∷ []
insert_sorted before k (x ∷ xs) =
    let rest = x ∷ insert_sorted before k xs in if before x k then rest else k ∷ x ∷ xs

unfoldable pub sort : (Key → Key → Bool) → List Key → List Key
unfolding insert_sorted
sort before [] = []
sort before (k ∷ keys) = insert_sorted before k (sort before keys)

-- ids.get(wordKey(w))
unfoldable pub get_id : Key → List (Key × ℕ) → Option ℕ
get_id k [] = none
get_id k ((x, id) ∷ ids) = let rest = get_id k ids in if same_key x k then some id else rest

-- The id of the job is stored unless it is there already; no job, no claim.
unfoldable pub claim_job : Option ℕ → Db → Bool × Db
claim_job none db = (true, db)
claim_job (some job) db =
    if any (λ j. job == j) db.applied_jobs
    then (false, db)
    else (true, record db { applied_jobs = job ∷ db.applied_jobs })

unfoldable pub is_job_applied : Option ℕ → Db → Bool
is_job_applied none db = false
is_job_applied (some job) db = any (λ j. job == j) db.applied_jobs

abbrev pub deadlock_retries : ℕ
deadlock_retries = 2

-- What becomes of an attempt at a transaction: it runs, InnoDB chooses it as a deadlock victim, or
-- another error ends it, such as a lost connection or the timeout of TX_OPTIONS.
pub data Attempt : Type 0 where
  runs deadlocks breaks : Attempt

-- A transaction that was a deadlock victim is run again, `left` times at most.
unfoldable pub retry_on_deadlock : {A : Type 0} → (ℕ → Attempt) → Result A → ℕ → ℕ → Result A
retry_on_deadlock attempts transaction zero i = elim (attempts i) [
  | runs ↦ transaction
  | deadlocks ↦ db_error
  | breaks ↦ db_error
]
retry_on_deadlock attempts transaction (suc left) i =
    let again = retry_on_deadlock attempts transaction left (i + 1) in
    elim (attempts i) [ runs ↦ transaction | deadlocks ↦ again | breaks ↦ db_error ]

pub record Added : Type 0 where
  pub success_count : ℕ
  pub already_applied : Bool

module _ (collate before : Key → Key → Bool) where
  -- INSERT ... ON DUPLICATE KEY UPDATE word_id = LAST_INSERT_ID(word_id)
  unfoldable pub upsert_word : Key → Db → ℕ × Db
  unfolding find_word
  upsert_word k db = elim (find_word (collate k) db.words db.next_word 0) [
    | some id ↦ (id, db)
    | none ↦ (
      db.next_word,
      record db {
        words = λ i. if i == db.next_word then some k else db.words i;
        next_word = db.next_word + 1;
      },
    )
  ]

  unfoldable pub upsert_all : List Key → Db → List (Key × ℕ) × Db
  unfolding upsert_word
  upsert_all [] db = ([], db)
  upsert_all (k ∷ keys) db =
      let (id, db') = upsert_word k db in
      let (ids, final) = upsert_all keys db' in ((k, id) ∷ ids, final)

  unfoldable pub upsert_words : List NewWord → Db → List (Key × ℕ) × Db
  unfolding distinct sort upsert_all
  upsert_words words db =
      upsert_all (sort before (distinct [] (map (λ (w : NewWord). w.key) words))) db

  -- The loop that creates a detail and a learning row for each word. An id that is missing would
  -- be an undefined word_id; it and a package that is not there are errors of the database.
  unfoldable pub create_words : ℕ → ℕ → List (Key × ℕ) → List NewWord → Db → Result Db
  unfolding create_detail create_learning fields_of get_id
  create_words now pkg ids [] db = ok db
  create_words now pkg ids (w ∷ words) db = elim (db.packages pkg) [
    | none ↦ db_error
    | some p ↦ elim (get_id w.key ids) [
      | none ↦ db_error
      | some id ↦
          let (detail, db') = create_detail (record { word_id = id; fields = fields_of w }) db in
          create_words now pkg ids words
            (create_learning now pkg detail (or_default w.level level_x) db')
    ]
  ]

  -- The transaction: whether the job was applied now, and the tables.
  unfoldable pub add_transaction : ℕ → ℕ → Option ℕ → List NewWord → Db → Result (Bool × Db)
  add_transaction now pkg job words db =
      let (won, claimed) = claim_job job db in
      let (ids, with_words) = upsert_words words claimed in
      if won
      then elim (create_words now pkg ids words with_words) [
        | ok final ↦ ok (true, final)
        | _ ↦ db_error
      ]
      else ok (false, db)

  -- addWords: the result, and the tables. `early` are the tables when the job is looked up, `db`
  -- those of the transaction: another delivery may have committed in between.
  unfoldable pub add_words :
      (gemini : Gemini) (attempts : ℕ → Attempt)
      → ℕ
      → ℕ
      → Option ℕ
      → List NewWord
      → Db
      → Db
      → Result Added × Db
  add_words gemini attempts now pkg job words early db =
      let there : Result Added =
        ok (record { success_count = length words; already_applied = true }) in
      let enriched = enrich_with_gemini gemini words in
      if is_job_applied job early
      then (there, db)
      else elim (retry_on_deadlock attempts (add_transaction now pkg job enriched db)
          deadlock_retries 0) [
            | ok (b, final) ↦
                if b
                then (
                  ok (record { success_count = length enriched; already_applied = false }),
                  final,
                )
                else (there, db)
            | _ ↦ (db_error, db)
          ]
