-- ===== src/Vocabulary/Saving.antt =====
-- What the statements of `addWords` do to the tables.
use sealvo.Base.{
  ℕ, zero, suc, ◌+◌, ◌≡◌, ◌≢◌, inl, inr, refl, sym, ap, subst, ◌∙◌, Bool, true, Option, none, some,
  arith, ◌==◌, if◌then◌else◌, Bool-cases, Option-cases,
}
use sealvo.Learning.{Row}
use sealvo.Levels.{Level}
use sealvo.Vocabulary.Tables.{Key, Detail, Db, view, create_detail, create_learning}
use sealvo.Vocabulary.Words.{find_word, upsert_word}
use sealvo.Vocabulary.Integrity.{Whole, Extends, view_kept, Extends-refl}

-- The tables with a new detail and its row of `learning`.
abbrev pub with_row : ℕ → ℕ → Level → Detail → Db → Db
with_row now pkg level d db =
    create_learning now pkg (create_detail d db).0 level (create_detail d db).1

abbrev pub new_row : ℕ → ℕ → Level → Db → Row
new_row now pkg level db = record {
  package_id = pkg;
  detail_id = db.next_detail;
  level = level;
  date_memorized = some now;
}

module _ (now pkg : ℕ) (level : Level) (d : Detail) (db : Db) (w : Whole db) where
  pub with_row-Extends : Extends db (with_row now pkg level d db)
  unfolding create_detail create_learning
  with_row-Extends = record {
    details_kept = λ i h. ground (arith, w.details_below i, h);
    words_kept = λ i h. refl;
  }

  pub with_row_shows :
      (k : Key)
      → db.words d.word_id ≡ some k
      → view (with_row now pkg level d db) (new_row now pkg level db) ≡ some (k, d.fields)
  unfolding create_detail create_learning view
  with_row_shows k e = ground (arith, e)

  pub with_row-Whole : (k : Key) → db.words d.word_id ≡ some k → Whole (with_row now pkg level d db)
  unfolding create_detail create_learning
  with_row-Whole k e =
      let db' = with_row now pkg level d db in
      record {
        words_below = w.words_below;
        details_below = λ i le. ground (arith, w.details_below i);
        shows = λ r here. elim here [
          | inl same ↦
              subst (λ x. view db' x ≢ none) (sym same)
                (λ gone. ground (arith, with_row_shows k e, gone))
          | inr there ↦ view_kept db db' r with_row-Extends (w.shows r there)
        ];
        used = λ i h. elim (Bool-cases (i == db.next_detail)) [
          | inl same ↦ (new_row now pkg level db, inl refl, ground arith)
          | inr other ↦ let (r, there, e') = w.used i (ground arith) in (r, inr there, e')
        ];
      }

find_word_lem :
    (test : Key → Bool) (words : ℕ → Option Key) (left i id : ℕ)
    → find_word test words left i ≡ some id
    → (k : Key) × (words id ≡ some k) × (test k ≡ true)
unfolding find_word
find_word_lem test words zero i id h = absurd (ground arith)
find_word_lem test words (suc left) i id h = elim (Option-cases (words i)) [
  | inl e ↦ find_word_lem test words left (i + 1) id (ground arith)
  | inr (k, e) ↦ elim (Bool-cases (test k)) [
    | inl passes ↦ let same : i ≡ id = ground arith in (k, ap words (sym same) ∙ e, passes)
    | inr fails ↦ find_word_lem test words left (i + 1) id (ground arith)
  ]
]

module _ (collate : Key → Key → Bool) where
  -- The id is that of the key, up to the collation.
  abbrev pub Names : Db → Key → ℕ → Type 0
  Names db k id = (x : Key) × (db.words id ≡ some x) × (collate k x ≡ true)

  pub Names-Extends :
      (db db' : Db) (k : Key) (id : ℕ) → Extends db db' → Names db k id → Names db' k id
  Names-Extends db db' k id x (key, e, c) = (key, x.words_kept id (λ gone. ground arith) ∙ e, c)

  -- The statement changes the table of words only.
  pub record Upserted (db db' : Db) : Type 0 where
    pub whole : Whole db'
    pub extends : Extends db db'
    pub same_learning : db'.learning ≡ db.learning
    pub same_packages : db'.packages ≡ db.packages
    pub same_jobs : db'.applied_jobs ≡ db.applied_jobs
    pub same_details : db'.details ≡ db.details
    pub same_next : db'.next_detail ≡ db.next_detail

  module _ (before : Key → Key → Bool) (reflexive : (k : Key) → collate k k ≡ true) where
    abbrev with_word : Key → Db → Db
    with_word k db = record db {
      words = λ i. if i == db.next_word then some k else db.words i;
      next_word = db.next_word + 1;
    }

    with_word-Extends : (k : Key) (db : Db) → Whole db → Extends db (with_word k db)
    with_word-Extends k db w = record {
      details_kept = λ i h. refl;
      words_kept = λ i h. ground (arith, w.words_below i, h);
    }

    with_word-Upserted : (k : Key) (db : Db) → Whole db → Upserted db (with_word k db)
    with_word-Upserted k db w =
        let x = with_word-Extends k db w in
        record {
          whole = record {
            words_below = λ i le. ground (arith, w.words_below i);
            details_below = w.details_below;
            shows = λ r there. view_kept db (with_word k db) r x (w.shows r there);
            used = w.used;
          };
          extends = x;
          same_learning = refl;
          same_packages = refl;
          same_jobs = refl;
          same_details = refl;
          same_next = refl;
        }

    pub upsert_word_lem :
        (k : Key) (db : Db)
        → Whole db
        → let (id, db') = upsert_word collate before k db in Names db' k id × Upserted db db'
    unfolding upsert_word
    upsert_word_lem k db w = elim (Option-cases (find_word (collate k) db.words db.next_word 0)) [
      | inl e ↦ rw (e, upsert_word) ((k, ground arith, reflexive k), with_word-Upserted k db w)
      | inr (id, e) ↦
          rw (e, upsert_word)
            (
              find_word_lem (collate k) db.words db.next_word 0 id e,
              record {
                whole = w;
                extends = Extends-refl db;
                same_learning = refl;
                same_packages = refl;
                same_jobs = refl;
                same_details = refl;
                same_next = refl;
              },
            )
    ]
