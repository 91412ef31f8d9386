-- ===== src/Vocabulary/Once.antt =====
-- The loop of `addWords` saves every word.
use sealvo.Base.{
  ℕ, suc, ◌+◌, ◌≡◌, inl, inr, refl, ◌∙◌, Bool, true, some, List, [], ◌∷◌, arith, length, All,
}
use sealvo.Learning.{Row}
use sealvo.Levels.{Level, level_x}
use sealvo.Vocabulary.Tables.{Key, Detail, Db, view, create_detail, create_learning, ok, PackageRow}
use sealvo.Vocabulary.Enrichment.{NewWord, or_default}
use sealvo.Vocabulary.Words.{fields_of, get_id, create_words}
use sealvo.Vocabulary.Integrity.{In, Whole, Extends, view-Extends, Extends-refl, Extends-trans}
use sealvo.Vocabulary.Saving.{
  with_row, new_row, with_row-Extends, with_row_shows, with_row-Whole, Names-Extends,
}
use sealvo.Vocabulary.Adding.{Identified}

module _ (collate before : Key → Key → Bool) (reflexive : (k : Key) → collate k k ≡ true)
    (now pkg : ℕ) where
  -- The package has a row for the word, with its level and its details, that shows a word equal
  -- to it in the collation.
  pub record Stored (db : Db) (w : NewWord) : Type 0 where
    pub row : Row
    pub there : In row db.learning
    pub of_package : row.package_id ≡ pkg
    pub has_level : row.level ≡ or_default w.level level_x
    pub memorized : row.date_memorized ≡ some now
    pub key : Key
    pub same_word : collate w.key key ≡ true
    pub shown : view db row ≡ some (key, fields_of w)

  -- The words are saved, and nothing else has changed.
  pub record Saved (db : Db) (words : List NewWord) (final : Db) : Type 0 where
    pub whole : Whole final
    pub extends : Extends db final
    pub rows_kept : (r : Row) → In r db.learning → In r final.learning
    pub stored : All (Stored final) words
    pub count : length final.learning ≡ length words + length db.learning

  Identified-later :
      (db db' : Db) (ids : List (Key × ℕ)) (words : List NewWord)
      → Extends db db'
      → All (Identified collate before reflexive db ids) words
      → All (Identified collate before reflexive db' ids) words
  Identified-later db db' ids [] x h = tt
  Identified-later db db' ids (w ∷ words) x ((id, got, name), rest) = (
    (id, got, Names-Extends collate db db' w.key id x name),
    Identified-later db db' ids words x rest,
  )

  there_still :
      (db : Db) (d : Detail) (level : Level) (p : PackageRow)
      → db.packages pkg ≡ some p
      → (with_row now pkg level d db).packages pkg ≡ some p
  unfolding create_detail create_learning
  there_still db d level p e = e

  row_kept :
      (db : Db) (d : Detail) (level : Level) (r : Row)
      → In r db.learning
      → In r (with_row now pkg level d db).learning
  unfolding create_detail create_learning
  row_kept db d level r here = inr here

  row_added :
      (db : Db) (d : Detail) (level : Level)
      → In (new_row now pkg level db) (with_row now pkg level d db).learning
  unfolding create_detail create_learning
  row_added db d level = inl refl

  row_counted :
      (db : Db) (d : Detail) (level : Level)
      → length (with_row now pkg level d db).learning ≡ suc (length db.learning)
  unfolding create_detail create_learning
  row_counted db d level = refl

  same_claims :
      (db : Db) (d : Detail) (level : Level)
      → (with_row now pkg level d db).applied_jobs ≡ db.applied_jobs
  unfolding create_detail create_learning
  same_claims db d level = refl

  create_words_step :
      (ids : List (Key × ℕ)) (w : NewWord) (words : List NewWord) (db : Db) (p : PackageRow)
      (id : ℕ)
      → db.packages pkg ≡ some p
      → get_id w.key ids ≡ some id
      → create_words collate before now pkg ids (w ∷ words) db
        ≡ create_words collate before now pkg ids words (
            with_row now pkg
              (or_default w.level level_x)
              (record { word_id = id; fields = fields_of w })
              db)
  unfolding create_words
  create_words_step ids w words db p id e got = rw (create_words, e, got) refl

  pub create_words_lem :
      (ids : List (Key × ℕ)) (words : List NewWord) (db : Db) (p : PackageRow)
      → Whole db
      → db.packages pkg ≡ some p
      → All (Identified collate before reflexive db ids) words
      → (final : Db) × (create_words collate before now pkg ids words db ≡ ok final)
        × (final.applied_jobs ≡ db.applied_jobs)
        × Saved db words final
  unfolding create_words
  create_words_lem ids [] db p whole e h = (
    db,
    refl,
    refl,
    record {
      whole = whole;
      extends = Extends-refl db;
      rows_kept = λ r here. here;
      stored = tt;
      count = omega arith;
    },
  )
  create_words_lem ids (w ∷ words) db p whole e ((id, got, (k, named, same)), rest) =
      let level = or_default w.level level_x in
      let d : Detail = record { word_id = id; fields = fields_of w } in
      let db' = with_row now pkg level d db in
      let x = with_row-Extends now pkg level d db whole in
      let whole' = with_row-Whole now pkg level d db whole k named in
      let (final, run, jobs, saved) =
        create_words_lem ids words db' p whole' (there_still db d level p e)
          (Identified-later db db' ids words x rest) in
      let shown = with_row_shows now pkg level d db whole k named in
      let row = new_row now pkg level db in
      (
        final,
        create_words_step ids w words db p id e got ∙ run,
        jobs ∙ same_claims db d level,
        record {
          whole = saved.whole;
          extends = Extends-trans db db' final x saved.extends;
          rows_kept = λ r here. saved.rows_kept r (row_kept db d level r here);
          stored = (
            record {
              row = row;
              there = saved.rows_kept row (row_added db d level);
              of_package = refl;
              has_level = refl;
              memorized = refl;
              key = k;
              same_word = same;
              shown =
                  view-Extends db' final row saved.extends (λ gone. ground (arith, shown, gone))
                  ∙ shown;
            },
            saved.stored,
          );
          count = omega (arith, saved.count, row_counted db d level);
        },
      )
