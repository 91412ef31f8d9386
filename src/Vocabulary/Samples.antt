-- ===== src/Vocabulary/Samples.antt =====
-- Two packages that share the details of a word, as packages copied by the old app do: data for
-- tests.
use sealvo.Base.{
  ℕ, ◌≡◌, ◌≢◌, inl, inr, refl, ap, Bool, true, false, none, some, List, [], ◌∷◌, arith, ◌==◌,
  if◌then◌else◌,
}
use sealvo.Learning.{Row}
use sealvo.Levels.{level_0}
use sealvo.Vocabulary.Tables.{
  Key, Fields, Detail, Db, view, PackageRow, Mode, public_mode, private_mode,
}
use sealvo.Vocabulary.Enrichment.{NewWord, Gemini, ExamplePayload, GeneratedExample}
use sealvo.Vocabulary.Words.{Attempt, runs, deadlocks}
use sealvo.Vocabulary.Integrity.{Whole}

abbrev pub cat : Key
cat = record { word = "cat"; subject = "animals"; language_code = "en" }

abbrev pub cat_fields : Fields
cat_fields = record {
  word_type = "noun";
  meaning = "a small animal";
  pronunciation = "";
  synonyms = "";
  antonyms = "";
  example = "The **cat** sleeps.";
  grammar = "";
}

abbrev pub cat_detail : Detail
cat_detail = record { word_id = 0; fields = cat_fields }

abbrev pub row_of : ℕ → Row
row_of pkg = record { package_id = pkg; detail_id = 0; level = level_0; date_memorized = some 5 }

abbrev pub owned_by : ℕ → Mode → PackageRow
owned_by user mode = record {
  user_id = user;
  package_name = "Animals";
  package_description = none;
  mode = mode;
  is_active = true;
}

abbrev pub shared_cat : Db
shared_cat = record {
  words = λ i. if i == 0 then some cat else none;
  next_word = 1;
  details = λ i. if i == 0 then some cat_detail else none;
  next_detail = 1;
  learning = row_of 1 ∷ row_of 2 ∷ [];
  packages = λ i.
      if i == 1
      then some (owned_by 7 public_mode)
      else if i == 2
      then some (owned_by 8 private_mode)
      else none;
  next_package = 3;
  applied_jobs = 40 ∷ [];
  journal = [];
}

row_shows : (r : Row) → r.detail_id ≡ 0 → view shared_cat r ≢ none
unfolding view
row_shows r e gone = ground arith

pub shared_cat-Whole : Whole shared_cat
shared_cat-Whole = record {
  words_below = λ i le. ground arith;
  details_below = λ i le. ground arith;
  shows = λ r there. elim there [
    | inl same ↦ row_shows r (ap (λ (x : Row). x.detail_id) same)
    | inr more ↦ elim more [
      | inl same ↦ row_shows r (ap (λ (x : Row). x.detail_id) same)
      | inr none_more ↦ absurd none_more
    ]
  ];
  used = λ i h. (row_of 1, inl refl, ground arith);
}

-- Gemini answers that the first word is used in one sentence.
abbrev pub answers : List ExamplePayload → List GeneratedExample
answers batch = (record { id = 0; example = some "A **dog** barks." }) ∷ []

abbrev pub gemini : Gemini
gemini = record { generate_example = answers; modify_example = answers }

abbrev pub first_victim : ℕ → Attempt
first_victim a = if a == 0 then deadlocks else runs

abbrev pub before : Key → Key → Bool
before a b = false

abbrev pub dog : NewWord
dog = record {
  key = record { word = "dog"; subject = "animals"; language_code = "en" };
  word_type = "noun";
  meaning = "it barks";
  pronunciation = none;
  synonyms = none;
  antonyms = none;
  example = none;
  grammar = none;
  level = none;
}

abbrev pub two_dogs : List NewWord
two_dogs = dog ∷ dog ∷ []
