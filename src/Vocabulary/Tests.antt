-- ===== src/Vocabulary/Tests.antt =====
-- The vocabulary at the two packages of Samples.
use sealvo.Base.{ℕ, ◌<◌, map, ◌≡◌, refl, true, false, none, some, arith, length}
use sealvo.Levels.{level_x}
use sealvo.Vocabulary.Tables.{ok, public_mode}
use sealvo.Vocabulary.Enrichment.{enrich_with_gemini}
use sealvo.Vocabulary.Batches.{forget}
use sealvo.Vocabulary.Words.{deadlocks, same_key, add_words, is_job_applied}
use sealvo.Vocabulary.Editing.{UpdateWord, update_word, has_update}
use sealvo.Vocabulary.Integrity.{Whole}
use sealvo.Vocabulary.Adding.{same_key_refl}
use sealvo.Vocabulary.Once.{Saved}
use sealvo.Vocabulary.Claiming.{has_job}
use sealvo.Vocabulary.Delivery.{add_words_saves, add_words_again}
use sealvo.Vocabulary.Sharing.{Others}
use sealvo.Vocabulary.Isolation.{update_word-Others}
use sealvo.Vocabulary.Samples.{
  cat, owned_by, shared_cat, shared_cat-Whole, gemini, first_victim, before, two_dogs,
}

not_applied : is_job_applied (some 41) shared_cat ≡ false
unfolding is_job_applied
not_applied = refl

already_applied : is_job_applied (some 40) shared_cat ≡ true
unfolding is_job_applied
already_applied = refl

only_first : (j : ℕ) → j < 1 → first_victim j ≡ deadlocks
only_first j lt = ground (arith, lt)

add_words_saves_example :
    let enriched = enrich_with_gemini gemini two_dogs in
    let (r, final) =
      add_words same_key before gemini first_victim 9 1 (some 41) two_dogs shared_cat shared_cat in
    (r ≡ ok (record { success_count = length two_dogs; already_applied = false }))
    × (map forget enriched ≡ map forget two_dogs)
    × Saved same_key before same_key_refl 9 1 shared_cat enriched final
    × (is_job_applied (some 41) final ≡ has_job (some 41))
add_words_saves_example =
    add_words_saves same_key before same_key_refl gemini first_victim 9 1 (some 41) two_dogs
      shared_cat shared_cat (owned_by 7 public_mode) 1 shared_cat-Whole refl not_applied not_applied
      (omega arith) only_first refl

add_words_again_example :
    (add_words same_key before gemini first_victim 9 1 (some 40) two_dogs shared_cat shared_cat).1
    ≡ shared_cat
add_words_again_example =
    add_words_again same_key before same_key_refl gemini first_victim 9 1 40 two_dogs shared_cat
      shared_cat already_applied

abbrev new_meaning : UpdateWord
new_meaning = record {
  word = none;
  subject = none;
  language_code = some "fr";
  word_type = none;
  meaning = some "un petit animal";
  pronunciation = none;
  synonyms = none;
  antonyms = none;
  example = none;
  grammar = none;
  level = some level_x;
}

update_word-Others_example :
    let after = (update_word same_key gemini 1 0 new_meaning shared_cat).1 in
    Whole after × Others 1 shared_cat after
update_word-Others_example =
    update_word-Others same_key same_key_refl gemini 1 0 new_meaning shared_cat shared_cat-Whole
      (omega arith)

meaning_given : has_update new_meaning cat ≡ true
unfolding has_update
meaning_given = refl
