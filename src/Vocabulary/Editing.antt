-- ===== src/Vocabulary/Editing.antt =====
-- apps/api/src/words/words.service.ts: changing and deleting words. A row of `word_details` may be
-- shared by several packages; one that is shared is copied before it is changed. The tables are
-- those of one transaction: no other request comes between the first read and the commit.
use text.Mathlib.Text.{◌==◌ as str_eq}
use sealvo.Base.{
  ℕ, Bool, true, false, not, ◌||◌, Option, none, some, List, [], ◌∷◌, map, String, ltb,
  if◌then◌else◌, length, select, find,
}
use sealvo.Levels.{Level}
use sealvo.Learning.{Row}
use sealvo.Vocabulary.Tables.{
  Key, Fields, Detail, Db, Result, ok, not_found, db_error, update_at, is_entry, in_package, refers,
  create_detail, delete_orphan_details,
}
use sealvo.Vocabulary.Enrichment.{NewWord, or_default, is_empty, Gemini, enrich_with_gemini}
use sealvo.Vocabulary.Words.{upsert_word}

-- UpdateWordDto
pub record UpdateWord : Type 0 where
  pub word : Option String
  pub subject : Option String
  pub language_code : Option String
  pub word_type : Option String
  pub meaning : Option String
  pub pronunciation : Option String
  pub synonyms : Option String
  pub antonyms : Option String
  pub example : Option String
  pub grammar : Option String
  pub level : Option Level

abbrev pub is_some : {A : Type 0} → Option A → Bool
is_some none = false
is_some (some a) = true

-- o !== undefined && o !== current
abbrev pub differs : Option String → String → Bool
differs none s = false
differs (some t) s = not (str_eq t s)

unfoldable pub word_changed : UpdateWord → Key → Bool
word_changed dto k =
    differs dto.word k.word
    || differs dto.language_code k.language_code
    || differs dto.subject k.subject

unfoldable pub new_key : UpdateWord → Key → Key
new_key dto k = record {
  word = or_default dto.word k.word;
  subject = or_default dto.subject k.subject;
  language_code = or_default dto.language_code k.language_code;
}

-- Object.keys(detailUpdate).length > 0
unfoldable pub has_update : UpdateWord → Key → Bool
unfolding word_changed
has_update dto k =
    is_some dto.word_type
    || is_some dto.meaning
    || is_some dto.pronunciation
    || is_some dto.synonyms
    || is_some dto.antonyms
    || is_some dto.example
    || is_some dto.grammar
    || word_changed dto k

unfoldable pub updated_fields : UpdateWord → Option String → Fields → Fields
updated_fields dto example f = record {
  word_type = or_default dto.word_type f.word_type;
  meaning = or_default dto.meaning f.meaning;
  pronunciation = or_default dto.pronunciation f.pronunciation;
  synonyms = or_default dto.synonyms f.synonyms;
  antonyms = or_default dto.antonyms f.antonyms;
  example = or_default example f.example;
  grammar = or_default dto.grammar f.grammar;
}

-- A new example that is not empty goes through Gemini.
unfoldable pub enriched_example : Gemini → UpdateWord → Key → Fields → Option String
unfolding enrich_with_gemini new_key
enriched_example gemini dto k f = elim dto.example [
  | none ↦ none
  | some e ↦
      let asked : NewWord = record {
        key = new_key dto k;
        word_type = or_default dto.word_type f.word_type;
        meaning = or_default dto.meaning f.meaning;
        pronunciation = none;
        synonyms = none;
        antonyms = none;
        example = some e;
        grammar = none;
        level = none;
      } in
      if is_empty e
      then some e
      else elim (enrich_with_gemini gemini (asked ∷ [])) [ [] ↦ some e | w ∷ _ ↦ w.example ]
]

abbrev pub refs : ℕ → List Row → ℕ
refs detail rows = length (select (refers detail) rows)

-- learning.update({ data: { detail_id } })
unfoldable pub move_entry : ℕ → ℕ → ℕ → List Row → List Row
move_entry pkg detail target rows =
    map (λ r. if is_entry pkg detail r then record r { detail_id = target } else r) rows

unfoldable pub set_level : ℕ → ℕ → Option Level → List Row → List Row
set_level pkg detail none rows = rows
set_level pkg detail (some l) rows =
    map (λ r. if is_entry pkg detail r then record r { level = l } else r) rows

-- The package's own row of `word_details`: the row itself, or a copy if others refer to it.
unfoldable pub own_detail : ℕ → ℕ → Detail → Db → ℕ × Db
unfolding create_detail move_entry
own_detail pkg detail d db =
    let (clone, copied) = create_detail d db in
    if ltb 1 (refs detail db.learning)
    then (clone, record copied { learning = move_entry pkg detail clone db.learning })
    else (detail, db)

unfoldable pub write_detail : ℕ → Detail → Db → Db
write_detail detail d db = record db { details = update_at db.details detail (some d) }

module _ (collate : Key → Key → Bool) where
  unfoldable pub new_word_id : UpdateWord → Key → Detail → Db → ℕ × Db
  unfolding upsert_word word_changed new_key
  new_word_id dto k d db =
      if word_changed dto k
      then upsert_word collate (λ a b. true) (new_key dto k) db
      else (d.word_id, db)

  unfoldable pub update_entry : Gemini → ℕ → ℕ → UpdateWord → Key → Detail → Db → ℕ × Db
  update_entry gemini pkg detail dto k d db =
      let example = enriched_example gemini dto k d.fields in
      let (word_id, with_word) = new_word_id dto k d db in
      let (own, owned) = own_detail pkg detail d with_word in
      let written =
        write_detail own
          (record { word_id = word_id; fields = updated_fields dto example d.fields }) owned in
      let (target, after) = if has_update dto k then (own, written) else (detail, db) in
      (target, record after { learning = set_level pkg target dto.level after.learning })

  unfoldable pub update_word : Gemini → ℕ → ℕ → UpdateWord → Db → Result ℕ × Db
  update_word gemini pkg detail dto db = elim (find (is_entry pkg detail) db.learning) [
    | none ↦ (not_found, db)
    | some r ↦ elim (db.details detail) [
      | none ↦ (db_error, db)
      | some d ↦ elim (db.words d.word_id) [
        | none ↦ (db_error, db)
        | some k ↦
            let (target, after) = update_entry gemini pkg detail dto k d db in (ok target, after)
      ]
    ]
  ]

unfoldable pub delete_word : ℕ → ℕ → Db → Result Unit × Db
unfolding delete_orphan_details
delete_word pkg detail db = elim (find (is_entry pkg detail) db.learning) [
  | none ↦ (not_found, db)
  | some r ↦ (
    ok tt,
    delete_orphan_details (detail ∷ [])
        (record db { learning = select (λ r. not (is_entry pkg detail r)) db.learning }),
  )
]

abbrev pub detail_ids : ℕ → Db → List ℕ
detail_ids pkg db = map (λ (r : Row). r.detail_id) (select (in_package pkg) db.learning)

-- The rows of the package, and the details that nobody refers to any more.
unfoldable pub delete_entries : ℕ → Db → Db
unfolding delete_orphan_details
delete_entries pkg db =
    delete_orphan_details (detail_ids pkg db)
      (record db { learning = select (λ r. not (in_package pkg r)) db.learning })

-- How many words there were.
unfoldable pub delete_all_words : ℕ → Db → ℕ × Db
unfolding delete_entries
delete_all_words pkg db = elim (detail_ids pkg db) [
  | [] ↦ (0, db)
  | i ∷ ids ↦ (length (i ∷ ids), delete_entries pkg db)
]
