-- ===== src/Vocabulary/Enrichment.antt =====
-- apps/api/src/words/words-enrichment.service.ts: the examples that Gemini writes. Gemini is a
-- parameter: what it answers to a batch, an example for each of some indices, whatever they are.
use text.Mathlib.Text.{◌==◌ as str_eq}
use sealvo.Base.{
  ℕ, zero, suc, ◌+◌, Bool, true, not, ◌||◌, Option, none, some, List, [], ◌∷◌, String, ◌==◌,
  if◌then◌else◌, length, take, find,
}
use sealvo.Levels.{Level}
use sealvo.Vocabulary.Tables.{Key}

-- CreateWordDto
pub record NewWord : Type 0 where
  pub key : Key
  pub word_type : String
  pub meaning : String
  pub pronunciation : Option String
  pub synonyms : Option String
  pub antonyms : Option String
  pub example : Option String
  pub grammar : Option String
  pub level : Option Level

-- o ?? d
abbrev pub or_default : {A : Type 0} → Option A → A → A
or_default none d = d
or_default (some a) d = a

pub record ExamplePayload : Type 0 where
  pub id : ℕ
  pub word : String
  pub language_code : String
  pub meaning : String
  pub word_type : String
  pub example : Option String

-- An answer without a text for the example is none.
pub record GeneratedExample : Type 0 where
  pub id : ℕ
  pub example : Option String

pub record Gemini : Type 0 where
  pub generate_example : List ExamplePayload → List GeneratedExample
  pub modify_example : List ExamplePayload → List GeneratedExample

abbrev pub gemini_batch_size : ℕ
gemini_batch_size = 25

abbrev pub drop : {A : Type 0} → ℕ → List A → List A
drop zero xs = xs
drop (suc n) [] = []
drop (suc n) (x ∷ xs) = drop n xs

-- chunk(arr, size): the fuel is the length of the list, the size is positive.
unfoldable pub chunks : {A : Type 0} → ℕ → ℕ → List A → List (List A)
chunks zero size xs = []
chunks (suc fuel) size [] = []
chunks (suc fuel) size (x ∷ xs) = take size (x ∷ xs) ∷ chunks fuel size (drop size (x ∷ xs))

unfoldable pub chunk : {A : Type 0} → List A → ℕ → List (List A)
unfolding chunks
chunk xs size = chunks (length xs) size xs

unfoldable pub replace_one : List GeneratedExample → ℕ → NewWord → NewWord
replace_one replacements id w = elim (find (λ (r : GeneratedExample). r.id == id) replacements) [
  | none ↦ w
  | some found ↦ elim found.example [ none ↦ w | some e ↦ record w { example = some e } ]
]

-- words.forEach from the index `id` on
unfoldable pub replace_example : List GeneratedExample → ℕ → List NewWord → List NewWord
unfolding replace_one
replace_example replacements id [] = []
replace_example replacements id (w ∷ words) =
    replace_one replacements id w ∷ replace_example replacements (id + 1) words

abbrev pub is_empty : String → Bool
is_empty s = str_eq s ""

-- !w.example: undefined or empty
abbrev pub lacks_example : NewWord → Bool
lacks_example w = elim w.example [ none ↦ true | some e ↦ is_empty e ]

unfoldable pub example_payload : ℕ → NewWord → Option ExamplePayload
example_payload id w =
    if is_empty w.meaning || is_empty w.word_type || is_empty w.key.word
    then none
    else some (record {
      id = id;
      word = w.key.word;
      language_code = w.key.language_code;
      meaning = w.meaning;
      word_type = w.word_type;
      example = if lacks_example w then none else w.example;
    })

-- The payloads of the words without an example, or of those with one.
unfoldable pub payloads : (NewWord → Bool) → ℕ → List NewWord → List ExamplePayload
unfolding example_payload
payloads wanted id [] = []
payloads wanted id (w ∷ words) =
    let rest = payloads wanted (id + 1) words in
    elim (example_payload id w) [ none ↦ rest | some p ↦ if wanted w then p ∷ rest else rest ]

unfoldable pub process :
    (List ExamplePayload → List GeneratedExample)
    → List (List ExamplePayload)
    → List NewWord
    → List NewWord
unfolding replace_example
process ask [] words = words
process ask (batch ∷ batches) words = process ask batches (replace_example (ask batch) 0 words)

-- The payloads are made before the first answer.
unfoldable pub enrich_with_gemini : Gemini → List NewWord → List NewWord
unfolding payloads chunk process
enrich_with_gemini gemini words =
    let no_example = payloads lacks_example 0 words in
    let with_example = payloads (λ w. not (lacks_example w)) 0 words in
    process gemini.modify_example (chunk with_example gemini_batch_size)
      (process gemini.generate_example (chunk no_example gemini_batch_size) words)
