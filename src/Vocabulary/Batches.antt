-- ===== src/Vocabulary/Batches.antt =====
-- `enrichWithGemini`: whatever Gemini answers, only examples change, and a batch is never too long.
use sealvo.Base.{
  ℕ, zero, suc, ◌+◌, ◌≤◌, ◌<◌, ◌≡◌, refl, ap, ap₂, ◌∙◌, inl, inr, not, none, List, [], ◌∷◌, ◌++◌,
  map, arith, ◌==◌, length, take, find, Option-cases, All, length-take-le,
}
use sealvo.Vocabulary.Enrichment.{
  NewWord, GeneratedExample, ExamplePayload, Gemini, drop, chunks, chunk, replace_one,
  replace_example, process, payloads, lacks_example, enrich_with_gemini, gemini_batch_size,
}

-- A word without its example.
abbrev pub forget : NewWord → NewWord
forget w = record w { example = none }

forget-replace_one :
    (rs : List GeneratedExample) (id : ℕ) (w : NewWord) → forget (replace_one rs id w) ≡ forget w
unfolding replace_one
forget-replace_one rs id w = elim (Option-cases (find (λ (r : GeneratedExample). r.id == id) rs)) [
  | inl e ↦ ground (arith, e)
  | inr (r, e) ↦ elim (Option-cases r.example) [
    | inl e' ↦ ground (arith, e, e')
    | inr (t, e') ↦ ground (arith, e, e')
  ]
]

forget-replace_example :
    (rs : List GeneratedExample) (id : ℕ) (words : List NewWord)
    → map forget (replace_example rs id words) ≡ map forget words
unfolding replace_example
forget-replace_example rs id [] = refl
forget-replace_example rs id (w ∷ words) =
    ap₂ (λ x xs. x ∷ xs) (forget-replace_one rs id w) (forget-replace_example rs (id + 1) words)

forget-process :
    (ask : List ExamplePayload → List GeneratedExample) (batches : List (List ExamplePayload))
    (words : List NewWord)
    → map forget (process ask batches words) ≡ map forget words
unfolding process
forget-process ask [] words = refl
forget-process ask (batch ∷ batches) words =
    forget-process ask batches (replace_example (ask batch) 0 words)
    ∙ forget-replace_example (ask batch) 0 words

-- Whatever Gemini answers, the words stay the same but for their examples, in the same order.
pub enrich_only_examples :
    (gemini : Gemini) (words : List NewWord)
    → map forget (enrich_with_gemini gemini words) ≡ map forget words
unfolding enrich_with_gemini
enrich_only_examples gemini words =
    forget-process gemini.modify_example
      (chunk (payloads (λ w. not (lacks_example w)) 0 words) gemini_batch_size)
      (process gemini.generate_example (chunk (payloads lacks_example 0 words) gemini_batch_size)
        words)
    ∙ forget-process gemini.generate_example
        (chunk (payloads lacks_example 0 words) gemini_batch_size) words

module _ {A : Type 0} where
  abbrev pub flatten : List (List A) → List A
  flatten [] = []
  flatten (xs ∷ xss) = xs ++ flatten xss

  append-take-drop : (n : ℕ) (xs : List A) → take n xs ++ drop n xs ≡ xs
  append-take-drop zero xs = refl
  append-take-drop (suc n) [] = refl
  append-take-drop (suc n) (x ∷ xs) = ap (λ ys. x ∷ ys) (append-take-drop n xs)

  length-drop-le : (n : ℕ) (xs : List A) → length (drop n xs) ≤ length xs
  length-drop-le zero xs = omega arith
  length-drop-le (suc n) [] = omega arith
  length-drop-le (suc n) (x ∷ xs) = omega (arith, length-drop-le n xs)

  chunks_lem :
      (fuel size : ℕ) (xs : List A)
      → length xs ≤ fuel
      → (flatten (chunks fuel (suc size) xs) ≡ xs)
        × All (λ batch. length batch ≤ suc size) (chunks fuel (suc size) xs)
  unfolding chunks
  chunks_lem zero size [] le = (refl, tt)
  chunks_lem zero size (x ∷ xs) le = absurd (omega (arith, le))
  chunks_lem (suc fuel) size [] le = (refl, tt)
  chunks_lem (suc fuel) size (x ∷ xs) le =
      let (whole, short) =
        chunks_lem fuel size (drop size xs) (omega (arith, le, length-drop-le size xs)) in
      (
        ap (λ ys. x ∷ (take size xs ++ ys)) whole ∙ ap (λ ys. x ∷ ys) (append-take-drop size xs),
        (length-take-le (suc size) (x ∷ xs), short),
      )

  -- The batches are the list, in order, and none is longer than the size.
  pub chunk_lem :
      (size : ℕ) (xs : List A)
      → 0 < size
      → (flatten (chunk xs size) ≡ xs) × All (λ batch. length batch ≤ size) (chunk xs size)
  unfolding chunk
  chunk_lem zero xs lt = absurd (omega (arith, lt))
  chunk_lem (suc size) xs lt = chunks_lem (length xs) size xs (omega arith)
