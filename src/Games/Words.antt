-- ===== src/Games/Words.antt =====
-- The words of a game: when it can be played, and what the word search receives.
use sealvo.Base.{
  ℕ, zero, suc, ◌+◌, ◌≤◌, ◌<◌, ◌≡◌, ◌↔◌, refl, ap, ◌∙◌, ◌⊎◌, inl, inr, Bool, true, false, not, none,
  some, List, [], ◌∷◌, arith, leb, if◌then◌else◌, length, select, take, get_elem?, set, All,
  Option-cases, length-take-le, length-select-le,
}
use sealvo.Levels.{GameType, game_level, word_search, same_game}
use sealvo.Learning.{Row, at_level}
use sealvo.SpacedRepetition.{Calendar}
use sealvo.Games.{
  swap, shuffle_from, shuffle, min_required, playable_words, due_words, error_for,
  get_words_for_game, word_search_max_words, word_search_max_bytes,
}

module _ {A : Type 0} (p : A → Bool) where
  abbrev pub count : List A → ℕ
  count xs = length (select p xs)

  abbrev one : A → ℕ
  one a = if p a then 1 else 0

  count_cons : (x : A) (xs : List A) → count (x ∷ xs) ≡ one x + count xs
  count_cons x xs = ground arith

  count-set :
      (xs : List A) (i : ℕ) (old new : A)
      → get_elem? xs i ≡ some old
      → count (set xs i new) + one old ≡ count xs + one new
  count-set [] i old new h = absurd (ground arith)
  count-set (x ∷ xs) zero old new h =
      let same : x ≡ old = ground arith in
      omega (arith, count_cons new xs, count_cons x xs, ap one same)
  count-set (x ∷ xs) (suc i) old new h =
      omega (arith, count_cons x (set xs i new), count_cons x xs, count-set xs i old new h)

  get-set :
      (xs : List A) (i j : ℕ) (new b : A)
      → get_elem? xs j ≡ some b
      → (get_elem? (set xs i new) j ≡ some new × (i ≡ j)) ⊎ (get_elem? (set xs i new) j ≡ some b)
  get-set [] i j new b h = inr h
  get-set (x ∷ xs) zero zero new b h = inl (refl, refl)
  get-set (x ∷ xs) zero (suc j) new b h = inr h
  get-set (x ∷ xs) (suc i) zero new b h = inr h
  get-set (x ∷ xs) (suc i) (suc j) new b h = elim (get-set xs i j new b h) [
    | inl (there, same) ↦ inl (there, ap suc same)
    | inr there ↦ inr there
  ]

  count-swap : (i j : ℕ) (xs : List A) → count (swap i j xs) ≡ count xs
  unfolding swap
  count-swap i j xs = elim (Option-cases (get_elem? xs i)) [
    | inl e ↦ ap count (ground (arith, e))
    | inr (a, e) ↦ elim (Option-cases (get_elem? xs j)) [
      | inl e' ↦ ap count (ground (arith, e, e'))
      | inr (b, e') ↦
          let first = count-set xs i a b e in
          let shape : swap i j xs ≡ set (set xs i b) j a = ground (arith, e, e') in
          elim (get-set xs i j b b e') [
            | inl (there, same) ↦
                omega (arith, ap count shape, first, count-set (set xs i b) j b a there)
            | inr there ↦ omega (arith, ap count shape, first, count-set (set xs i b) j b a there)
          ]
    ]
  ]

  count-shuffle_from :
      (draw : ℕ → ℕ) (i : ℕ) (xs : List A) → count (shuffle_from draw i xs) ≡ count xs
  unfolding shuffle_from
  count-shuffle_from draw zero xs = refl
  count-shuffle_from draw (suc i) xs =
      count-shuffle_from draw i (swap (suc i) (draw (suc i)) xs)
      ∙ count-swap (suc i) (draw (suc i)) xs

  -- A shuffled list has the same elements: of each kind as many as before.
  pub count-shuffle : (draw : ℕ → ℕ) (xs : List A) → count (shuffle draw xs) ≡ count xs
  unfolding shuffle
  count-shuffle draw [] = refl
  count-shuffle draw (x ∷ xs) = count-shuffle_from draw (length xs) (x ∷ xs)

-- Nothing fails the test: everything passes.
count_zero :
    {A : Type 0} (p : A → Bool) (xs : List A)
    → count (λ x. not (p x)) xs ≡ 0
    → All (λ x. p x ≡ true) xs
count_zero p [] h = tt
count_zero p (x ∷ xs) h = (ground arith, count_zero p xs (ground arith))

none_fail : {A : Type 0} (p : A → Bool) (xs : List A) → count (λ x. not (p x)) (select p xs) ≡ 0
none_fail p [] = refl
none_fail p (x ∷ xs) = ground (arith, none_fail p xs)

take-All : {A : Type 0} (P : A → Type 0) (n : ℕ) (xs : List A) → All P xs → All P (take n xs)
take-All P zero xs h = tt
take-All P (suc n) [] h = tt
take-All P (suc n) (x ∷ xs) h = (h.0, take-All P n xs h.1)

module _ (c : Calendar) (byte_length : Row → ℕ) (draw : ℕ → ℕ) (now pkg : ℕ) (rows : List Row) where
  abbrev short : Row → Bool
  short w = leb (byte_length w) word_search_max_bytes

  playable_short :
      (words : List Row) → All (λ w. short w ≡ true) (playable_words c byte_length draw words)
  unfolding playable_words
  playable_short words =
      take-All (λ w. short w ≡ true) word_search_max_words (shuffle draw (select short words))
        (count_zero short (shuffle draw (select short words))
          (count-shuffle (λ w. not (short w)) draw (select short words) ∙ none_fail short words))

  playable_few :
      (words : List Row) → length (playable_words c byte_length draw words) ≤ word_search_max_words
  unfolding playable_words
  playable_few words = length-take-le word_search_max_words (shuffle draw (select short words))

  -- The word search receives 30 words at most, each of 13 bytes at most, and no error only if there
  -- is a word to play with and enough words are due.
  pub word_search_words :
      let r = get_words_for_game c byte_length draw now pkg word_search rows in
      (length r.words ≤ 30)
      × All (λ w. short w ≡ true) r.words
      × (r.error_message ≡ none → (0 < length r.words) × (min_required word_search ≤ r.word_count))
  unfolding get_words_for_game error_for
  word_search_words =
      let due = due_words c byte_length draw now pkg word_search rows in
      (playable_few due, playable_short due, λ h. ground arith)

  due_few :
      (game : GameType)
      → length (due_words c byte_length draw now pkg game rows)
        ≤ length (select (at_level pkg (game_level game)) rows)
  unfolding due_words
  due_few game = length-select-le _ (select (at_level pkg (game_level game)) rows)

  -- Every other game receives the words that are due at its level in the package, and can be played
  -- exactly when they are at least as many as the game wants.
  pub game_starts :
      (game : GameType)
      → same_game game word_search ≡ false
      → let r = get_words_for_game c byte_length draw now pkg game rows in
        (r.words ≡ due_words c byte_length draw now pkg game rows)
        × ((r.error_message ≡ none) ↔ (min_required game ≤ length r.words))
  unfolding get_words_for_game error_for
  game_starts game other = rw (get_words_for_game, other) (refl, ground (arith, due_few game))
