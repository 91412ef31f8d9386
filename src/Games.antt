-- ===== src/Games.antt =====
-- apps/api/src/games/games.service.ts: the words of a game and the best scores. A random index, the
-- calendar, a word's text and its length in bytes are parameters. The table of scores is one row of
-- a user and a game; a statement of the service is atomic.
pub mod Words
pub mod Scores
pub mod Racing
mod Tests
use sealvo.Base.{
  ℕ, zero, suc, ◌+◌, Bool, true, false, not, Option, none, some, List, [], ◌∷◌, map, ltb, leb, ◌==◌,
  if◌then◌else◌, length, select, take, get_elem?, set,
}
use sealvo.Levels.{
  Level, GameType, game_level, same_level, flash_match, vocab_quiz, word_search, same_game,
}
use sealvo.Learning.{Row, at_level}
use sealvo.SpacedRepetition.{Calendar, start_of_today, is_due}

abbrev pub default_min_words : ℕ
default_min_words = 5

-- MIN_WORDS[gameType] ?? DEFAULT_MIN_WORDS
unfoldable pub min_required : GameType → ℕ
min_required g =
    if same_game g flash_match then 6 else if same_game g vocab_quiz then 6 else default_min_words

abbrev pub word_search_max_words : ℕ
word_search_max_words = 30

abbrev pub word_search_max_bytes : ℕ
word_search_max_bytes = 13

module _ {A : Type 0} where
  -- [items[i], items[j]] = [items[j], items[i]]
  unfoldable pub swap : ℕ → ℕ → List A → List A
  swap i j items = elim (get_elem? items i) [
    | none ↦ items
    | some a ↦ elim (get_elem? items j) [ none ↦ items | some b ↦ set (set items i b) j a ]
  ]

  -- From the index i down to 1, with the random index of each.
  unfoldable pub shuffle_from : (ℕ → ℕ) → ℕ → List A → List A
  unfolding swap
  shuffle_from draw zero items = items
  shuffle_from draw (suc i) items = shuffle_from draw i (swap (suc i) (draw (suc i)) items)

  unfoldable pub shuffle : (ℕ → ℕ) → List A → List A
  unfolding shuffle_from
  shuffle draw items = elim items [
    | [] ↦ []
    | a ∷ rest ↦ shuffle_from draw (length rest) (a ∷ rest)
  ]

pub data GameError : Type 0 where
  too_few : ℕ → Level → GameError
  not_due : Level → GameError
  none_playable : GameError

pub record GameWords : Type 0 where
  pub words : List Row
  pub word_count : ℕ
  pub total_at_level : ℕ
  pub error_message : Option GameError

-- o ?? e
abbrev pub or_error : Option GameError → Option GameError → Option GameError
or_error none e = e
or_error (some o) e = some o

module _ (c : Calendar) (byte_length : Row → ℕ) (draw : ℕ → ℕ) where
  unfoldable pub playable_words : List Row → List Row
  unfolding shuffle
  playable_words words =
      take word_search_max_words
        (shuffle draw (select (λ w. leb (byte_length w) word_search_max_bytes) words))

  unfoldable pub due_words : ℕ → ℕ → GameType → List Row → List Row
  unfolding at_level
  due_words now pkg game rows =
      select (λ r. is_due c (game_level game) r.date_memorized (start_of_today c now))
        (select (at_level pkg (game_level game)) rows)

  unfoldable pub error_for : GameType → ℕ → ℕ → Option GameError
  unfolding min_required
  error_for game total due =
      if ltb total (min_required game)
      then some (too_few (min_required game) (game_level game))
      else if ltb due (min_required game)
      then some (not_due (game_level game))
      else none

  unfoldable pub get_words_for_game : ℕ → ℕ → GameType → List Row → GameWords
  unfolding playable_words due_words error_for
  get_words_for_game now pkg game rows =
      let due = due_words now pkg game rows in
      let total = length (select (at_level pkg (game_level game)) rows) in
      let error = error_for game total (length due) in
      let playable = playable_words due in
      if same_game game word_search
      then record {
        words = playable;
        word_count = length due;
        total_at_level = total;
        error_message = or_error error (if length playable == 0 then some none_playable else none);
      }
      else record {
        words = due;
        word_count = length due;
        total_at_level = total;
        error_message = error;
      }
