-- ===== src/Levels.antt =====
-- packages/shared/src/constants/index.ts and packages/shared/src/types/{word,game}.ts: the levels
-- of spaced repetition, their intervals, and the games that review each level; with
-- apps/api/src/learning/learning.constants.ts, which derives the next level.
-- The levels `x` and `v` of the source are spelled `level_x` and `level_v`.
mod Tests
pub mod Laws
use mathlib.Core.List.{zip, tail}
use sealvo.Base.{
  ℕ, Bool, true, false, Option, none, some, List, [], ◌∷◌, if◌then◌else◌, ◌≡◌, refl, arith, ◌↔◌,
}

pub data Level : Type 0 where
  level_x level_0 level_1 level_2 level_v : Level

pub data GameType : Type 0 where
  flash_match vocab_quiz test_pronun word_scramble phrase_completion speed_vocab word_search :
      GameType

abbrev pub levels : List Level
levels = level_x ∷ level_0 ∷ level_1 ∷ level_2 ∷ level_v ∷ []

-- The interval of a level, in days.
unfoldable pub level_interval : Level → ℕ
level_interval level_x = 0
level_interval level_0 = 2
level_interval level_1 = 4
level_interval level_2 = 10
level_interval level_v = 20

abbrev pub all_game_types : List GameType
all_game_types =
    flash_match ∷ vocab_quiz ∷ test_pronun ∷ word_scramble ∷ phrase_completion ∷ speed_vocab
    ∷ word_search ∷ []

unfoldable pub game_level : GameType → Level
game_level flash_match = level_x
game_level vocab_quiz = level_x
game_level test_pronun = level_x
game_level word_scramble = level_0
game_level phrase_completion = level_0
game_level speed_vocab = level_1
game_level word_search = level_2

-- The source's table has no key `v`.
unfoldable pub level_games : Level → Option (List GameType)
level_games level_x = some (flash_match ∷ vocab_quiz ∷ test_pronun ∷ [])
level_games level_0 = some (word_scramble ∷ phrase_completion ∷ [])
level_games level_1 = some (speed_vocab ∷ [])
level_games level_2 = some (word_search ∷ [])
level_games level_v = none

-- Equality of the string literals that stand for the levels and the games.
abbrev pub level_index : Level → ℕ
level_index level_x = 0
level_index level_0 = 1
level_index level_1 = 2
level_index level_2 = 3
level_index level_v = 4

abbrev pub same_level : Level → Level → Bool
same_level level_x level_x = true
same_level level_0 level_0 = true
same_level level_1 level_1 = true
same_level level_2 level_2 = true
same_level level_v level_v = true
same_level _ _ = false

abbrev pub game_index : GameType → ℕ
game_index flash_match = 0
game_index vocab_quiz = 1
game_index test_pronun = 2
game_index word_scramble = 3
game_index phrase_completion = 4
game_index speed_vocab = 5
game_index word_search = 6

abbrev pub same_game : GameType → GameType → Bool
same_game flash_match flash_match = true
same_game vocab_quiz vocab_quiz = true
same_game test_pronun test_pronun = true
same_game word_scramble word_scramble = true
same_game phrase_completion phrase_completion = true
same_game speed_vocab speed_vocab = true
same_game word_search word_search = true
same_game _ _ = false

-- A property of an object under a level as its key.
unfoldable pub entry {ℓ} : {A : Type ℓ} → Level → List (Level × A) → Option A
entry l [] = none
entry l ((k, a) ∷ es) = let rest = entry l es in if same_level k l then some a else rest

-- NEXT_LEVEL: each level but the last with the level that stands after it in LEVELS.
unfoldable pub next_level : Level → Option Level
unfolding entry zip
next_level l = entry l (zip levels (tail levels))
