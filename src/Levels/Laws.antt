-- ===== src/Levels/Laws.antt =====
-- The tables of levels and games agree with one another.
use sealvo.Base.{◌<◌, ◌≡◌, refl, ◌↔◌, true, none, some, List, [], arith, any}
use sealvo.Levels.{
  Level, level_x, level_0, level_1, level_2, level_v, GameType, flash_match, vocab_quiz,
  test_pronun, word_scramble, phrase_completion, speed_vocab, word_search, level_interval,
  game_level, level_games, same_level, same_game, next_level,
}

pub same_level_iff : (a b : Level) → (same_level a b ≡ true) ↔ (a ≡ b)
same_level_iff level_x b = ground arith
same_level_iff level_0 b = ground arith
same_level_iff level_1 b = ground arith
same_level_iff level_2 b = ground arith
same_level_iff level_v b = ground arith

pub same_level_refl : (a : Level) → same_level a a ≡ true
same_level_refl a = (same_level_iff a a).1 refl

pub same_game_iff : (a b : GameType) → (same_game a b ≡ true) ↔ (a ≡ b)
same_game_iff flash_match b = ground arith
same_game_iff vocab_quiz b = ground arith
same_game_iff test_pronun b = ground arith
same_game_iff word_scramble b = ground arith
same_game_iff phrase_completion b = ground arith
same_game_iff speed_vocab b = ground arith
same_game_iff word_search b = ground arith

pub same_game_refl : (a : GameType) → same_game a a ≡ true
same_game_refl a = (same_game_iff a a).1 refl

-- The games that a level asks for.
abbrev pub required : Level → List GameType
required l = elim (level_games l) [ none ↦ [] | some gs ↦ gs ]

-- A game is among those that a level asks for exactly when it reviews that level, every game's
-- level has a next one, and promotion always lengthens the interval.
pub level_tables :
    (g : GameType) (l : Level)
    → ((any (same_game g) (required l) ≡ true) ↔ (game_level g ≡ l))
      × ((m : Level) × (next_level (game_level g) ≡ some m)
          × (level_interval (game_level g) < level_interval m))
unfolding level_games game_level next_level level_interval
level_tables flash_match l = (ground arith, (level_0, refl, omega arith))
level_tables vocab_quiz l = (ground arith, (level_0, refl, omega arith))
level_tables test_pronun l = (ground arith, (level_0, refl, omega arith))
level_tables word_scramble l = (ground arith, (level_1, refl, omega arith))
level_tables phrase_completion l = (ground arith, (level_1, refl, omega arith))
level_tables speed_vocab l = (ground arith, (level_2, refl, omega arith))
level_tables word_search l = (ground arith, (level_v, refl, omega arith))
