-- ===== src/Learning/Tests.antt =====
-- Tests of the learning service, in UTC, on a package of two words at level 0 of which one is due.
use sealvo.Base.{ℕ, ◌≡◌, ◌≢◌, refl, true, false, some, [], ◌∷◌, arith}
use sealvo.Levels.{
  Level, level_0, level_1, level_2, GameType, word_scramble, phrase_completion, speed_vocab,
  game_level, next_level,
}
use sealvo.Levels.Laws.{required}
use sealvo.Cache.{up, down, lost, removed}
use sealvo.SpacedRepetition.Utc.{utc}
use sealvo.Learning.{
  State, Env, Row, Field, same_field, Outcome, level_completed, db_error, promote,
  track_game_completion, level_fields, ids_of, find_words_due_by_level,
}
use sealvo.Learning.Rows.{due_here}
use sealvo.Learning.Progress.{played}
use sealvo.Learning.Promotion.{Promoted, expected, track-level_completed, track_up}
use sealvo.Learning.Faults.{promote_once, update_error_loses_games}

abbrev old_word : Row
old_word = record { package_id = 1; detail_id = 10; level = level_0; date_memorized = some 1_000 }

abbrev new_word : Row
new_word = record {
  package_id = 1;
  detail_id = 11;
  level = level_0;
  date_memorized = some 864_000_000;
}

-- Ten days later; phrase completion has been played.
abbrev half_played : State
half_played = record {
  progress = λ u p. (level_0, phrase_completion) ∷ [];
  learning = old_word ∷ new_word ∷ [];
}

abbrev calm : Env
calm = record {
  set_link = up;
  get_link = up;
  del_link = up;
  find_ok = true;
  update_ok = true;
  now = 864_000_100;
  updated_at = 864_000_200;
}

abbrev after_scramble : Outcome × State
after_scramble = track_game_completion utc calm 7 word_scramble true 1 half_played

scramble_completes : after_scramble.0 ≡ level_completed 1 level_0 (some level_1)
unfolding track_game_completion game_level next_level sealvo.Levels.level_games sealvo.Cache.put
    sealvo.SpacedRepetition.is_due sealvo.SpacedRepetition.due_cutoff
    sealvo.SpacedRepetition.start_of_today sealvo.Levels.level_interval removed
scramble_completes = refl

keyed : ◌≡◌ {A = ℕ} 1 1 → ◌≢◌ {A = ℕ} 10 11
keyed e = omega arith

track-level_completed_example : Promoted utc calm 1 level_0 half_played after_scramble.1 1
unfolding track_game_completion game_level next_level sealvo.Levels.level_games sealvo.Cache.put
    sealvo.SpacedRepetition.is_due sealvo.SpacedRepetition.due_cutoff
    sealvo.SpacedRepetition.start_of_today sealvo.Levels.level_interval removed
track-level_completed_example =
    (track-level_completed utc calm 7 1 word_scramble half_played after_scramble.1 1 level_0
      (some level_1) ((keyed, tt), (tt, tt)) refl).3

track_up_example : after_scramble ≡ expected utc calm 7 1 word_scramble half_played
track_up_example =
    track_up utc calm 7 1 word_scramble half_played ((keyed, tt), (tt, tt)) refl refl refl refl refl

abbrev both_played : State
both_played = record half_played {
  progress = λ u p. (level_0, word_scramble) ∷ (level_0, phrase_completion) ∷ [];
}

promote_once_example :
    let ids = ids_of (find_words_due_by_level utc 864_000_100 1 level_0 both_played.learning) in
    let (outcome₁, s₁) = promote calm 7 1 (game_level word_scramble) ids both_played in
    let (outcome₂, s₂) = promote calm 7 1 (game_level word_scramble) (10 ∷ []) s₁ in
    outcome₂ ≡ level_completed 0 (game_level word_scramble) (next_level (game_level word_scramble))
unfolding game_level sealvo.Levels.level_games sealvo.Cache.has
promote_once_example =
    (promote_once utc calm calm 7 1 word_scramble (10 ∷ []) both_played ((keyed, tt), (tt, tt)) refl
      refl refl refl).2

abbrev broken : Env
broken = record calm { update_ok = false }

update_error_loses_games_example :
    let (outcome, t) = track_game_completion utc broken 7 word_scramble true 1 half_played in
    (outcome ≡ db_error)
    × (t.learning ≡ half_played.learning)
    × (removed same_field
          (level_fields (game_level word_scramble) (required (game_level word_scramble)))
          (t.progress 7 1)
        ≡ 0)
unfolding played game_level due_here sealvo.Levels.level_games sealvo.Cache.has
    sealvo.Learning.at_level sealvo.SpacedRepetition.is_due sealvo.SpacedRepetition.due_cutoff
    sealvo.SpacedRepetition.start_of_today sealvo.Levels.level_interval
update_error_loses_games_example =
    update_error_loses_games utc broken 7 1 word_scramble half_played refl refl refl refl refl refl
      (omega arith)
