-- ===== src/Games/Tests.antt =====
-- Games at concrete words and scores.
use sealvo.Base.{ℕ, ◌≡◌, refl, some, [], ◌∷◌, length}
use sealvo.Games.{shuffle}
use sealvo.Games.Racing.{
  Table, Reach, stay, then_step, arrive, finish, first_statement, second_statement, no_scores,
  races_keep_best, maximum,
}

abbrev draw : ℕ → ℕ
draw i = 0

-- Two first saves race: the lower score is saved first, the higher one waits and wins.
abbrev after_first : Table
after_first = first_statement 1 50 no_scores

abbrev after_second : Table
after_second = first_statement 2 80 after_first

abbrev after_third : Table
after_third = second_statement 3 0 80 after_second

race_reached : Reach no_scores after_third
unfolding first_statement
race_reached =
    then_step (then_step (then_step stay (arrive 1 50)) (arrive 2 80)) (finish 3 0 80 refl)

race_row : after_third.row ≡ some (record { best_score = 80; play_count = 2; last_played_at = 3 })
unfolding first_statement second_statement
race_row = refl

races_keep_best_example :
    (◌≡◌ {A = ℕ} 80 (maximum after_third.saved)) × (◌≡◌ {A = ℕ} 2 (length after_third.saved))
races_keep_best_example =
    races_keep_best (record { best_score = 80; play_count = 2; last_played_at = 3 }) race_reached
      race_row

shuffled : shuffle {A = ℕ} draw (1 ∷ 2 ∷ 3 ∷ []) ≡ 2 ∷ 3 ∷ 1 ∷ []
unfolding shuffle
shuffled = refl
