-- ===== src/Games/Scores.antt =====
-- `saveScore`: its two statements on the row of a user and a game.
use sealvo.Base.{ℕ, ◌+◌, Bool, true, false, Option, none, some, ltb, if◌then◌else◌}

pub record Score : Type 0 where
  pub best_score : ℕ
  pub play_count : ℕ
  pub last_played_at : ℕ

-- createMany with skipDuplicates: whether a row was created.
unfoldable pub create_score : ℕ → ℕ → Option Score → Bool × Option Score
create_score now score (some s) = (false, some s)
create_score now score none =
    (true, some (record { best_score = score; play_count = 1; last_played_at = now }))

-- update, then updateMany where best_score < score: whether the best was raised.
unfoldable pub raise : ℕ → ℕ → Score → Bool × Score
raise now score s =
    let played = record s { play_count = s.play_count + 1; last_played_at = now } in
    if ltb s.best_score score then (true, record played { best_score = score }) else (false, played)

-- The update of a row that is not there fails: none.
unfoldable pub raise_row : ℕ → ℕ → Option Score → Option (Bool × Option Score)
unfolding raise
raise_row now score none = none
raise_row now score (some s) = let (raised, after) = raise now score s in some (raised, some after)

-- Whether it is a high score, and the row. `between` is what other requests do to the row between
-- the two statements.
unfoldable pub save_score :
    (Option Score → Option Score) → ℕ → ℕ → Option Score → Option (Bool × Option Score)
unfolding create_score raise_row
save_score between now score row =
    let (created, after) = create_score now score row in
    if created then some (true, after) else raise_row now score (between after)
