-- ===== src/Learning/Faults.antt =====
-- `trackGameCompletion` when requests race, when Redis is away, and when the database fails.
use sealvo.Base.{
  ℕ, ◌<◌, ◌≡◌, ◌⊎◌, refl, ap, inl, inr, true, false, Option, List, [], ◌∷◌, map, arith, length,
  select, every, Bool-cases, every_congr, ==_refl, length-map,
}
use sealvo.Levels.{
  level_1, level_2, level_games, flash_match, vocab_quiz, test_pronun, word_scramble,
  phrase_completion, speed_vocab, word_search, Level, GameType, same_game, game_level, next_level,
}
use sealvo.Levels.Laws.{required}
use sealvo.Cache.Hash.{removed-every, removed-without}
use sealvo.SpacedRepetition.{Calendar}
use sealvo.Cache.{up, down, has, put, removed, h_del}
use sealvo.Learning.{
  State, Env, Row, Field, same_field, level_completed, db_error, record_game,
  find_words_due_by_level, promote, claimed, complete_level, track_game_completion, store,
  level_fields, ids_of,
}
use sealvo.Learning.Rows.{IsKeyed, due_here, promoted, find-eq-select}
use sealvo.Learning.Progress.{same_field_iff, played, record_game_up, record_game_down}
use sealvo.Learning.Promotion.{update_read, fields-stored}

asks_for_one : (game : GameType) → 0 < length (required (game_level game))
unfolding level_games game_level
asks_for_one flash_match = omega arith
asks_for_one _ = omega arith

-- Of two requests that both saw a level complete, where all its games are stored and both calls of
-- HDEL are answered: the first, whose update succeeds, moves all rows that were due when it looked
-- to the next level and reports how many, and the second then promotes nothing, whatever rows it
-- had read.
pub promote_once :
    (c : Calendar) (e₁ e₂ : Env) (user pkg : ℕ) (game : GameType) (ids₂ : List ℕ) (s : State)
    → IsKeyed s.learning
    → e₁.del_link ≡ up
    → e₂.del_link ≡ up
    → e₁.update_ok ≡ true
    → let level = game_level game in
      every (λ f. has same_field f (s.progress user pkg)) (level_fields level (required level))
        ≡ true
      → let ids₁ = ids_of (find_words_due_by_level c e₁.now pkg level s.learning) in
        let (outcome₁, s₁) = promote e₁ user pkg level ids₁ s in
        let (outcome₂, s₂) = promote e₂ user pkg level ids₂ s₁ in
        (outcome₁
          ≡ level_completed
              (length (select (due_here c e₁.now pkg level) s.learning))
              level
              (next_level level))
        × (s₁.learning ≡ map (promoted c e₁.now pkg level e₁.updated_at) s.learning)
        × (outcome₂ ≡ level_completed 0 level (next_level level))
        × (s₂.learning ≡ s₁.learning)
unfolding promote h_del claimed
promote_once c e₁ e₂ user pkg game ids₂ s k p q u all =
    let level = game_level game in
    let gone = level_fields level (required level) in
    let due = find_words_due_by_level c e₁.now pkg level s.learning in
    ground (
      arith,
      update_read c e₁ user pkg level s due k refl,
      removed-every same_field same_field_iff gone (s.progress user pkg) all,
      length-map {B = Field} (λ (g : GameType). (level, g)) (required level),
      removed-without same_field same_field_iff gone (s.progress user pkg),
      ==_refl user,
      ==_refl pkg,
      asks_for_one game,
    )

single_game :
    (game : GameType)
    → every (λ g. same_game g game) (required (game_level game)) ≡ true
    → (game_level game ≡ level_1) ⊎ (game_level game ≡ level_2)
unfolding level_games game_level
single_game flash_match h = cc
single_game vocab_quiz h = cc
single_game test_pronun h = cc
single_game word_scramble h = cc
single_game phrase_completion h = cc
single_game speed_vocab h = inl refl
single_game word_search h = inr refl

complete_level_down :
    (c : Calendar) (e : Env) (user pkg : ℕ) (game : GameType) (level : Level) (s t : State)
    (due : List Row) (count : ℕ) (from : Level) (to : Option Level)
    → IsKeyed s.learning
    → due ≡ find_words_due_by_level c e.now pkg level s.learning
    → e.del_link ≡ down
    → complete_level e user pkg game level due s ≡ (level_completed count from to, t)
    → (from ≡ level)
      × (count ≡ length (select (due_here c e.now pkg level) s.learning))
      × (t.learning ≡ map (promoted c e.now pkg level e.updated_at) s.learning)
unfolding complete_level promote h_del claimed
complete_level_down c e user pkg game level s t [] count from to k d r h = absurd (ground arith)
complete_level_down c e user pkg game level s t (w ∷ due) count from to k d r h =
    ground (arith, update_read c e user pkg level s (w ∷ due) k d)

-- Without Redis a level is completed only if it asks for one game: level 1 or level 2. Then all
-- its due rows move on.
pub track_without_redis :
    (c : Calendar) (e : Env) (user pkg : ℕ) (game : GameType) (s t : State) (count : ℕ)
    (from : Level) (to : Option Level)
    → IsKeyed s.learning
    → e.set_link ≡ down
    → e.get_link ≡ down
    → e.del_link ≡ down
    → track_game_completion c e user game true pkg s ≡ (level_completed count from to, t)
    → ((from ≡ level_1) ⊎ (from ≡ level_2))
      × (count ≡ length (select (due_here c e.now pkg from) s.learning))
      × (t.learning ≡ map (promoted c e.now pkg from e.updated_at) s.learning)
unfolding track_game_completion
track_without_redis c e user pkg game s t count from to k p q r h =
    let fields = s.progress user pkg in
    let level = game_level game in
    let seen = record_game e fields (level, game) in
    let due = find_words_due_by_level c e.now pkg level s.learning in
    let alone =
      every_congr (seen.0 level) (λ g. same_game g game) (required level)
        (λ g. (record_game_down fields level game e g p q).0) in
    elim (Bool-cases (every (λ g. same_game g game) (required level))) [
      | inl all ↦ ground (
        arith,
        alone,
        single_game game all,
        complete_level_down c e user pkg game level (store s user pkg seen.1) t due count from to k
            refl r,
      )
      | inr more ↦ absurd (ground (arith, alone))
    ]

complete_level_error :
    (e : Env) (user pkg : ℕ) (game : GameType) (level : Level) (due : List Row)
    (fields : List Field) (s : State)
    → e.del_link ≡ up
    → e.update_ok ≡ false
    → every (λ f. has same_field f fields) (level_fields level (required level)) ≡ true
    → 0 < length due
    → let (outcome, t) = complete_level e user pkg game level due (store s user pkg fields) in
      (outcome ≡ db_error)
      × (t.learning ≡ s.learning)
      × (removed same_field (level_fields level (required level)) (t.progress user pkg) ≡ 0)
unfolding complete_level promote h_del claimed
complete_level_error e user pkg game level [] fields s r u all h = absurd (omega arith)
complete_level_error e user pkg game level (w ∷ due) fields s r u all h =
    let gone = level_fields level (required level) in
    ground (
      arith,
      ==_refl user,
      ==_refl pkg,
      removed-every same_field same_field_iff gone fields all,
      removed-without same_field same_field_iff gone fields,
      length-map {B = Field} (λ (g : GameType). (level, g)) (required level),
    )

-- The case that the comment on HDEL wants to avoid: when the update of the rows fails after HDEL,
-- the level's games are gone and no row is promoted.
pub update_error_loses_games :
    (c : Calendar) (e : Env) (user pkg : ℕ) (game : GameType) (s : State)
    → e.set_link ≡ up
    → e.get_link ≡ up
    → e.del_link ≡ up
    → e.find_ok ≡ true
    → e.update_ok ≡ false
    → every (played (s.progress user pkg) (game_level game) game) (required (game_level game))
      ≡ true
    → 0 < length (select (due_here c e.now pkg (game_level game)) s.learning)
    → let (outcome, t) = track_game_completion c e user game true pkg s in
      (outcome ≡ db_error)
      × (t.learning ≡ s.learning)
      × (removed same_field
            (level_fields (game_level game) (required (game_level game)))
            (t.progress user pkg)
          ≡ 0)
unfolding track_game_completion
update_error_loses_games c e user pkg game s p q r f u all due =
    let fields = s.progress user pkg in
    let level = game_level game in
    let seen = record_game e fields (level, game) in
    let after = put same_field (level, game) fields in
    let found = find_words_due_by_level c e.now pkg level s.learning in
    let same_every =
      every_congr (seen.0 level) (played fields level game) (required level)
        (λ g. (record_game_up fields level game e g p q).0) in
    let stored : seen.1 ≡ after = (record_game_up fields level game e game p q).1 in
    ground (
      arith,
      all,
      same_every,
      stored,
      ap length (find-eq-select c e.now pkg level s.learning),
      complete_level_error e user pkg game level found after s r u
          (fields-stored c e user pkg fields level game (required level) all),
    )
