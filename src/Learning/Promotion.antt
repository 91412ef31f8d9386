-- ===== src/Learning/Promotion.antt =====
-- `trackGameCompletion`: what a promotion rests on, and what it changes.
use sealvo.Base.{
  ℕ, ◌<◌, ◌≡◌, ◌⊎◌, refl, ap, sym, ◌∙◌, inl, inr, true, not, Option, List, [], ◌∷◌, map, arith, ltb,
  if◌then◌else◌, length, select, every, Bool-cases, every_mono, every_congr, select_congr, ==_refl,
  length-map,
}
use sealvo.Levels.{Level, GameType, game_level, next_level}
use mathlib.Core.Path.{fun_ext}
use sealvo.Levels.Laws.{required, same_level_refl}
use sealvo.Cache.Hash.{has-put, removed-every}
use sealvo.SpacedRepetition.{Calendar}
use sealvo.Cache.{up, has, put, without, h_del}
use sealvo.Learning.{
  State, Env, Row, Field, same_field, Outcome, nothing_due, level_completed, tracked, record_game,
  find_words_due_by_level, batch_update_level, ids_of, promote, claimed, complete_level,
  track_game_completion, store, level_fields,
}
use sealvo.Learning.Rows.{IsKeyed, due_here, promoted, find-eq-select, batch_update-due}
use sealvo.Learning.Progress.{same_field_iff, played, record_game_sound, record_game_up}

-- All the due rows of the level were promoted, or none was.
abbrev pub Promoted : Calendar → Env → ℕ → Level → State → State → ℕ → Type 0
Promoted c e pkg level s t count =
    ((count ≡ length (select (due_here c e.now pkg level) s.learning))
      × (0 < count)
      × (t.learning ≡ map (promoted c e.now pkg level e.updated_at) s.learning))
    ⊎ ((count ≡ 0) × (t.learning ≡ s.learning))

module _ (c : Calendar) (e : Env) (user pkg : ℕ) where
  -- The due rows that were read, as the batch update writes them.
  pub update_read :
      (level : Level) (s : State) (due : List Row)
      → IsKeyed s.learning
      → due ≡ find_words_due_by_level c e.now pkg level s.learning
      → (batch_update_level e.updated_at pkg (ids_of due) level s.learning ≡ (
        length (select (due_here c e.now pkg level) s.learning),
        map (promoted c e.now pkg level e.updated_at) s.learning,
      ))
        × (length (select (due_here c e.now pkg level) s.learning) ≡ length due)
  update_read level s due k d = (
    rw d (batch_update-due c e.now pkg level e.updated_at s.learning k),
    ap length (sym (find-eq-select c e.now pkg level s.learning) ∙ sym d),
  )

  complete_level-Promoted :
      (game : GameType) (level : Level) (s t : State) (due : List Row) (count : ℕ) (from : Level)
      (to : Option Level)
      → IsKeyed s.learning
      → due ≡ find_words_due_by_level c e.now pkg level s.learning
      → complete_level e user pkg game level due s ≡ (level_completed count from to, t)
      → (from ≡ level) × (to ≡ next_level level) × Promoted c e pkg level s t count
  unfolding complete_level promote
  complete_level-Promoted game level s t [] count from to k d h = absurd (ground arith)
  complete_level-Promoted game level s t (r ∷ due) count from to k d h =
      ground (arith, update_read level s (r ∷ due) k d)

  -- Whatever becomes of the Redis and database calls: a level is reported as completed only if
  -- every game that it asks for is the game just completed or was stored for this user and
  -- package; then all due rows of the level move to the next level and no other row changes, or
  -- (another request promotes) no row changes and the count is 0.
  pub track-level_completed :
      (game : GameType) (s t : State) (count : ℕ) (from : Level) (to : Option Level)
      → IsKeyed s.learning
      → track_game_completion c e user game true pkg s ≡ (level_completed count from to, t)
      → (from ≡ game_level game)
        × (to ≡ next_level from)
        × (every (played (s.progress user pkg) from game) (required from) ≡ true)
        × Promoted c e pkg from s t count
  unfolding track_game_completion
  track-level_completed game s t count from to k h =
      let fields = s.progress user pkg in
      let level = game_level game in
      let seen = record_game e fields (level, game) in
      let s' = store s user pkg seen.1 in
      elim (Bool-cases (every (seen.0 level) (required level))) [
        | inl all ↦ ground (
          arith,
          every_mono (seen.0 level) (played fields level game) (required level)
              (record_game_sound fields level game e) all,
          complete_level-Promoted game level s' t
              (find_words_due_by_level c e.now pkg level s.learning) count from to k refl,
        )
        | inr some_missing ↦ absurd (ground arith)
      ]

  -- The second write of one hash stands.
  store-store :
      (s : State) (a b : List Field) → store (store s user pkg a) user pkg b ≡ store s user pkg b
  store-store s a b = λ i. record s {
    progress =
        fun_ext {f = (store (store s user pkg a) user pkg b).progress}
          {g = (store s user pkg b).progress} (λ u. fun_ext (λ p. ground arith)) i;
  }

  stored_here : (s : State) (a : List Field) → (store s user pkg a).progress user pkg ≡ a
  stored_here s a = ground (arith, ==_refl user, ==_refl pkg)

  -- Every game that the level asks for has its field once all are played and the last is stored.
  pub fields-stored :
      (fields : List Field) (level : Level) (game : GameType) (games : List GameType)
      → every (played fields level game) games ≡ true
      → every
          (λ f. has same_field f (put same_field (level, game) fields))
          (level_fields level games)
        ≡ true
  unfolding played
  fields-stored fields level game [] h = refl
  fields-stored fields level game (g ∷ games) h = ground (
    arith,
    has-put same_field same_field_iff (level, game) (level, g) fields,
    same_level_refl level,
    fields-stored fields level game games,
  )

  complete_level_up :
      (game : GameType) (level : Level) (s : State) (due : List Row) (fields : List Field)
      → IsKeyed s.learning
      → due ≡ find_words_due_by_level c e.now pkg level s.learning
      → e.del_link ≡ up
      → e.update_ok ≡ true
      → every (λ f. has same_field f fields) (level_fields level (required level)) ≡ true
      → complete_level e user pkg game level due (store s user pkg fields) ≡ (
          if ltb 0 (length (select (due_here c e.now pkg level) s.learning))
          then (
            level_completed
                (length (select (due_here c e.now pkg level) s.learning))
                level
                (next_level level),
            record s {
              progress =
                  (store s user pkg
                    (without same_field (level_fields level (required level)) fields)).progress;
              learning = map (promoted c e.now pkg level e.updated_at) s.learning;
            },
          )
          else (nothing_due game, store s user pkg fields))
  unfolding complete_level promote claimed h_del
  complete_level_up game level s [] fields k d r u h =
      ground (arith, (update_read level s [] k d).1)
  complete_level_up game level s (w ∷ due) fields k d r u h =
      let cleared = without same_field (level_fields level (required level)) fields in
      ground (
        arith,
        update_read level s (w ∷ due) k d,
        stored_here s fields,
        removed-every same_field same_field_iff (level_fields level (required level)) fields h,
        length-map {B = Field} (λ (g : GameType). (level, g)) (required level),
        ap (λ (x : State). x.progress) (store-store s fields cleared),
      )

  -- The specification of a completed game, on the set of the games stored.
  pub expected : GameType → State → Outcome × State
  expected game s =
      let level = game_level game in
      let fields = put same_field (level, game) (s.progress user pkg) in
      let due = length (select (due_here c e.now pkg level) s.learning) in
      if every (played (s.progress user pkg) level game) (required level)
      then (if ltb 0 due
          then (
            level_completed due level (next_level level),
            record s {
              progress =
                  (store s user pkg
                    (without same_field (level_fields level (required level)) fields)).progress;
              learning = map (promoted c e.now pkg level e.updated_at) s.learning;
            },
          )
          else (nothing_due game, store s user pkg fields))
      else (
        tracked game
            (select (λ g. not (played (s.progress user pkg) level game g)) (required level)),
        store s user pkg fields,
      )

  -- With Redis and the database up, the calls implement the specification on sets of games: the
  -- game is stored, and if every game of the level has been played and a word is due, all due
  -- words are promoted and the level's games are cleared; if none is due the games stay; and if a
  -- game is missing it is named.
  pub track_up :
      (game : GameType) (s : State)
      → IsKeyed s.learning
      → e.set_link ≡ up
      → e.get_link ≡ up
      → e.del_link ≡ up
      → e.find_ok ≡ true
      → e.update_ok ≡ true
      → track_game_completion c e user game true pkg s ≡ expected game s
  unfolding track_game_completion expected
  track_up game s k p q r f u =
      let fields = s.progress user pkg in
      let level = game_level game in
      let after = put same_field (level, game) fields in
      let seen = record_game e fields (level, game) in
      let due = find_words_due_by_level c e.now pkg level s.learning in
      let as_played = λ (g : GameType). (record_game_up fields level game e g p q).0 in
      let as_stored : seen.1 ≡ after = (record_game_up fields level game e game p q).1 in
      let same_every =
        every_congr (seen.0 level) (played fields level game) (required level) as_played in
      elim (Bool-cases (every (played fields level game) (required level))) [
        | inl all ↦ ground (
          arith,
          same_every,
          as_stored,
          complete_level_up game level s due after k refl r u
              (fields-stored fields level game (required level) all),
        )
        | inr some_missing ↦ ground (
          arith,
          same_every,
          as_stored,
          select_congr (λ g. not (seen.0 level g)) (λ g. not (played fields level game g))
              (required level) (λ g. ap not (as_played g)),
        )
      ]
