-- ===== src/Learning.antt =====
-- apps/api/src/learning/learning.service.ts: the completed games of a level, the promotion of the
-- level's due words, and the daily streak. The state is the Redis hash of each user and package,
-- and the rows of the tables `learning` and `users` that the service touches. The clock, the fate
-- of each Redis call and the failure of each database call are arguments.
-- A hash field `level:game` is the pair of the two: neither name holds a colon.
pub mod Rows
mod Tests
pub mod Streak
pub mod Faults
pub mod Promotion
pub mod Progress
use sealvo.Base.{
  ℕ, ◌+◌, ◌-◌, ◌≡◌, Bool, true, false, not, ◌&&◌, ◌||◌, Option, none, some, List, [], ◌∷◌, map, ltb,
  leb, ◌==◌, if◌then◌else◌, length, select, any, every,
}
use sealvo.Levels.{Level, GameType, same_level, same_game, game_level, level_games, next_level}
use sealvo.Levels.Laws.{required}
use sealvo.SpacedRepetition.{Calendar, start_of_today, is_due}
use sealvo.Cache.{Link, h_set, h_get_all, h_del}

pub record Row : Type 0 where
  pub package_id : ℕ
  pub detail_id : ℕ
  pub level : Level
  pub date_memorized : Option ℕ

abbrev pub Field : Type 0
Field = Level × GameType

abbrev pub same_field : Field → Field → Bool
same_field (l, g) (k, h) = same_level l k && same_game g h

pub record State : Type 0 where
  pub progress : ℕ → ℕ → List Field
  pub learning : List Row

-- What the surroundings do to one request.
pub record Env : Type 0 where
  pub set_link : Link
  pub get_link : Link
  pub del_link : Link
  pub find_ok : Bool
  pub update_ok : Bool
  pub now : ℕ
  pub updated_at : ℕ

abbrev pub Progress : Type 0
Progress = Level → GameType → Bool

-- progress[level] = { ...progress[level], [game]: true }
unfoldable pub mark : Field → Progress → Progress
mark f p l g = same_field (l, g) f || p l g

unfoldable pub to_progress : List Field → Progress
unfolding mark
to_progress [] l g = false
to_progress (f ∷ fields) l g = mark f (to_progress fields) l g

abbrev pub level_fields : Level → List GameType → List Field
level_fields l games = map (λ g. (l, g)) games

pub data Outcome : Type 0 where
  unchanged : Outcome
  nothing_due : GameType → Outcome
  level_completed : ℕ → Level → Option Level → Outcome
  tracked : GameType → List GameType → Outcome
  db_error : Outcome

abbrev pub store : State → ℕ → ℕ → List Field → State
store s user pkg fields = record s {
  progress = λ u p. if u == user && p == pkg then fields else s.progress u p;
}

-- Without Redis (none) the current game alone counts, with Redis only once it is stored.
unfoldable pub seen : Field → Bool → Option (List Field) → Progress
unfolding mark to_progress
seen f stored none = mark f (to_progress [])
seen f true (some fs) = mark f (to_progress fs)
seen f false (some fs) = to_progress fs

-- HSET, HGETALL, and the progress that the request goes on with.
unfoldable pub record_game : Env → List Field → Field → Progress × List Field
unfolding h_set h_get_all seen
record_game e fields f =
    let (stored, after) = h_set same_field e.set_link f fields in
    (seen f stored (h_get_all same_field e.get_link after), after)

unfoldable pub at_level : ℕ → Level → Row → Bool
at_level pkg level r = r.package_id == pkg && same_level r.level level

module _ (c : Calendar) where
  unfoldable pub find_words_due_by_level : ℕ → ℕ → Level → List Row → List Row
  unfolding at_level
  find_words_due_by_level now pkg level rows =
      select (λ r. is_due c level r.date_memorized (start_of_today c now))
        (select (at_level pkg level) rows)

-- An undefined level leaves the column as it is.
unfoldable pub promote_row : Option Level → ℕ → Row → Row
promote_row none date r = record r { date_memorized = some date }
promote_row (some l) date r = record r { level = l; date_memorized = some date }

unfoldable pub chosen : ℕ → Level → List ℕ → Row → Bool
unfolding at_level
chosen pkg level ids r = at_level pkg level r && any (λ i. i == r.detail_id) ids

unfoldable pub batch_update_level : ℕ → ℕ → List ℕ → Level → List Row → ℕ × List Row
unfolding chosen promote_row
batch_update_level date pkg ids level rows = (
  length (select (chosen pkg level ids) rows),
  map (λ r. if chosen pkg level ids r then promote_row (next_level level) date r else r) rows,
)

abbrev pub ids_of : List Row → List ℕ
ids_of = map (λ r. r.detail_id)

-- null: no Redis, nothing to race on
unfoldable pub claimed : Option ℕ → ℕ → Bool
claimed none n = true
claimed (some k) n = k == n

-- HDEL of the level's fields, and the promotion by the request that removed them all.
unfoldable pub promote : Env → ℕ → ℕ → Level → List ℕ → State → Outcome × State
unfolding h_del batch_update_level claimed
promote e user pkg level ids s =
    let (removed, fields) =
      h_del same_field e.del_link (level_fields level (required level)) (s.progress user pkg) in
    let s' = store s user pkg fields in
    let (count, rows) = batch_update_level e.updated_at pkg ids level s.learning in
    if claimed removed (length (required level))
    then (if e.update_ok
        then (level_completed count level (next_level level), record s' { learning = rows })
        else (db_error, s'))
    else (level_completed 0 level (next_level level), s')

unfoldable pub complete_level : Env → ℕ → ℕ → GameType → Level → List Row → State → Outcome × State
unfolding promote
complete_level e user pkg game level [] s = (nothing_due game, s)
complete_level e user pkg game level (r ∷ due) s = promote e user pkg level (ids_of (r ∷ due)) s

unfoldable pub track_game_completion :
    Calendar → Env → ℕ → GameType → Bool → ℕ → State → Outcome × State
unfolding record_game complete_level find_words_due_by_level
track_game_completion c e user game false pkg s = (unchanged, s)
track_game_completion c e user game true pkg s =
    let level = game_level game in
    let (progress, fields) = record_game e (s.progress user pkg) (level, game) in
    let s' = store s user pkg fields in
    let due = find_words_due_by_level c e.now pkg level s.learning in
    if every (progress level) (required level)
    then (if e.find_ok then complete_level e user pkg game level due s' else (db_error, s'))
    else (tracked game (select (λ g. not (progress level g)) (required level)), s')

unfoldable pub fields_or_none : Option (List Field) → List Field
fields_or_none none = []
fields_or_none (some fields) = fields

unfoldable pub get_level_progress : Link → ℕ → ℕ → State → Progress
unfolding h_get_all to_progress fields_or_none
get_level_progress link user pkg s =
    to_progress (fields_or_none (h_get_all same_field link (s.progress user pkg)))

unfoldable pub reset_level_progress : Link → ℕ → ℕ → Level → State → State
unfolding h_del
reset_level_progress link user pkg level s =
    store s user pkg
      (h_del same_field link (level_fields level (required level)) (s.progress user pkg)).1
