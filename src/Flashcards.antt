-- ===== src/Flashcards.antt =====
-- apps/web/src/components/learn/use-flashcard-session.ts and deck.ts: a session of flash cards. The
-- callbacks that wait for a timer are data, and a timer fires at any time; what the shuffle draws is
-- a parameter. The state is what the refs hold, which the states of React follow.
pub mod Events
pub mod State
pub mod Shown
pub mod Kept
pub mod Played
pub mod Sizes
pub mod Marks
pub mod Completion
pub mod Storage
pub mod Restoring
mod Tests
use sealvo.Base.{
  ℕ, zero, suc, ◌+◌, ◌-◌, Bool, true, false, not, ◌&&◌, ◌||◌, Option, none, some, List, [], ◌∷◌,
  ◌++◌, String, map, select, any, every, find, length, get_elem?, set, replicate, min, max, ◌==◌,
  leb, ltb, if◌then◌else◌,
}
use sealvo.Levels.{Level, level_x, level_v, levels, same_level}
use sealvo.Games.{shuffle}
use State.{
  Word, VocabMode, CardProgress, LearnMode, FlashcardSession, build_deck, fresh_progress,
  begin_move, schedule, is_empty, redraw_card, correct_answer, known, mark_timer, mode_change,
  mode_timer, next_timer, prev_timer, reset_animation, reset_timer, shuffle_animation,
  shuffle_timer, slide_left, slide_right, still, to_review, unseen, wrong_answer,
}

unfoldable pub start_deck : List Word → FlashcardSession → FlashcardSession
start_deck next s =
    let s' = begin_move s in
    redraw_card (record s' {
      streak_recorded = false;
      deck = next;
      index = 0;
      progress = fresh_progress (length next);
    })

-- `v` has no checkbox: it goes with the first toggle.
abbrev pub without_v : (Level → Bool) → Level → Bool
without_v ls l = ls l && not (same_level l level_v)

abbrev pub flipped : Level → (Level → Bool) → Level → Bool
flipped level ls l = if same_level l level then not (without_v ls l) else without_v ls l

-- An empty set becomes `x`.
unfoldable pub toggled : Level → (Level → Bool) → Level → Bool
toggled level ls l =
    if any (flipped level ls) levels then flipped level ls l else same_level l level_x

unfoldable pub toggle_level : Level → FlashcardSession → FlashcardSession
toggle_level level s =
    let next = toggled level s.levels in
    start_deck (build_deck s.words next s.vocab_mode) (record s { levels = next })

unfoldable pub change_vocab_mode : VocabMode → FlashcardSession → FlashcardSession
change_vocab_mode next s =
    start_deck (build_deck s.words s.levels next) (record s { vocab_mode = next })

unfoldable pub change_mode : LearnMode → FlashcardSession → FlashcardSession
change_mode next s =
    schedule mode_timer (record (begin_move s) { mode = next; container_animation = mode_change })

unfoldable pub go_prev : FlashcardSession → FlashcardSession
go_prev s =
    if s.index == 0
    then s
    else schedule (prev_timer (s.move + 1)) (record (begin_move s) { card_animation = slide_right })

-- It runs only with cards in the deck: a move that empties the deck makes older moves stale.
unfoldable pub advance : FlashcardSession → FlashcardSession
advance s = record (redraw_card (record s { index = min (length s.deck - 1) (s.index + 1) })) {
  card_animation = still;
}

-- The index is below the last one.
abbrev pub has_next : FlashcardSession → Bool
has_next s = ltb (s.index + 1) (length s.deck)

unfoldable pub go_next : FlashcardSession → FlashcardSession
go_next s =
    if has_next s
    then schedule (next_timer (s.move + 1)) (record (begin_move s) { card_animation = slide_left })
    else s

abbrev pub is_known : CardProgress → Bool
is_known unseen = false
is_known to_review = false
is_known known = true

-- onComplete, the first time that all cards are known.
unfoldable pub report : FlashcardSession → FlashcardSession
report s =
    if not s.streak_recorded && every is_known s.progress
    then record s {
      streak_recorded = true;
      completions = (length (select is_known s.progress), length s.deck) ∷ s.completions;
    }
    else s

abbrev pub level_of : Bool → CardProgress
level_of true = known
level_of false = to_review

unfoldable pub mark_card : Bool → FlashcardSession → FlashcardSession
mark_card knows s =
    if s.settling || is_empty s.deck
    then s
    else (let s' = begin_move s in
        let s'' = report (record s' { progress = set s'.progress s'.index (level_of knows) }) in
        schedule (mark_timer (s.move + 1))
          (record s'' { card_animation = if knows then correct_answer else wrong_answer }))

abbrev pub flip_of : Option ℕ → ℕ → Option ℕ
flip_of none version = some version
flip_of (some f) version = if f == version then none else some version

unfoldable pub toggle_flip : FlashcardSession → FlashcardSession
toggle_flip s =
    if is_empty s.deck
    then s
    else record s { flipped_version = flip_of s.flipped_version s.card.version }

-- `draw i` is the random index of step i.
unfoldable pub shuffle_deck : (ℕ → ℕ) → FlashcardSession → FlashcardSession
shuffle_deck draw s =
    let s' = begin_move s in
    let mixed = shuffle draw s.deck in
    schedule shuffle_timer (record s' {
      streak_recorded = false;
      deck = mixed;
      index = 0;
      progress = fresh_progress (length mixed);
      container_animation = shuffle_animation;
    })

unfoldable pub reset : FlashcardSession → FlashcardSession
reset s =
    schedule (reset_timer (s.move + 1))
      (record (begin_move s) { streak_recorded = false; progress_animation = reset_animation })

unfoldable pub jump_to : ℕ → FlashcardSession → FlashcardSession
jump_to i s = redraw_card (record (begin_move s) { index = i })
