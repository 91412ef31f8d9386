-- ===== src/Flashcards/State.antt =====
-- apps/web/src/components/learn/use-flashcard-session.ts and deck.ts: what a session keeps, how it
-- starts, and how the card is drawn again.
use sealvo.Base.{
  ℕ, ◌+◌, Bool, true, false, ◌&&◌, Option, none, List, [], ◌∷◌, String, select, length, get_elem?,
  replicate, if◌then◌else◌,
}
use sealvo.Levels.{Level}

pub record Word : Type 0 where
  pub detail_id : ℕ
  pub level : Level
  pub due_today : Bool
  -- The meaning, the example and the other columns.
  pub content : String

pub data VocabMode : Type 0 where
  today_words all_words : VocabMode

-- -1, 0 and 2
pub data CardProgress : Type 0 where
  unseen to_review known : CardProgress

pub data LearnMode : Type 0 where
  word_to_meaning meaning_to_word : LearnMode

-- The animation classes; `still` is the empty one.
pub data Animation : Type 0 where
  still slide_left slide_right wrong_answer correct_answer mode_change shuffle_animation
        reset_animation :
      Animation

-- What the card shows.
pub record Card : Type 0 where
  pub word : Option Word
  pub index : ℕ
  pub total : ℕ
  pub mode : LearnMode
  pub version : ℕ

-- A callback that waits: with what it has captured.
pub data Timer : Type 0 where
  draw_timer : (generation index : ℕ) → LearnMode → List Word → Timer
  settle_timer : (generation : ℕ) → Timer
  mode_timer : Timer
  prev_timer : (move : ℕ) → Timer
  next_timer : (move : ℕ) → Timer
  mark_timer : (move : ℕ) → Timer
  shuffle_timer : Timer
  reset_timer : (move : ℕ) → Timer

pub record FlashcardSession : Type 0 where
  pub words : List Word
  pub levels : Level → Bool
  pub vocab_mode : VocabMode
  pub mode : LearnMode
  pub deck : List Word
  pub progress : List CardProgress
  pub index : ℕ
  pub card : Card
  pub streak_recorded : Bool
  pub settling : Bool
  pub redraw_generation : ℕ
  pub move : ℕ
  pub flipped_version : Option ℕ
  pub updating : Bool
  pub card_animation : Animation
  pub container_animation : Animation
  pub progress_animation : Animation
  pub timers : List Timer
  -- The calls of onComplete, the last one first.
  pub completions : List (ℕ × ℕ)

unfoldable pub matches : (Level → Bool) → VocabMode → Word → Bool
matches ls today_words w = ls w.level && w.due_today
matches ls all_words w = ls w.level

unfoldable pub build_deck : List Word → (Level → Bool) → VocabMode → List Word
build_deck words ls vocab_mode = select (matches ls vocab_mode) words

unfoldable pub fresh_progress : ℕ → List CardProgress
fresh_progress n = replicate n unseen

abbrev pub initial_levels : Level → Bool
initial_levels l = true

-- What the page starts with: a deck and its progress, fresh or restored.
unfoldable pub start : List Word → List Word → List CardProgress → FlashcardSession
start words deck progress = record {
  words = words;
  levels = initial_levels;
  vocab_mode = today_words;
  mode = word_to_meaning;
  deck = deck;
  progress = progress;
  index = 0;
  card = record {
    word = get_elem? deck 0;
    index = 0;
    total = length deck;
    mode = word_to_meaning;
    version = 0;
  };
  streak_recorded = false;
  settling = false;
  redraw_generation = 0;
  move = 0;
  flipped_version = none;
  updating = false;
  card_animation = still;
  container_animation = still;
  progress_animation = still;
  timers = [];
  completions = [];
}

unfoldable pub begin_move : FlashcardSession → FlashcardSession
begin_move s = record s { move = s.move + 1; card_animation = still }

abbrev pub schedule : Timer → FlashcardSession → FlashcardSession
schedule t s = record s { timers = t ∷ s.timers }

abbrev pub is_empty : List Word → Bool
is_empty [] = true
is_empty (w ∷ ws) = false

unfoldable pub redraw_card : FlashcardSession → FlashcardSession
redraw_card s =
    if is_empty s.deck
    then record s {
      card = record {
        word = none;
        index = 0;
        total = 0;
        mode = s.mode;
        version = s.card.version + 1;
      };
    }
    else record s {
      redraw_generation = s.redraw_generation + 1;
      settling = true;
      updating = true;
      timers = draw_timer (s.redraw_generation + 1) s.index s.mode s.deck ∷ s.timers;
    }
