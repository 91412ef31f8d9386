-- ===== src/Flashcards/Events.antt =====
-- apps/web/src/components/learn/use-flashcard-session.ts: the callbacks when their timers fire, new
-- words that arrive, and everything that can happen in a session.
use sealvo.Base.{
  ℕ, zero, suc, ◌+◌, ◌-◌, Bool, false, Option, none, some, List, [], ◌∷◌, map, find, length,
  get_elem?, ◌==◌, if◌then◌else◌,
}
use sealvo.Levels.{Level}
use sealvo.Flashcards.{
  advance, has_next, toggle_level, change_vocab_mode, change_mode, go_prev, go_next, mark_card,
  toggle_flip, shuffle_deck, reset, jump_to,
}
use sealvo.Flashcards.State.{
  Word, VocabMode, LearnMode, Timer, FlashcardSession, draw_timer, settle_timer, mode_timer,
  prev_timer, next_timer, mark_timer, shuffle_timer, reset_timer, still, slide_left, schedule,
  redraw_card, fresh_progress,
}

-- The map of the new words by their key; with two words of one key the last one counts, and a list
-- of words has each key once.
abbrev pub incoming : List Word → ℕ → Option Word
incoming words id = find (λ (w : Word). w.detail_id == id) words

abbrev pub or_old : Word → Option Word → Word
or_old old none = old
or_old old (some w) = w

abbrev pub refreshed_card : List Word → Option Word → Option Word
refreshed_card words none = none
refreshed_card words (some shown) = some (or_old shown (incoming words shown.detail_id))

-- New words with the ids of the deck: the cards take their content.
unfoldable pub refresh : List Word → FlashcardSession → FlashcardSession
refresh words s = record s {
  words = words;
  deck = map (λ (w : Word). or_old w (incoming words w.detail_id)) s.deck;
  card = record {
    word = refreshed_card words s.card.word;
    index = s.card.index;
    total = s.card.total;
    mode = s.card.mode;
    version = s.card.version;
  };
}

-- What a callback does.
unfoldable pub fire : Timer → FlashcardSession → FlashcardSession
fire (draw_timer g index mode deck) s =
    if g == s.redraw_generation
    then schedule (settle_timer g) (record s {
      card = record {
        word = get_elem? deck index;
        index = index;
        total = length deck;
        mode = mode;
        version = s.card.version + 1;
      };
    })
    else s
fire (settle_timer g) s =
    if g == s.redraw_generation then record s { settling = false; updating = false } else s
fire mode_timer s = redraw_card (record s { container_animation = still })
fire (prev_timer m) s =
    if m == s.move
    then record (redraw_card (record s { index = s.index - 1 })) { card_animation = still }
    else s
fire (next_timer m) s = if m == s.move then advance s else s
fire (mark_timer m) s =
    if m == s.move
    then (if has_next s
        then schedule (next_timer m) (record s { card_animation = slide_left })
        else record s { card_animation = still })
    else s
fire shuffle_timer s = redraw_card (record s { container_animation = still })
fire (reset_timer m) s =
    if m == s.move
    then redraw_card (record s {
      progress_animation = still;
      index = 0;
      progress = fresh_progress (length s.deck);
    })
    else s

unfoldable pub remove_at : ℕ → List Timer → List Timer
remove_at n [] = []
remove_at zero (t ∷ ts) = ts
remove_at (suc n) (t ∷ ts) = t ∷ remove_at n ts

-- The timer at this place fires, if there is one.
unfoldable pub fire_at : ℕ → FlashcardSession → FlashcardSession
fire_at n s = elim (get_elem? s.timers n) [
  | none ↦ s
  | some t ↦ fire t (record s { timers = remove_at n s.timers })
]

pub data Event : Type 0 where
  level_event : Level → Event
  vocab_event : VocabMode → Event
  mode_event : LearnMode → Event
  prev_event next_event flip_event reset_event : Event
  mark_event : (knows : Bool) → Event
  shuffle_event : (draw : ℕ → ℕ) → Event
  jump_event : (index : ℕ) → Event
  words_event : List Word → Event
  timer_event : (place : ℕ) → Event

unfoldable pub handle : Event → FlashcardSession → FlashcardSession
handle (level_event l) s = toggle_level l s
handle (vocab_event m) s = change_vocab_mode m s
handle (mode_event m) s = change_mode m s
handle prev_event s = go_prev s
handle next_event s = go_next s
handle flip_event s = toggle_flip s
handle reset_event s = reset s
handle (mark_event knows) s = mark_card knows s
handle (shuffle_event draw) s = shuffle_deck draw s
handle (jump_event i) s = jump_to i s
handle (words_event words) s = refresh words s
handle (timer_event n) s = fire_at n s

unfoldable pub play : List Event → FlashcardSession → FlashcardSession
play [] s = s
play (e ∷ es) s = play es (handle e s)
