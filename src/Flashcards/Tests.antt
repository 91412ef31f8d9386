-- ===== src/Flashcards/Tests.antt =====
-- Tests of the flash cards.
use sealvo.Base.{
  ℕ, ◌≤◌, ◌≡◌, ◌≢◌, refl, true, false, none, some, List, [], ◌∷◌, arith, length, get_elem?, set,
}
use sealvo.Levels.{level_0, level_x}
use sealvo.Games.{shuffle}
use sealvo.Flashcards.{mark_card, shuffle_deck, level_of}
use sealvo.Flashcards.State.{
  Word, CardProgress, FlashcardSession, unseen, to_review, known, start, fresh_progress, is_empty,
}
use sealvo.Flashcards.Events.{
  Event, play, mark_event, next_event, timer_event, jump_event, flip_event, words_event,
  reset_event,
}
use sealvo.Flashcards.Shown.{ids, id_of, shuffling}
use sealvo.Flashcards.Sizes.{Sized, AllOffered, play-Sized}
use sealvo.Flashcards.Marks.{mark_card_shown, shuffle_marks_other}
use sealvo.Flashcards.Completion.{completes_once}
use sealvo.Flashcards.Storage.{
  Storage, save_progress, load_progress, replace_flashcard_detail_id, Saved, Key, package_key,
  or_legacy, legacy_key, includes,
}
use sealvo.Flashcards.Restoring.{load-save_progress}

abbrev cat_word : Word
cat_word = record { detail_id = 1; level = level_0; due_today = true; content = "cat" }

abbrev dog_word : Word
dog_word = record { detail_id = 2; level = level_x; due_today = true; content = "dog" }

abbrev deck : List Word
deck = cat_word ∷ dog_word ∷ []

abbrev blank : List CardProgress
blank = unseen ∷ unseen ∷ []

abbrev fresh_session : FlashcardSession
fresh_session = start deck deck blank

-- The first card is marked, its callbacks bring the second one, which is drawn and settles.
abbrev to_second : List Event
to_second = mark_event true ∷ timer_event 0 ∷ timer_event 0 ∷ timer_event 0 ∷ timer_event 0 ∷ []

at_second : (play to_second fresh_session).card.word ≡ some dog_word
unfolding play sealvo.Flashcards.Events.handle sealvo.Flashcards.Events.fire_at mark_card start
    sealvo.Flashcards.Events.fire sealvo.Flashcards.report sealvo.Flashcards.State.begin_move
    sealvo.Flashcards.advance sealvo.Flashcards.State.redraw_card
at_second = refl

quiet_there : shuffling (play to_second fresh_session).timers ≡ false
unfolding play shuffling sealvo.Flashcards.Events.handle sealvo.Flashcards.Events.fire_at mark_card
    start sealvo.Flashcards.Events.fire sealvo.Flashcards.report sealvo.Flashcards.State.begin_move
    sealvo.Flashcards.advance sealvo.Flashcards.State.redraw_card sealvo.Flashcards.Events.remove_at
quiet_there = refl

settled_there : (play to_second fresh_session).settling ≡ false
unfolding play sealvo.Flashcards.Events.handle sealvo.Flashcards.Events.fire_at mark_card start
    sealvo.Flashcards.Events.fire sealvo.Flashcards.report sealvo.Flashcards.State.begin_move
    sealvo.Flashcards.advance sealvo.Flashcards.State.redraw_card
settled_there = refl

cards_there : is_empty (play to_second fresh_session).deck ≡ false
unfolding play sealvo.Flashcards.Events.handle sealvo.Flashcards.Events.fire_at mark_card start
    sealvo.Flashcards.Events.fire sealvo.Flashcards.report sealvo.Flashcards.State.begin_move
    sealvo.Flashcards.advance sealvo.Flashcards.State.redraw_card
cards_there = refl

mark_card_shown_example :
    let s = play to_second fresh_session in
    (id_of s.card.word ≡ get_elem? (ids s.deck) s.index)
    × ((mark_card false s).progress ≡ set s.progress s.index to_review)
mark_card_shown_example =
    mark_card_shown deck deck blank to_second false quiet_there settled_there cards_there

abbrev first_index : ℕ → ℕ
first_index i = 0

shuffle_marks_other_example :
    let s' = shuffle_deck first_index fresh_session in
    (s'.card.word ≡ some cat_word)
    × (get_elem? (ids s'.deck) s'.index ≢ some 1)
    × ((mark_card true s').progress ≡ set s'.progress 0 known)
unfolding start shuffle
shuffle_marks_other_example =
    shuffle_marks_other first_index true fresh_session cat_word refl refl refl (λ e. ground arith)

Sized-start : Sized fresh_session
unfolding start
Sized-start = record { each_card = refl; in_deck = omega arith }

offered : AllOffered (jump_event 1 ∷ next_event ∷ to_second) fresh_session
unfolding start
offered = ground arith

play-Sized_example : Sized (play (jump_event 1 ∷ next_event ∷ to_second) fresh_session)
play-Sized_example =
    play-Sized (jump_event 1 ∷ next_event ∷ to_second) fresh_session offered Sized-start

-- Both cards are learnt, then the last one is marked again.
abbrev learning : List Event
learning =
    mark_event true
    ∷ jump_event 1
    ∷ timer_event 0
    ∷ timer_event 0
    ∷ mark_event true
    ∷ mark_event true
    ∷ []

completes_once_example : length (play learning fresh_session).completions ≤ 1
unfolding start
completes_once_example =
    completes_once learning fresh_session (refl, (refl, (refl, (refl, (refl, (refl, tt))))))

abbrev no_storage : Storage
no_storage k = none

load-save_progress_example :
    (load_progress true 4
      (dog_word ∷ cat_word ∷ [])
      (save_progress true 4 deck (known ∷ unseen ∷ []) no_storage)).0
    ≡ some (deck, known ∷ unseen ∷ [])
load-save_progress_example =
    load-save_progress true 4 deck (dog_word ∷ cat_word ∷ []) (known ∷ unseen ∷ []) no_storage
      ((refl, (refl, tt)), refl)

restored :
    (load_progress true 4
      (dog_word ∷ cat_word ∷ [])
      (save_progress true 4 deck (known ∷ unseen ∷ []) no_storage)).0
    ≡ some (deck, known ∷ unseen ∷ [])
unfolding load_progress save_progress sealvo.Flashcards.Storage.same_words
    sealvo.Flashcards.Storage.in_order
restored = refl
