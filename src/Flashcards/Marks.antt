-- ===== src/Flashcards/Marks.antt =====
-- What a mark changes.
use sealvo.Base.{
  ℕ, ◌<◌, ◌≡◌, ◌≢◌, refl, inl, inr, Bool, false, not, ◌&&◌, ◌||◌, some, List, [], ◌∷◌, arith,
  length, get_elem?, set, Bool-cases, every,
}
use sealvo.Games.{shuffle}
use sealvo.Flashcards.{mark_card, report, shuffle_deck, is_known, level_of}
use sealvo.Flashcards.State.{Word, CardProgress, FlashcardSession, is_empty, begin_move, start}
use sealvo.Flashcards.Events.{Event, play}
use sealvo.Flashcards.Shown.{ids, id_of, shuffling, Sound}
use sealvo.Flashcards.Played.{play-Sound, id_of-get_elem?}

start-Sound :
    (words deck : List Word) (progress : List CardProgress) → Sound (start words deck progress)
unfolding start
start-Sound words deck progress = record {
  issued = tt;
  display = λ cards quiet. (λ off. id_of-get_elem? deck 0, tt);
}

report-progress : (s : FlashcardSession) → (report s).progress ≡ s.progress
unfolding report
report-progress s = elim (Bool-cases (not s.streak_recorded && every is_known s.progress)) [
  | inl first ↦ rw (report, first) refl
  | inr again ↦ rw (report, again) refl
]

mark_card-progress :
    (knows : Bool) (s : FlashcardSession)
    → s.settling ≡ false
    → is_empty s.deck ≡ false
    → (mark_card knows s).progress ≡ set s.progress s.index (level_of knows)
unfolding mark_card begin_move
mark_card-progress knows s still_card cards =
    let taken : (s.settling || is_empty s.deck) ≡ false = ground arith in
    rw (mark_card, taken)
      (report-progress
        (record (begin_move s) { progress = set s.progress s.index (level_of knows) }))

has_cards : (deck : List Word) → is_empty deck ≡ false → 0 < length (ids deck)
has_cards [] e = absurd (ground arith)
has_cards (w ∷ ws) e = omega arith

-- In a session that starts with any deck and has seen any events, with a deck that is not empty, no
-- redraw in progress and no redraw of a shuffle to come: the card that is shown is the card of the
-- index, and a mark changes the progress of that card only.
pub mark_card_shown :
    (words deck : List Word) (progress : List CardProgress) (es : List Event) (knows : Bool)
    → let s = play es (start words deck progress) in
      shuffling s.timers ≡ false
      → s.settling ≡ false
      → is_empty s.deck ≡ false
      → (id_of s.card.word ≡ get_elem? (ids s.deck) s.index)
        × ((mark_card knows s).progress ≡ set s.progress s.index (level_of knows))
mark_card_shown words deck progress es knows quiet still_card cards =
    let s = play es (start words deck progress) in
    let v = play-Sound es (start words deck progress) (start-Sound words deck progress) in
    (
      (v.display (has_cards s.deck cards) quiet).0 still_card,
      mark_card-progress knows s still_card cards,
    )

-- Between a shuffle and its redraw, when no redraw was in progress: the card that was shown is
-- still shown, and if the shuffled deck has another card first, a mark is written to that other
-- card.
pub shuffle_marks_other :
    (draw : ℕ → ℕ) (knows : Bool) (s : FlashcardSession) (shown : Word)
    → s.settling ≡ false
    → is_empty (shuffle draw s.deck) ≡ false
    → s.card.word ≡ some shown
    → get_elem? (ids (shuffle draw s.deck)) 0 ≢ some shown.detail_id
    → let s' = shuffle_deck draw s in
      (s'.card.word ≡ some shown)
      × (get_elem? (ids s'.deck) s'.index ≢ some shown.detail_id)
      × ((mark_card knows s').progress ≡ set s'.progress 0 (level_of knows))
unfolding shuffle_deck begin_move
shuffle_marks_other draw knows s shown still_card cards here other =
    (here, other, mark_card-progress knows (shuffle_deck draw s) still_card cards)
