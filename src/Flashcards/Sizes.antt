-- ===== src/Flashcards/Sizes.antt =====
-- The progress has an entry for each card, and the index is a place of the deck.
use sealvo.Base.{
  ◌+◌, ◌-◌, ◌≤◌, ◌<◌, ◌≡◌, refl, sym, ap, ◌∙◌, inl, inr, Bool, not, ◌&&◌, ◌||◌, List, [], ◌∷◌,
  arith, length, get_elem?, set, min, ◌==◌, Bool-cases, Option-cases, every, length-set,
  length-replicate, length-map,
}
use sealvo.Flashcards.{
  start_deck, advance, has_next, toggle_level, change_vocab_mode, change_mode, go_prev, go_next,
  mark_card, report, toggle_flip, shuffle_deck, reset, jump_to, is_known, level_of,
}
use sealvo.Flashcards.State.{
  Word, FlashcardSession, Timer, draw_timer, settle_timer, mode_timer, prev_timer, next_timer,
  mark_timer, shuffle_timer, reset_timer, is_empty, begin_move, redraw_card, fresh_progress,
}
use sealvo.Flashcards.Events.{
  incoming, or_old, refresh, fire, fire_at, remove_at, Event, handle, play, level_event,
  vocab_event, mode_event, prev_event, next_event, flip_event, reset_event, mark_event,
  shuffle_event, jump_event, words_event, timer_event,
}

-- The index of an empty deck is 0.
pub record Sized (s : FlashcardSession) : Type 0 where
  pub each_card : length s.progress ≡ length s.deck
  pub in_deck : s.index ≤ length s.deck - 1

redraw_card-Sized : (s : FlashcardSession) → Sized s → Sized (redraw_card s)
unfolding redraw_card
redraw_card-Sized s v = elim (Bool-cases (is_empty s.deck)) [
  | inl empty ↦ rw (redraw_card, empty) (record { each_card = v.each_card; in_deck = v.in_deck })
  | inr cards ↦ rw (redraw_card, cards) (record { each_card = v.each_card; in_deck = v.in_deck })
]

-- A deck that starts afresh.
fresh_Sized :
    (s : FlashcardSession) → s.progress ≡ fresh_progress (length s.deck) → s.index ≡ 0 → Sized s
unfolding fresh_progress
fresh_Sized s p i = record {
  each_card = ap length p ∙ length-replicate (length s.deck) _;
  in_deck = omega arith;
}

report-Sized : (s : FlashcardSession) → Sized s → Sized (report s)
unfolding report
report-Sized s v = elim (Bool-cases (not s.streak_recorded && every is_known s.progress)) [
  | inl first ↦ rw (report, first) (record { each_card = v.each_card; in_deck = v.in_deck })
  | inr again ↦ rw (report, again) v
]

mark_card-Sized : (knows : Bool) (s : FlashcardSession) → Sized s → Sized (mark_card knows s)
unfolding mark_card begin_move
mark_card-Sized knows s v = elim (Bool-cases (s.settling || is_empty s.deck)) [
  | inl refused ↦ rw (mark_card, refused) v
  | inr taken ↦
      let w =
        report-Sized (record (begin_move s) { progress = set s.progress s.index (level_of knows) })
          (record {
            each_card = length-set s.progress s.index (level_of knows) ∙ v.each_card;
            in_deck = v.in_deck;
          }) in
      rw (mark_card, taken) (record { each_card = w.each_card; in_deck = w.in_deck })
]

advance-Sized : (s : FlashcardSession) → Sized s → Sized (advance s)
unfolding advance
advance-Sized s v =
    let w =
      redraw_card-Sized (record s { index = min (length s.deck - 1) (s.index + 1) })
        (record { each_card = v.each_card; in_deck = omega arith }) in
    record { each_card = w.each_card; in_deck = w.in_deck }

fire-Sized : (t : Timer) (s : FlashcardSession) → Sized s → Sized (fire t s)
unfolding fire
fire-Sized (draw_timer g i m deck) s v = elim (Bool-cases (g == s.redraw_generation)) [
  | inl last ↦ rw (fire, last) (record { each_card = v.each_card; in_deck = v.in_deck })
  | inr older ↦ rw (fire, older) v
]
fire-Sized (settle_timer g) s v = elim (Bool-cases (g == s.redraw_generation)) [
  | inl last ↦ rw (fire, last) (record { each_card = v.each_card; in_deck = v.in_deck })
  | inr older ↦ rw (fire, older) v
]
fire-Sized mode_timer s v =
    redraw_card-Sized _ (record { each_card = v.each_card; in_deck = v.in_deck })
fire-Sized (prev_timer m) s v = elim (Bool-cases (m == s.move)) [
  | inl last ↦
      let w =
        redraw_card-Sized (record s { index = s.index - 1 })
          (record { each_card = v.each_card; in_deck = omega (arith, v.in_deck) }) in
      rw (fire, last) (record { each_card = w.each_card; in_deck = w.in_deck })
  | inr older ↦ rw (fire, older) v
]
fire-Sized (next_timer m) s v = elim (Bool-cases (m == s.move)) [
  | inl last ↦ rw (fire, last) (advance-Sized s v)
  | inr older ↦ rw (fire, older) v
]
fire-Sized (mark_timer m) s v = elim (Bool-cases (m == s.move)) [
  | inl last ↦ elim (Bool-cases (has_next s)) [
    | inl more ↦ rw (fire, last, more) (record { each_card = v.each_card; in_deck = v.in_deck })
    | inr end ↦ rw (fire, last, end) (record { each_card = v.each_card; in_deck = v.in_deck })
  ]
  | inr older ↦ rw (fire, older) v
]
fire-Sized shuffle_timer s v =
    redraw_card-Sized _ (record { each_card = v.each_card; in_deck = v.in_deck })
fire-Sized (reset_timer m) s v = elim (Bool-cases (m == s.move)) [
  | inl last ↦ rw (fire, last) (redraw_card-Sized _ (fresh_Sized _ refl refl))
  | inr older ↦ rw (fire, older) v
]

-- The list of the remaining words offers a jump to the places of the deck only.
abbrev pub Offered : Event → FlashcardSession → Type 0
Offered (jump_event i) s = i < length s.deck
Offered _ s = Unit

abbrev pub AllOffered : List Event → FlashcardSession → Type 0
AllOffered [] s = Unit
AllOffered (e ∷ es) s = Offered e s × AllOffered es (handle e s)

handle-Sized : (e : Event) (s : FlashcardSession) → Offered e s → Sized s → Sized (handle e s)
unfolding handle toggle_level change_vocab_mode start_deck begin_move change_mode shuffle_deck reset
    jump_to go_prev go_next toggle_flip refresh fire_at
handle-Sized (level_event l) s o v = redraw_card-Sized _ (fresh_Sized _ refl refl)
handle-Sized (vocab_event m) s o v = redraw_card-Sized _ (fresh_Sized _ refl refl)
handle-Sized (mode_event m) s o v = record { each_card = v.each_card; in_deck = v.in_deck }
handle-Sized prev_event s o v = elim (Bool-cases (s.index == 0)) [
  | inl first ↦ rw (go_prev, first) v
  | inr later ↦ rw (go_prev, later) (record { each_card = v.each_card; in_deck = v.in_deck })
]
handle-Sized next_event s o v = elim (Bool-cases (has_next s)) [
  | inl more ↦ rw (go_next, more) (record { each_card = v.each_card; in_deck = v.in_deck })
  | inr last ↦ rw (go_next, last) v
]
handle-Sized flip_event s o v = elim (Bool-cases (is_empty s.deck)) [
  | inl empty ↦ rw (toggle_flip, empty) v
  | inr cards ↦ rw (toggle_flip, cards) (record { each_card = v.each_card; in_deck = v.in_deck })
]
handle-Sized reset_event s o v = record { each_card = v.each_card; in_deck = v.in_deck }
handle-Sized (mark_event knows) s o v = mark_card-Sized knows s v
handle-Sized (shuffle_event draw) s o v = fresh_Sized _ refl refl
handle-Sized (jump_event i) s o v =
    redraw_card-Sized _ (record { each_card = v.each_card; in_deck = omega (arith, o) })
handle-Sized (words_event words) s o v = record {
  each_card = v.each_card ∙ sym (length-map _ s.deck);
  in_deck =
      omega
        (arith, v.in_deck, length-map (λ (w : Word). or_old w (incoming words w.detail_id)) s.deck);
}
handle-Sized (timer_event n) s o v = elim (Option-cases (get_elem? s.timers n)) [
  | inl nothing ↦ rw (fire_at, nothing) v
  | inr (t, here) ↦
      rw (fire_at, here)
        (fire-Sized t (record s { timers = remove_at n s.timers })
          (record { each_card = v.each_card; in_deck = v.in_deck }))
]

-- Events of any order keep one progress entry for each card of the deck and the index inside the
-- deck (0 when it is empty), if a jump goes to a card of the deck.
pub play-Sized :
    (es : List Event) (s : FlashcardSession) → AllOffered es s → Sized s → Sized (play es s)
unfolding play
play-Sized [] s o v = v
play-Sized (e ∷ es) s o v = play-Sized es (handle e s) o.1 (handle-Sized e s o.0 v)
