-- ===== src/Flashcards/Played.antt =====
-- Every event keeps that the card shows the card of the index.
use sealvo.Base.{
  ℕ, zero, suc, ◌+◌, ◌≡◌, refl, ◌∙◌, inl, inr, false, List, [], ◌∷◌, arith, All, get_elem?, ◌==◌,
  Bool-cases, Option-cases, ==_iff,
}
use sealvo.Flashcards.{
  start_deck, advance, has_next, toggle_level, change_vocab_mode, change_mode, shuffle_deck, reset,
  jump_to,
}
use sealvo.Flashcards.State.{
  Animation, still, Word, Timer, FlashcardSession, draw_timer, settle_timer, mode_timer, prev_timer,
  next_timer, mark_timer, shuffle_timer, reset_timer, begin_move,
}
use sealvo.Flashcards.Events.{
  fire, fire_at, remove_at, Event, handle, play, level_event, vocab_event, mode_event, prev_event,
  next_event, flip_event, reset_event, mark_event, shuffle_event, jump_event, words_event,
  timer_event,
}
use sealvo.Flashcards.Shown.{
  ids, id_of, Issued, Faithful, Display, Sound, shuffling, is_shuffle, redraw_card-Sound,
}
use sealvo.Flashcards.Kept.{
  schedule-Display, shuffling-remove_at, mark_card-Sound, shown_Faithful, refresh-Sound,
  go_prev-Sound, go_next-Sound, toggle_flip-Sound, All-remove_at, All-get_elem?,
}

kept_Sound :
    (t : Timer) (s : FlashcardSession)
    → All (Issued s.redraw_generation) s.timers
    → Display (ids s.deck) s.index s.card.word s.settling s.redraw_generation (t ∷ s.timers)
    → is_shuffle t ≡ false
    → Sound s
unfolding shuffling
kept_Sound t s issued d plain = record {
  issued = issued;
  display = λ cards quiet. let before = d cards (ground arith) in (before.0, before.1.1);
}

animated_Sound :
    (a : Animation) (s : FlashcardSession) → Sound s → Sound (record s { card_animation = a })
animated_Sound a s v = record { issued = v.issued; display = v.display }

advance-Sound :
    (s : FlashcardSession) → All (Issued s.redraw_generation) s.timers → Sound (advance s)
unfolding advance
advance-Sound s issued = animated_Sound still _ (redraw_card-Sound _ issued)

pub id_of-get_elem? : (deck : List Word) (i : ℕ) → id_of (get_elem? deck i) ≡ get_elem? (ids deck) i
id_of-get_elem? [] i = refl
id_of-get_elem? (w ∷ deck) zero = refl
id_of-get_elem? (w ∷ deck) (suc i) = id_of-get_elem? deck i

-- A callback that is run: `s` has it no longer.
fire-Sound :
    (t : Timer) (s : FlashcardSession)
    → Issued s.redraw_generation t
    → All (Issued s.redraw_generation) s.timers
    → (is_shuffle t ≡ false
        → Display (ids s.deck) s.index s.card.word s.settling s.redraw_generation (t ∷ s.timers))
    → Sound (fire t s)
unfolding fire shuffling
fire-Sound (draw_timer g i m deck) s here issued d = elim (Bool-cases (g == s.redraw_generation)) [
  | inl last ↦
      rw (fire, last)
        (record {
          issued = (here, issued);
          display = λ cards quiet.
              let before = d refl cards quiet in
              let right =
                id_of-get_elem? deck i ∙ before.1.0 ((==_iff g s.redraw_generation).0 last) in
              (
                λ off. right,
                (
                  λ same. right,
                  shown_Faithful (ids s.deck) s.index s.card.word (get_elem? deck i)
                      s.redraw_generation s.timers (λ e. right) before.1.1,
                ),
              );
        })
  | inr older ↦
      rw (fire, older)
        (record {
          issued = issued;
          display = λ cards quiet. let before = d refl cards quiet in (before.0, before.1.1);
        })
]
fire-Sound (settle_timer g) s here issued d = elim (Bool-cases (g == s.redraw_generation)) [
  | inl last ↦
      rw (fire, last)
        (record {
          issued = issued;
          display = λ cards quiet.
              let before = d refl cards quiet in
              (λ off. before.1.0 ((==_iff g s.redraw_generation).0 last), before.1.1);
        })
  | inr older ↦
      rw (fire, older)
        (record {
          issued = issued;
          display = λ cards quiet. let before = d refl cards quiet in (before.0, before.1.1);
        })
]
fire-Sound mode_timer s here issued d = redraw_card-Sound _ issued
fire-Sound (prev_timer m) s here issued d = elim (Bool-cases (m == s.move)) [
  | inl last ↦ rw (fire, last) (animated_Sound still _ (redraw_card-Sound _ issued))
  | inr older ↦ rw (fire, older) (kept_Sound (prev_timer m) s issued (d refl) refl)
]
fire-Sound (next_timer m) s here issued d = elim (Bool-cases (m == s.move)) [
  | inl last ↦ rw (fire, last) (advance-Sound s issued)
  | inr older ↦ rw (fire, older) (kept_Sound (next_timer m) s issued (d refl) refl)
]
fire-Sound (mark_timer m) s here issued d = elim (Bool-cases (m == s.move)) [
  | inl last ↦ elim (Bool-cases (has_next s)) [
    | inl more ↦
        let v = kept_Sound (mark_timer m) s issued (d refl) refl in
        rw (fire, last, more)
          (record {
            issued = (tt, v.issued);
            display = schedule-Display _ _ _ _ _ (next_timer m) s.timers refl v.display;
          })
    | inr end ↦
        rw (fire, last, end)
          (animated_Sound still s (kept_Sound (mark_timer m) s issued (d refl) refl))
  ]
  | inr older ↦ rw (fire, older) (kept_Sound (mark_timer m) s issued (d refl) refl)
]
fire-Sound shuffle_timer s here issued d = redraw_card-Sound _ issued
fire-Sound (reset_timer m) s here issued d = elim (Bool-cases (m == s.move)) [
  | inl last ↦ rw (fire, last) (redraw_card-Sound _ issued)
  | inr older ↦ rw (fire, older) (kept_Sound (reset_timer m) s issued (d refl) refl)
]

fire_at-Sound : (n : ℕ) (s : FlashcardSession) → Sound s → Sound (fire_at n s)
unfolding fire_at shuffling
fire_at-Sound n s v = elim (Option-cases (get_elem? s.timers n)) [
  | inl nothing ↦ rw (fire_at, nothing) v
  | inr (t, here) ↦
      rw (fire_at, here)
        (fire-Sound t (record s { timers = remove_at n s.timers })
          (All-get_elem? (Issued s.redraw_generation) n s.timers t v.issued here)
          (All-remove_at (Issued s.redraw_generation) n s.timers v.issued)
          (λ plain cards quiet.
            let before =
              v.display cards (ground (arith, shuffling-remove_at n s.timers t here plain)) in
            (
              before.0,
              (
                All-get_elem? (Faithful (ids s.deck) s.index s.card.word s.redraw_generation) n
                    s.timers t before.1 here,
                All-remove_at (Faithful (ids s.deck) s.index s.card.word s.redraw_generation) n
                    s.timers before.1,
              ),
            )))
]

pub handle-Sound : (e : Event) (s : FlashcardSession) → Sound s → Sound (handle e s)
unfolding handle toggle_level change_vocab_mode start_deck begin_move change_mode shuffle_deck reset
    jump_to shuffling
handle-Sound (level_event l) s v = redraw_card-Sound _ v.issued
handle-Sound (vocab_event m) s v = redraw_card-Sound _ v.issued
handle-Sound (mode_event m) s v = record {
  issued = (tt, v.issued);
  display = schedule-Display _ _ _ _ _ mode_timer s.timers refl v.display;
}
handle-Sound prev_event s v = go_prev-Sound s v
handle-Sound next_event s v = go_next-Sound s v
handle-Sound flip_event s v = toggle_flip-Sound s v
handle-Sound reset_event s v = record {
  issued = (tt, v.issued);
  display = schedule-Display _ _ _ _ _ (reset_timer (s.move + 1)) s.timers refl v.display;
}
handle-Sound (mark_event knows) s v = mark_card-Sound knows s v
handle-Sound (shuffle_event draw) s v = record {
  issued = (tt, v.issued);
  display = λ cards quiet. absurd (ground arith);
}
handle-Sound (jump_event i) s v = redraw_card-Sound _ v.issued
handle-Sound (words_event words) s v = refresh-Sound words s v
handle-Sound (timer_event n) s v = fire_at-Sound n s v

pub play-Sound : (es : List Event) (s : FlashcardSession) → Sound s → Sound (play es s)
unfolding play
play-Sound [] s v = v
play-Sound (e ∷ es) s v = play-Sound es (handle e s) (handle-Sound e s v)
