-- ===== src/Flashcards/Completion.antt =====
-- How often a session reports that all cards are known.
use sealvo.Base.{
  ◌-◌, min, ℕ, ◌+◌, ◌≤◌, ◌≡◌, refl, ◌∙◌, inl, inr, Bool, true, false, ◌||◌, List, [], ◌∷◌, arith,
  length, get_elem?, set, ◌==◌, if◌then◌else◌, Bool-cases, Option-cases, All,
}
use sealvo.Flashcards.{
  advance, has_next, mark_card, report, level_of, go_prev, go_next, toggle_flip, change_mode,
  jump_to,
}
use sealvo.Flashcards.State.{
  FlashcardSession, Timer, draw_timer, settle_timer, mode_timer, prev_timer, next_timer, mark_timer,
  shuffle_timer, reset_timer, is_empty, begin_move, redraw_card,
}
use sealvo.Flashcards.Events.{
  refresh, fire, fire_at, remove_at, Event, handle, play, level_event, vocab_event, mode_event,
  prev_event, next_event, flip_event, reset_event, mark_event, shuffle_event, jump_event,
  words_event, timer_event,
}

-- The events that allow another report.
abbrev pub restarts : Event → Bool
restarts (level_event l) = true
restarts (vocab_event m) = true
restarts reset_event = true
restarts (shuffle_event draw) = true
restarts _ = false

abbrev pub NoRestart : List Event → Type 0
NoRestart = All (λ e. restarts e ≡ false)

-- The reports so far, and one more if there may be one.
unfoldable pub budget : FlashcardSession → ℕ
budget s = length s.completions + (if s.streak_recorded then 0 else 1)

redraw_card-budget : (s : FlashcardSession) → budget (redraw_card s) ≡ budget s
unfolding redraw_card budget
redraw_card-budget s = elim (Bool-cases (is_empty s.deck)) [
  | inl empty ↦ rw (redraw_card, empty) refl
  | inr cards ↦ rw (redraw_card, cards) refl
]

report-budget : (s : FlashcardSession) → budget (report s) ≡ budget s
unfolding report budget
report-budget s = elim (Bool-cases s.streak_recorded) [
  | inl recorded ↦ ground arith
  | inr first ↦ ground arith
]

mark_card-budget : (knows : Bool) (s : FlashcardSession) → budget (mark_card knows s) ≡ budget s
unfolding mark_card begin_move budget
mark_card-budget knows s = elim (Bool-cases (s.settling || is_empty s.deck)) [
  | inl refused ↦ rw (mark_card, refused) refl
  | inr taken ↦
      rw (mark_card, taken)
        (report-budget
          (record (begin_move s) { progress = set s.progress s.index (level_of knows) }))
]

fire-budget : (t : Timer) (s : FlashcardSession) → budget (fire t s) ≡ budget s
unfolding fire budget advance
fire-budget (draw_timer g i m deck) s = elim (Bool-cases (g == s.redraw_generation)) [
  | inl last ↦ rw (fire, last) refl
  | inr older ↦ rw (fire, older) refl
]
fire-budget (settle_timer g) s = elim (Bool-cases (g == s.redraw_generation)) [
  | inl last ↦ rw (fire, last) refl
  | inr older ↦ rw (fire, older) refl
]
fire-budget mode_timer s = redraw_card-budget _
fire-budget (prev_timer m) s = elim (Bool-cases (m == s.move)) [
  | inl last ↦ rw (fire, last) (redraw_card-budget (record s { index = s.index - 1 }))
  | inr older ↦ rw (fire, older) refl
]
fire-budget (next_timer m) s = elim (Bool-cases (m == s.move)) [
  | inl last ↦
      rw (fire, last)
        (redraw_card-budget (record s { index = min (length s.deck - 1) (s.index + 1) }))
  | inr older ↦ rw (fire, older) refl
]
fire-budget (mark_timer m) s = elim (Bool-cases (m == s.move)) [
  | inl last ↦ elim (Bool-cases (has_next s)) [
    | inl more ↦ rw (fire, last, more) refl
    | inr end ↦ rw (fire, last, end) refl
  ]
  | inr older ↦ rw (fire, older) refl
]
fire-budget shuffle_timer s = redraw_card-budget _
fire-budget (reset_timer m) s = elim (Bool-cases (m == s.move)) [
  | inl last ↦ rw (fire, last) (redraw_card-budget _)
  | inr older ↦ rw (fire, older) refl
]

handle-budget :
    (e : Event) (s : FlashcardSession) → restarts e ≡ false → budget (handle e s) ≡ budget s
unfolding handle change_mode begin_move go_prev go_next toggle_flip jump_to refresh fire_at budget
handle-budget (level_event l) s r = absurd (ground arith)
handle-budget (vocab_event m) s r = absurd (ground arith)
handle-budget (mode_event m) s r = refl
handle-budget prev_event s r = elim (Bool-cases (s.index == 0)) [
  | inl first ↦ rw (go_prev, first) refl
  | inr later ↦ rw (go_prev, later) refl
]
handle-budget next_event s r = elim (Bool-cases (has_next s)) [
  | inl more ↦ rw (go_next, more) refl
  | inr last ↦ rw (go_next, last) refl
]
handle-budget flip_event s r = elim (Bool-cases (is_empty s.deck)) [
  | inl empty ↦ rw (toggle_flip, empty) refl
  | inr cards ↦ rw (toggle_flip, cards) refl
]
handle-budget reset_event s r = absurd (ground arith)
handle-budget (mark_event knows) s r = mark_card-budget knows s
handle-budget (shuffle_event draw) s r = absurd (ground arith)
handle-budget (jump_event i) s r = redraw_card-budget _
handle-budget (words_event words) s r = refl
handle-budget (timer_event n) s r = elim (Option-cases (get_elem? s.timers n)) [
  | inl nothing ↦ rw (fire_at, nothing) refl
  | inr (t, here) ↦ rw (fire_at, here) (fire-budget t (record s { timers = remove_at n s.timers }))
]

play-budget :
    (es : List Event) (s : FlashcardSession) → NoRestart es → budget (play es s) ≡ budget s
unfolding play
play-budget [] s r = refl
play-budget (e ∷ es) s r = play-budget es (handle e s) r.1 ∙ handle-budget e s r.0

-- Over any events but a change of levels or of vocabulary mode, a shuffle or a reset, a session
-- reports at most once that all cards are known, and not at all if it has reported before.
pub completes_once :
    (es : List Event) (s : FlashcardSession)
    → NoRestart es
    → length (play es s).completions ≤ length s.completions + (if s.streak_recorded then 0 else 1)
unfolding budget
completes_once es s r = omega (arith, play-budget es s r)
