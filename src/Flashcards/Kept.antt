-- ===== src/Flashcards/Kept.antt =====
-- What each action keeps of the display.
use sealvo.Base.{
  ℕ, zero, suc, ◌+◌, ◌≡◌, refl, sym, ap, subst, ◌∙◌, inl, inr, Bool, true, false, not, ◌&&◌, ◌||◌,
  Option, none, some, List, [], ◌∷◌, arith, map, All, get_elem?, set, ◌==◌, every, Bool-cases,
  ==_iff,
}
use sealvo.Flashcards.{
  has_next, go_prev, go_next, mark_card, report, toggle_flip, is_known, level_of,
}
use sealvo.Flashcards.State.{
  Word, Timer, FlashcardSession, draw_timer, settle_timer, mode_timer, prev_timer, next_timer,
  mark_timer, shuffle_timer, reset_timer, is_empty, begin_move,
}
use sealvo.Flashcards.Events.{refresh, remove_at, incoming, or_old, refreshed_card}
use sealvo.Flashcards.Shown.{ids, id_of, Issued, Faithful, Display, Sound, shuffling, is_shuffle}

-- The callbacks of moves and modes do not draw.
abbrev pub draws : Timer → Bool
draws (draw_timer g i m deck) = true
draws (settle_timer g) = true
draws shuffle_timer = true
draws _ = false

scheduled-Issued : (gen : ℕ) (t : Timer) → draws t ≡ false → Issued gen t
scheduled-Issued gen (draw_timer g i m deck) e = absurd (ground arith)
scheduled-Issued gen (settle_timer g) e = absurd (ground arith)
scheduled-Issued gen mode_timer e = tt
scheduled-Issued gen (prev_timer m) e = tt
scheduled-Issued gen (next_timer m) e = tt
scheduled-Issued gen (mark_timer m) e = tt
scheduled-Issued gen shuffle_timer e = tt
scheduled-Issued gen (reset_timer m) e = tt

scheduled-Faithful :
    (deck : List ℕ) (index : ℕ) (word : Option Word) (gen : ℕ) (t : Timer)
    → draws t ≡ false
    → Faithful deck index word gen t × (is_shuffle t ≡ false)
scheduled-Faithful deck index word gen (draw_timer g i m shown) e = absurd (ground arith)
scheduled-Faithful deck index word gen (settle_timer g) e = absurd (ground arith)
scheduled-Faithful deck index word gen mode_timer e = (tt, refl)
scheduled-Faithful deck index word gen (prev_timer m) e = (tt, refl)
scheduled-Faithful deck index word gen (next_timer m) e = (tt, refl)
scheduled-Faithful deck index word gen (mark_timer m) e = (tt, refl)
scheduled-Faithful deck index word gen shuffle_timer e = absurd (ground arith)
scheduled-Faithful deck index word gen (reset_timer m) e = (tt, refl)

pub schedule-Display :
    (deck : List ℕ) (index : ℕ) (word : Option Word) (settling : Bool) (gen : ℕ) (t : Timer)
    (timers : List Timer)
    → draws t ≡ false
    → Display deck index word settling gen timers
    → Display deck index word settling gen (t ∷ timers)
unfolding shuffling
schedule-Display deck index word settling gen t timers e d cards quiet =
    let fits = scheduled-Faithful deck index word gen t e in
    let before = d cards (ground arith) in (before.0, (fits.0, before.1))

-- A callback that is taken out.
module _ (P : Timer → Type 0) where
  pub All-remove_at : (n : ℕ) (ts : List Timer) → All P ts → All P (remove_at n ts)
  unfolding remove_at
  All-remove_at n [] a = tt
  All-remove_at zero (t ∷ ts) a = a.1
  All-remove_at (suc n) (t ∷ ts) a = (a.0, All-remove_at n ts a.1)

  pub All-get_elem? :
      (n : ℕ) (ts : List Timer) (t : Timer) → All P ts → get_elem? ts n ≡ some t → P t
  All-get_elem? n [] t a e = absurd (ground arith)
  All-get_elem? zero (q ∷ ts) t a e = subst P (ground arith) a.0
  All-get_elem? (suc n) (q ∷ ts) t a e = All-get_elem? n ts t a.1 e

pub shuffling-remove_at :
    (n : ℕ) (ts : List Timer) (t : Timer)
    → get_elem? ts n ≡ some t
    → is_shuffle t ≡ false
    → shuffling (remove_at n ts) ≡ shuffling ts
unfolding shuffling remove_at
shuffling-remove_at n [] t e h = refl
shuffling-remove_at zero (q ∷ ts) t e h =
    let same : q ≡ t = ground arith in
    let no_shuffle : is_shuffle q ≡ false = subst (λ x. is_shuffle x ≡ false) (sym same) h in
    ground arith
shuffling-remove_at (suc n) (q ∷ ts) t e h = ground (arith, shuffling-remove_at n ts t)

-- The fields that the display is made of, and no new drawing callback.
same_Sound :
    (s : FlashcardSession) (t : Timer)
    → draws t ≡ false
    → Sound s
    → Sound (record s { timers = t ∷ s.timers })
same_Sound s t e v = record {
  issued = (scheduled-Issued s.redraw_generation t e, v.issued);
  display =
      schedule-Display (ids s.deck) s.index s.card.word s.settling s.redraw_generation t s.timers e
        v.display;
}

begin_move-Sound : (s : FlashcardSession) → Sound s → Sound (begin_move s)
unfolding begin_move
begin_move-Sound s v = record { issued = v.issued; display = v.display }

report-Sound : (s : FlashcardSession) → Sound s → Sound (report s)
unfolding report
report-Sound s v = elim (Bool-cases (not s.streak_recorded && every is_known s.progress)) [
  | inl first ↦ rw (report, first) (record { issued = v.issued; display = v.display })
  | inr again ↦ rw (report, again) v
]

-- What a mark leaves before its callback is scheduled.
abbrev pub marked : Bool → FlashcardSession → FlashcardSession
marked knows s =
    report (record (begin_move s) { progress = set s.progress s.index (level_of knows) })

marked-Sound : (knows : Bool) (s : FlashcardSession) → Sound s → Sound (marked knows s)
unfolding begin_move
marked-Sound knows s v =
    report-Sound (record (begin_move s) { progress = set s.progress s.index (level_of knows) })
      (record { issued = v.issued; display = v.display })

pub mark_card-Sound : (knows : Bool) (s : FlashcardSession) → Sound s → Sound (mark_card knows s)
unfolding mark_card begin_move
mark_card-Sound knows s v = elim (Bool-cases (s.settling || is_empty s.deck)) [
  | inl refused ↦ rw (mark_card, refused) v
  | inr taken ↦
      let w = marked-Sound knows s v in
      rw (mark_card, taken)
        (record {
          issued = (tt, w.issued);
          display =
              schedule-Display _ _ _ _ _ (mark_timer (s.move + 1)) (marked knows s).timers refl
                w.display;
        })
]

or_old-id :
    (words : List Word) (w : Word) → (or_old w (incoming words w.detail_id)).detail_id ≡ w.detail_id
or_old-id [] w = refl
or_old-id (v ∷ words) w = ground (arith, or_old-id words w, ==_iff v.detail_id w.detail_id)

refresh-ids :
    (words deck : List Word)
    → ids (map (λ (w : Word). or_old w (incoming words w.detail_id)) deck) ≡ ids deck
refresh-ids words [] = refl
refresh-ids words (w ∷ deck) = λ i. or_old-id words w i ∷ refresh-ids words deck i

refresh-card : (words : List Word) (o : Option Word) → id_of (refreshed_card words o) ≡ id_of o
refresh-card words none = refl
refresh-card words (some w) = ap some (or_old-id words w)

-- With the right card shown, whatever was shown before.
pub shown_Faithful :
    (deck : List ℕ) (index : ℕ) (word word' : Option Word) (gen : ℕ) (ts : List Timer)
    → (id_of word ≡ get_elem? deck index → id_of word' ≡ get_elem? deck index)
    → All (Faithful deck index word gen) ts
    → All (Faithful deck index word' gen) ts
shown_Faithful deck index word word' gen [] e a = tt
shown_Faithful deck index word word' gen (t ∷ ts) e a =
    (one t a.0, shown_Faithful deck index word word' gen ts e a.1)
  where
    one : (t : Timer) → Faithful deck index word gen t → Faithful deck index word' gen t
    one (draw_timer g i m shown) f = f
    one (settle_timer g) f = λ same. e (f same)
    one mode_timer f = tt
    one (prev_timer m) f = tt
    one (next_timer m) f = tt
    one (mark_timer m) f = tt
    one shuffle_timer f = tt
    one (reset_timer m) f = tt

pub refresh-Sound : (words : List Word) (s : FlashcardSession) → Sound s → Sound (refresh words s)
unfolding refresh
refresh-Sound words s v = record {
  issued = v.issued;
  display =
      subst
        (λ (deck : List ℕ).
          Display deck s.index (refreshed_card words s.card.word) s.settling s.redraw_generation
            s.timers)
        (sym (refresh-ids words s.deck))
        (λ cards quiet.
          let before = v.display cards quiet in
          (
            λ off. refresh-card words s.card.word ∙ before.0 off,
            shown_Faithful (ids s.deck) s.index s.card.word (refreshed_card words s.card.word)
                s.redraw_generation s.timers (λ e. refresh-card words s.card.word ∙ e) before.1,
          ));
}

pub go_prev-Sound : (s : FlashcardSession) → Sound s → Sound (go_prev s)
unfolding go_prev begin_move
go_prev-Sound s v = elim (Bool-cases (s.index == 0)) [
  | inl first ↦ rw (go_prev, first) v
  | inr later ↦
      rw (go_prev, later)
        (record {
          issued = (tt, v.issued);
          display = schedule-Display _ _ _ _ _ (prev_timer (s.move + 1)) s.timers refl v.display;
        })
]

pub go_next-Sound : (s : FlashcardSession) → Sound s → Sound (go_next s)
unfolding go_next begin_move
go_next-Sound s v = elim (Bool-cases (has_next s)) [
  | inr last ↦ rw (go_next, last) v
  | inl more ↦
      rw (go_next, more)
        (record {
          issued = (tt, v.issued);
          display = schedule-Display _ _ _ _ _ (next_timer (s.move + 1)) s.timers refl v.display;
        })
]

pub toggle_flip-Sound : (s : FlashcardSession) → Sound s → Sound (toggle_flip s)
unfolding toggle_flip
toggle_flip-Sound s v = elim (Bool-cases (is_empty s.deck)) [
  | inl empty ↦ rw (toggle_flip, empty) v
  | inr cards ↦ rw (toggle_flip, cards) (record { issued = v.issued; display = v.display })
]
