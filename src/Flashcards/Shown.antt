-- ===== src/Flashcards/Shown.antt =====
-- A mark hits the card that is shown.
use sealvo.Base.{
  ℕ, ◌+◌, ◌≤◌, ◌<◌, ◌≡◌, refl, inl, inr, Bool, true, false, ◌||◌, Option, none, some, List, [], ◌∷◌,
  arith, map, All, length, get_elem?, Bool-cases,
}
use sealvo.Flashcards.State.{
  Word, Timer, FlashcardSession, draw_timer, settle_timer, mode_timer, prev_timer, next_timer,
  mark_timer, shuffle_timer, reset_timer, is_empty, redraw_card,
}

-- The keys of a deck, and the key of the card at a place.
abbrev pub ids : List Word → List ℕ
ids = map (λ (w : Word). w.detail_id)

abbrev pub id_of : Option Word → Option ℕ
id_of none = none
id_of (some w) = some w.detail_id

unfoldable pub id_at : List Word → ℕ → Option ℕ
id_at deck i = get_elem? (ids deck) i

abbrev pub is_shuffle : Timer → Bool
is_shuffle shuffle_timer = true
is_shuffle _ = false

-- A shuffle has changed the deck, and its redraw is still to come.
unfoldable pub shuffling : List Timer → Bool
shuffling [] = false
shuffling (t ∷ ts) = is_shuffle t || shuffling ts

-- No callback is of a redraw that is still to come.
abbrev pub Issued : ℕ → Timer → Type 0
Issued gen (draw_timer g i m deck) = g ≤ gen
Issued gen (settle_timer g) = g ≤ gen
Issued gen _ = Unit

-- What a callback of the last redraw will show, or has shown, is the card of the index.
abbrev pub Faithful : List ℕ → ℕ → Option Word → ℕ → Timer → Type 0
Faithful deck index word gen (draw_timer g i m shown) =
    g ≡ gen → get_elem? (ids shown) i ≡ get_elem? deck index
Faithful deck index word gen (settle_timer g) = g ≡ gen → id_of word ≡ get_elem? deck index
Faithful deck index word gen _ = Unit

-- The card shows the card of the index, unless it is being redrawn.
abbrev pub Display : List ℕ → ℕ → Option Word → Bool → ℕ → List Timer → Type 0
Display deck index word settling gen timers =
    0 < length deck
    → shuffling timers ≡ false
    → (settling ≡ false → id_of word ≡ get_elem? deck index)
      × All (Faithful deck index word gen) timers

pub record Sound (s : FlashcardSession) : Type 0 where
  pub issued : All (Issued s.redraw_generation) s.timers
  pub display : Display (ids s.deck) s.index s.card.word s.settling s.redraw_generation s.timers

Issued-later :
    (gen : ℕ) (timers : List Timer) → All (Issued gen) timers → All (Issued (gen + 1)) timers
Issued-later gen [] a = tt
Issued-later gen (t ∷ ts) a = (later t a.0, Issued-later gen ts a.1)
  where
    later : (t : Timer) → Issued gen t → Issued (gen + 1) t
    later (draw_timer g i m deck) a = omega arith
    later (settle_timer g) a = omega arith
    later mode_timer a = tt
    later (prev_timer m) a = tt
    later (next_timer m) a = tt
    later (mark_timer m) a = tt
    later shuffle_timer a = tt
    later (reset_timer m) a = tt

-- The callbacks of older redraws do nothing.
stale_Faithful :
    (deck : List ℕ) (index : ℕ) (word : Option Word) (gen : ℕ) (timers : List Timer)
    → All (Issued gen) timers
    → All (Faithful deck index word (gen + 1)) timers
stale_Faithful deck index word gen [] a = tt
stale_Faithful deck index word gen (t ∷ ts) a =
    (stale t a.0, stale_Faithful deck index word gen ts a.1)
  where
    stale : (t : Timer) → Issued gen t → Faithful deck index word (gen + 1) t
    stale (draw_timer g i m shown) a = λ e. absurd (omega arith)
    stale (settle_timer g) a = λ e. absurd (omega arith)
    stale mode_timer a = tt
    stale (prev_timer m) a = tt
    stale (next_timer m) a = tt
    stale (mark_timer m) a = tt
    stale shuffle_timer a = tt
    stale (reset_timer m) a = tt

no_cards : (deck : List Word) → is_empty deck ≡ true → 0 < length (ids deck) → ⊥
no_cards [] e h = omega arith
no_cards (w ∷ ws) e h = absurd (ground arith)

-- After a redraw everything older is stale.
pub redraw_card-Sound :
    (s : FlashcardSession) → All (Issued s.redraw_generation) s.timers → Sound (redraw_card s)
unfolding redraw_card
redraw_card-Sound s a = elim (Bool-cases (is_empty s.deck)) [
  | inl empty ↦
      rw (redraw_card, empty)
        (record { issued = a; display = λ some_card. absurd (no_cards s.deck empty some_card) })
  | inr cards ↦
      rw (redraw_card, cards)
        (record {
          issued = (omega arith, Issued-later s.redraw_generation s.timers a);
          display = λ some_card quiet. (
            λ off. absurd (ground arith),
            (
              λ e. refl,
              stale_Faithful (ids s.deck) s.index s.card.word s.redraw_generation s.timers a,
            ),
          );
        })
]
