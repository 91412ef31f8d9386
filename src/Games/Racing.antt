-- ===== src/Games/Racing.antt =====
-- Concurrent saves of scores: whatever the order of their statements, no save is lost.
use sealvo.Base.{
  ℕ, zero, suc, ◌≡◌, refl, Option, none, some, List, [], ◌∷◌, arith, if◌then◌else◌, length,
  get_elem?, max, Option-cases, inl, inr,
}
use sealvo.Games.Scores.{Score, create_score, raise, raise_row}

-- The row, the scores whose request waits for its second statement, and the scores saved.
pub record Table : Type 0 where
  pub row : Option Score
  pub waiting : List ℕ
  pub saved : List ℕ

abbrev pub remove_at : ℕ → List ℕ → List ℕ
remove_at i [] = []
remove_at zero (x ∷ xs) = xs
remove_at (suc i) (x ∷ xs) = x ∷ remove_at i xs

unfoldable pub first_statement : ℕ → ℕ → Table → Table
unfolding create_score
first_statement now score t =
    let (created, after) = create_score now score t.row in
    if created
    then record t { row = after; saved = score ∷ t.saved }
    else record t { row = after; waiting = score ∷ t.waiting }

unfoldable pub second_statement : ℕ → ℕ → ℕ → Table → Table
unfolding raise_row
second_statement now i score t = elim (raise_row now score t.row) [
  | none ↦ t
  | some (raised, after) ↦ record {
    row = after;
    waiting = remove_at i t.waiting;
    saved = score ∷ t.saved;
  }
]

-- A statement of some request: the first of a new one, or the second of one that waits.
pub data Step : Table → Table → Type 0 where
  arrive : {t : Table} → (now score : ℕ) → Step t (first_statement now score t)
  finish :
      {t : Table}
      → (now i score : ℕ) → get_elem? t.waiting i ≡ some score
      → Step t (second_statement now i score t)

pub data Reach : Table → Table → Type 0 where
  stay : {t : Table} → Reach t t
  then_step : {s t u : Table} → Reach s t → Step t u → Reach s u

abbrev pub maximum : List ℕ → ℕ
maximum [] = 0
maximum (x ∷ xs) = max x (maximum xs)

-- The row holds the best of the scores saved and their number.
pub record Faithful (t : Table) : Type 0 where
  pub none_yet : t.row ≡ none → (t.saved ≡ []) × (t.waiting ≡ [])
  pub holds :
      (s : Score)
      → t.row ≡ some s
      → (s.best_score ≡ maximum t.saved) × (s.play_count ≡ length t.saved)

first-Faithful : (now score : ℕ) (t : Table) → Faithful t → Faithful (first_statement now score t)
unfolding first_statement create_score
first-Faithful now score t f = elim (Option-cases t.row) [
  | inl e ↦ record {
    none_yet = λ h. absurd (ground arith);
    holds = λ s h. ground (arith, f.none_yet e);
  }
  | inr (s, e) ↦ record {
    none_yet = λ h. absurd (ground arith);
    holds = λ s' h. ground (arith, f.holds s');
  }
]

second-Faithful :
    (now i score : ℕ) (t : Table) → Faithful t → Faithful (second_statement now i score t)
unfolding second_statement raise_row raise
second-Faithful now i score t f = elim (Option-cases t.row) [
  | inl e ↦ record {
    none_yet = λ h. ground (arith, f.none_yet e);
    holds = λ s h. absurd (ground arith);
  }
  | inr (s, e) ↦ record {
    none_yet = λ h. absurd (ground arith);
    holds = λ s' h. ground (arith, f.holds s e);
  }
]

Step-Faithful : {t u : Table} → Step t u → Faithful t → Faithful u
Step-Faithful {t} (arrive now score) f = first-Faithful now score t f
Step-Faithful {t} (finish now i score h) f = second-Faithful now i score t f

Reach-Faithful : {s t : Table} → Reach s t → Faithful s → Faithful t
Reach-Faithful stay f = f
Reach-Faithful (then_step r step) f = Step-Faithful step (Reach-Faithful r f)

abbrev pub no_scores : Table
no_scores = record { row = none; waiting = []; saved = [] }

-- However the statements of concurrent saves are ordered, the row holds the best of the scores
-- saved and how many there were.
pub races_keep_best :
    {t : Table} (s : Score)
    → Reach no_scores t
    → t.row ≡ some s
    → (s.best_score ≡ maximum t.saved) × (s.play_count ≡ length t.saved)
races_keep_best s r h =
    (Reach-Faithful r
        (record { none_yet = λ e. (refl, refl); holds = λ s e. absurd (ground arith) })).holds
      s h
