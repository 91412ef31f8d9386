-- ===== src/Learning/Rows.antt =====
-- The rows that a promotion writes: `learning` has one row for each package and detail.
use sealvo.Base.{
  ℕ, ◌≡◌, ◌≢◌, refl, inl, inr, Bool, true, false, ◌&&◌, List, [], ◌∷◌, map, arith, ◌==◌,
  if◌then◌else◌, length, select, any, All, Bool-cases,
}
use sealvo.Levels.{Level, next_level}
use sealvo.SpacedRepetition.{Calendar, start_of_today, is_due}
use sealvo.Learning.{
  Row, at_level, find_words_due_by_level, promote_row, chosen, batch_update_level, ids_of,
}

-- Two rows are of different packages or details.
abbrev pub Apart : Row → Row → Type 0
Apart r q = r.package_id ≡ q.package_id → r.detail_id ≢ q.detail_id

-- The table's primary key.
abbrev pub IsKeyed : List Row → Type 0
IsKeyed [] = Unit
IsKeyed (r ∷ rows) = All (Apart r) rows × IsKeyed rows

module _ (c : Calendar) (now pkg : ℕ) (level : Level) where
  -- The row is one that the game's round is about.
  unfoldable pub due_here : Row → Bool
  due_here r = at_level pkg level r && is_due c level r.date_memorized (start_of_today c now)

  pub find-eq-select :
      (rows : List Row) → find_words_due_by_level c now pkg level rows ≡ select due_here rows
  unfolding find_words_due_by_level due_here
  find-eq-select [] = refl
  find-eq-select (r ∷ rows) = ground (arith, find-eq-select rows)

  not_listed :
      (r : Row) (rows : List Row)
      → All (Apart r) rows
      → r.package_id ≡ pkg
      → any (λ i. i == r.detail_id) (ids_of (select due_here rows)) ≡ false
  unfolding due_here at_level
  not_listed r [] a e = refl
  not_listed r (q ∷ rows) a e = ground (arith, not_listed r rows a.1 e, a.0)

  -- What a promotion makes of a row, without reference to the ids.
  unfoldable pub promoted : ℕ → Row → Row
  promoted date r = if due_here r then promote_row (next_level level) date r else r

  abbrev updated : ℕ → List ℕ → Row → Row
  updated date ids r = if chosen pkg level ids r then promote_row (next_level level) date r else r

  extra_id :
      (date : ℕ) (ids : List ℕ) (r : Row) (rows : List Row)
      → All (Apart r) rows
      → r.package_id ≡ pkg
      → (map (updated date (r.detail_id ∷ ids)) rows ≡ map (updated date ids) rows)
        × (length (select (chosen pkg level (r.detail_id ∷ ids)) rows)
            ≡ length (select (chosen pkg level ids) rows))
  unfolding chosen at_level
  extra_id date ids r [] a e = (refl, refl)
  extra_id date ids r (q ∷ rows) a e = ground (arith, extra_id date ids r rows a.1 e, a.0)

  due-chosen :
      (ids : List ℕ) (r : Row) → due_here r ≡ true → chosen pkg level (r.detail_id ∷ ids) r ≡ true
  unfolding chosen due_here
  due-chosen ids r h = ground arith

  due-package : (r : Row) → due_here r ≡ true → r.package_id ≡ pkg
  unfolding due_here at_level
  due-package r h = ground arith

  not-chosen :
      (r : Row) (rows : List Row)
      → All (Apart r) rows
      → due_here r ≡ false
      → chosen pkg level (ids_of (select due_here rows)) r ≡ false
  unfolding chosen at_level
  not-chosen r rows a h = ground (arith, not_listed r rows a)

  updated_due :
      (date : ℕ) (rows : List Row)
      → IsKeyed rows
      → (map (updated date (ids_of (select due_here rows))) rows ≡ map (promoted date) rows)
        × (length (select (chosen pkg level (ids_of (select due_here rows))) rows)
            ≡ length (select due_here rows))
  unfolding promoted
  updated_due date [] k = (refl, refl)
  updated_due date (r ∷ rows) k = elim (Bool-cases (due_here r)) [
    | inl h ↦
        let ids = ids_of (select due_here rows) in
        let others = extra_id date ids r rows k.0 (due-package r h) in
        ground (arith, due-chosen ids r h, others, updated_due date rows k.1)
    | inr h ↦ ground (arith, not-chosen r rows k.0 h, updated_due date rows k.1)
  ]

  -- Updating the rows whose ids were read as due updates exactly the due rows.
  pub batch_update-due :
      (date : ℕ) (rows : List Row)
      → IsKeyed rows
      → batch_update_level date pkg
          (ids_of (find_words_due_by_level c now pkg level rows))
          level
          rows
        ≡ (length (select due_here rows), map (promoted date) rows)
  unfolding batch_update_level
  batch_update-due date rows k =
      rw (find-eq-select rows) (λ i. ((updated_due date rows k).1 i, (updated_due date rows k).0 i))
