-- ===== src/WordSearch/Placing.antt =====
-- A word that was placed stays readable, whatever is placed after it and however the rest of the
-- grid is filled.
use sealvo.Base.{
  ℕ, ◌+◌, ◌≤◌, ◌<◌, ◌≡◌, ◌≢◌, ◌⊎◌, refl, sym, ◌∙◌, inl, inr, Bool, true, false, ◌&&◌, List, [], ◌∷◌,
  arith, All, length, ◌==◌,
}
use sealvo.WordSearch.Cells.{
  Grid, Place, Direction, Sign, plus, stay, minus, grid_size, step, outside, cells_free, write,
  write_word, cells_match, row_at, col_at,
}

abbrev pub moves : Direction → Bool
moves (stay, stay) = false
moves (stay, plus) = true
moves (stay, minus) = true
moves (plus, s) = true
moves (minus, s) = true

-- The place starts in the grid, moves, and the cell of offset `d` is still inside.
pub record Fits (p : Place) (d : ℕ) : Type 0 where
  pub start_row : p.row < grid_size
  pub start_col : p.col < grid_size
  pub goes : moves p.dir ≡ true
  pub end_row : outside grid_size (p.dir).0 p.row d ≡ false
  pub end_col : outside grid_size (p.dir).1 p.col d ≡ false

step_apart :
    (s : Sign) (p d i j : ℕ)
    → s ≢ stay
    → outside grid_size s p d ≡ false
    → i < j
    → j ≤ d
    → step s p i ≢ step s p j
unfolding step outside
step_apart plus p d i j n o lt le = ground arith
step_apart stay p d i j n o lt le = absurd (n refl)
step_apart minus p d i j n o lt le = ground arith

moves_cases : (d : Direction) → moves d ≡ true → (d.0 ≢ stay) ⊎ (d.1 ≢ stay)
moves_cases (stay, stay) h = inr (λ e. cc)
moves_cases (stay, plus) h = inr (λ e. cc)
moves_cases (stay, minus) h = inr (λ e. cc)
moves_cases (plus, s) h = inl (λ e. cc)
moves_cases (minus, s) h = inl (λ e. cc)

-- Two cells of a word are not the same cell.
cells_apart :
    (p : Place) (d i j : ℕ)
    → Fits p d
    → i < j
    → j ≤ d
    → (row_at p i == row_at p j && col_at p i == col_at p j) ≡ false
cells_apart p d i j f lt le = elim (moves_cases p.dir f.goes) [
  | inl n ↦ ground (arith, step_apart (p.dir).0 p.row d i j n f.end_row lt le)
  | inr n ↦ ground (arith, step_apart (p.dir).1 p.col d i j n f.end_col lt le)
]

-- No letter is lost from one grid to the other.
abbrev pub Extends : Grid → Grid → Type 0
Extends g h = (i j : ℕ) → g i j ≢ 0 → h i j ≡ g i j

abbrev pub Letters : List ℕ → Type 0
Letters = All (λ c. 0 < c)

pub cells_match-Extends :
    (g h : Grid) (p : Place) (i : ℕ) (word : List ℕ)
    → Extends g h
    → Letters word
    → cells_match g p i word ≡ true
    → cells_match h p i word ≡ true
unfolding cells_match
cells_match-Extends g h p i [] x l m = refl
cells_match-Extends g h p i (c ∷ word) x l m =
    ground (arith, x (row_at p i) (col_at p i), cells_match-Extends g h p (i + 1) word x l.1)

free_after :
    (g : Grid) (p : Place) (d i j letter : ℕ) (word : List ℕ)
    → Fits p d
    → i < j
    → j + length word ≤ d + 1
    → cells_free g p j word ≡ true
    → cells_free (write g (row_at p i) (col_at p i) letter) p j word ≡ true
unfolding cells_free write
free_after g p d i j letter [] f lt le h = refl
free_after g p d i j letter (c ∷ word) f lt le h =
    ground (arith, cells_apart p d i j f lt, free_after g p d i (j + 1) letter word f)

write-Extends : (g : Grid) (a b c : ℕ) → (g a b ≡ 0) ⊎ (g a b ≡ c) → Extends g (write g a b c)
unfolding write
write-Extends g a b c e r k ne = ground (arith, e)

write_here : (g : Grid) (a b c : ℕ) → write g a b c a b ≡ c
unfolding write
write_here g a b c = ground arith

pub Extends-trans : {g h k : Grid} → Extends g h → Extends h k → Extends g k
Extends-trans {g} {h} {k} x y i j ne = y i j (λ e. ne (sym (x i j ne) ∙ e)) ∙ x i j ne

-- Writing a word over free cells loses no letter, and the word can then be read.
pub write_word_reads :
    (g : Grid) (p : Place) (d i : ℕ) (word : List ℕ)
    → Fits p d
    → i + length word ≤ d + 1
    → Letters word
    → cells_free g p i word ≡ true
    → Extends g (write_word g p i word) × (cells_match (write_word g p i word) p i word ≡ true)
unfolding write_word cells_free cells_match
write_word_reads g p d i [] f le l h = (λ r k ne. refl, refl)
write_word_reads g p d i (c ∷ word) f le l h =
    let a = row_at p i in
    let b = col_at p i in
    let g' = write g a b c in
    let free : (g a b ≡ 0) ⊎ (g a b ≡ c) = ground arith in
    let later : cells_free g p (i + 1) word ≡ true = ground arith in
    let kept = write-Extends g a b c free in
    let rest =
      write_word_reads g' p d (i + 1) word f (omega arith) l.1
        (free_after g p d i (i + 1) c word f (omega arith) (omega arith) later) in
    let here = write_here g a b c in
    let read : write_word g' p (i + 1) word a b ≡ c =
      rest.0 a b (λ e. absurd (omega (arith, e, here, l.0))) ∙ here in
    (Extends-trans {h = g'} kept rest.0, ground (arith, read, rest.1))
