-- ===== src/WordSearch/Finding.antt =====
-- `findWordInGrid` finds a word exactly when it can be read, and so it finds every placed word.
use sealvo.Base.{
  ℕ, zero, suc, ◌+◌, ◌≤◌, ◌<◌, ◌≡◌, ◌≢◌, refl, subst, inl, inr, Bool, true, Option, none, some,
  List, [], ◌∷◌, map, arith, All, any, Bool-cases, Option-cases, ◌==◌,
}
use sealvo.WordSearch.Cells.{
  Grid, Place, Direction, plus, stay, minus, directions, grid_size, cells_match,
}
use sealvo.WordSearch.{
  Draw, first_some, cells_from, reads_along, scan_directions, find_word_in_grid, generate_grid,
}
use sealvo.WordSearch.Placing.{moves, Letters}
use sealvo.WordSearch.Hidden.{Hidden, InRange, generate_grid_hides}

first_some_finds :
    {A : Type 0} (f : ℕ → Option A) (left from i : ℕ)
    → f i ≢ none
    → from ≤ i
    → i < from + left
    → first_some f left from ≢ none
unfolding first_some
first_some_finds f zero from i n le lt e = absurd (omega arith)
first_some_finds f (suc left) from i n le lt e = elim (Option-cases (f from)) [
  | inl missing ↦ elim (Bool-cases (from == i)) [
    | inl same ↦ ground arith
    | inr other ↦ first_some_finds f left (from + 1) i n (ground arith) (omega arith) (ground arith)
  ]
  | inr (a, there) ↦ ground arith
]

first_some_sound :
    {A : Type 0} (f : ℕ → Option A) (left from : ℕ) (a : A)
    → first_some f left from ≡ some a
    → (i : ℕ) × (i < from + left) × (f i ≡ some a)
unfolding first_some
first_some_sound f zero from a h = absurd (ground arith)
first_some_sound f (suc left) from a h = elim (Option-cases (f from)) [
  | inl missing ↦
      let (i, lt, e) = first_some_sound f left (from + 1) a (ground arith) in (i, omega arith, e)
  | inr (b, there) ↦ (from, omega arith, ground arith)
]

-- The cells spell the word.
cells_spell :
    (g : Grid) (p : Place) (i : ℕ) (word : List ℕ)
    → cells_match g p i word ≡ true
    → map (λ cell. g cell.0 cell.1) (cells_from p i word) ≡ word
unfolding cells_match cells_from
cells_spell g p i [] h = refl
cells_spell g p i (c ∷ word) h = ground (arith, cells_spell g p (i + 1) word)

module _ (size : ℕ) (g : Grid) (word : List ℕ) where
  reads_along-match : (p : Place) → reads_along size g word p ≡ true → cells_match g p 0 word ≡ true
  unfolding reads_along
  reads_along-match p h = ground arith

  scan_finds :
      (r c : ℕ) (dirs : List Direction)
      → any (λ dir. reads_along size g word (record { row = r; col = c; dir = dir })) dirs ≡ true
      → scan_directions size g word r c dirs ≢ none
  unfolding scan_directions
  scan_finds r c [] h e = absurd (ground arith)
  scan_finds r c (dir ∷ dirs) h e =
      let p : Place = record { row = r; col = c; dir = dir } in
      elim (Bool-cases (reads_along size g word p)) [
        | inl here ↦ ground arith
        | inr away ↦ scan_finds r c dirs (ground arith) (ground arith)
      ]

  scan_sound :
      (r c : ℕ) (dirs : List Direction) (cells : List (ℕ × ℕ))
      → scan_directions size g word r c dirs ≡ some cells
      → map (λ cell. g cell.0 cell.1) cells ≡ word
  unfolding scan_directions
  scan_sound r c [] cells h = absurd (ground arith)
  scan_sound r c (dir ∷ dirs) cells h =
      let p : Place = record { row = r; col = c; dir = dir } in
      elim (Bool-cases (reads_along size g word p)) [
        | inl here ↦
            let found : cells_from p 0 word ≡ cells = ground arith in
            subst (λ cs. map (λ (cell : ℕ × ℕ). g cell.0 cell.1) cs ≡ word) found
              (cells_spell g p 0 word (reads_along-match p here))
        | inr away ↦ scan_sound r c dirs cells (ground arith)
      ]

  any_direction :
      (test : Direction → Bool) (dir : Direction)
      → moves dir ≡ true
      → test dir ≡ true
      → any test directions ≡ true
  any_direction test (stay, stay) m h = absurd (ground arith)
  any_direction test (stay, plus) m h = ground arith
  any_direction test (stay, minus) m h = ground arith
  any_direction test (plus, stay) m h = ground arith
  any_direction test (plus, plus) m h = ground arith
  any_direction test (plus, minus) m h = ground arith
  any_direction test (minus, stay) m h = ground arith
  any_direction test (minus, plus) m h = ground arith
  any_direction test (minus, minus) m h = ground arith

  -- A search that finds cells has found the word: their letters, in order, are the word's.
  pub find_word_in_grid_sound :
      (cells : List (ℕ × ℕ))
      → find_word_in_grid size g word ≡ some cells
      → map (λ cell. g cell.0 cell.1) cells ≡ word
  unfolding find_word_in_grid
  find_word_in_grid_sound cells h =
      let row = λ (r : ℕ) (c : ℕ). scan_directions size g word r c directions in
      let (r, _, e) = first_some_sound (λ r. first_some (row r) size 0) size 0 cells h in
      let (c, _, e') = first_some_sound (row r) size 0 cells e in scan_sound r c directions cells e'

  -- A word that can be read along a direction, from a cell to a cell of the grid, is found.
  pub find_word_in_grid_complete :
      (p : Place)
      → p.row < size
      → p.col < size
      → moves p.dir ≡ true
      → reads_along size g word p ≡ true
      → find_word_in_grid size g word ≢ none
  unfolding find_word_in_grid
  find_word_in_grid_complete p r c m h =
      let row = λ (i : ℕ) (j : ℕ). scan_directions size g word i j directions in
      first_some_finds (λ i. first_some (row i) size 0) size 0 p.row
        (first_some_finds (row p.row) size 0 p.col
          (scan_finds p.row p.col directions (
            any_direction
              (λ dir. reads_along size g word (record { row = p.row; col = p.col; dir = dir }))
              p.dir m h))
          (omega arith) (omega arith))
        (omega arith) (omega arith)

module _ {W : Type 0} (normalize : W → List ℕ) where
  Hidden-found :
      (g : Grid) (raw : W)
      → Hidden normalize g raw
      → find_word_in_grid grid_size g (normalize raw) ≢ none
  unfolding reads_along
  Hidden-found g raw h =
      find_word_in_grid_complete grid_size g (normalize raw) h.place h.inside.start_row
        h.inside.start_col h.inside.goes
        (ground (arith, h.inside.end_row, h.inside.end_col, h.reads))

  All-found :
      (g : Grid) (placed : List W)
      → All (Hidden normalize g) placed
      → All (λ raw. find_word_in_grid grid_size g (normalize raw) ≢ none) placed
  All-found g [] h = tt
  All-found g (raw ∷ rest) h = (Hidden-found g raw h.0, All-found g rest h.1)

  -- The search finds every word that the generator reports as placed, whatever the random numbers.
  pub placed_words_found :
      (draw : ℕ → ℕ → Draw) (letter : ℕ → ℕ → ℕ) (words : List W)
      → ((k a : ℕ) → InRange (draw k a))
      → ((raw : W) → Letters (normalize raw))
      → let (grid, placed) = generate_grid normalize draw letter words in
        All (λ raw. find_word_in_grid grid_size grid (normalize raw) ≢ none) placed
  placed_words_found draw letter words r l =
      let result = generate_grid normalize draw letter words in
      All-found result.0 result.1 (generate_grid_hides normalize draw letter words r l).0
