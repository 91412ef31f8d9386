-- ===== src/WordSearch.antt =====
-- apps/web/src/components/games/word-search/grid.ts: the grid of the word search. A cell holds a
-- letter's code, 0 for the empty text. The normalisation of a word (Unicode decomposition) and the
-- random numbers are parameters.
pub mod Cells
pub mod Finding
pub mod Hidden
pub mod Placing
mod Tests
use Cells.{
  cells_match, Grid, Place, Direction, directions, grid_size, can_place, write_word, outside,
  row_at, col_at,
}
use sealvo.Base.{
  ℕ, zero, suc, ◌+◌, ◌-◌, Bool, true, false, not, ◌&&◌, ◌||◌, Option, none, some, List, [], ◌∷◌,
  ltb, leb, ◌==◌, if◌then◌else◌, length, get_elem?,
}

abbrev pub empty_grid : Grid
empty_grid i j = 0

-- DIRECTIONS[dirIdx], the row and the column of one attempt.
pub record Draw : Type 0 where
  pub dir_idx : ℕ
  pub row : ℕ
  pub col : ℕ

-- An index outside the table would throw; the random index is inside.
unfoldable pub place_of : Draw → Option Place
place_of d = elim (get_elem? directions d.dir_idx) [
  | none ↦ none
  | some dir ↦ some (record { row = d.row; col = d.col; dir = dir })
]

-- The attempts that are left for one word; the place taken, if any.
unfoldable pub try_place : (ℕ → Draw) → Grid → List ℕ → ℕ → ℕ → Option Place
unfolding place_of
try_place draw grid word zero attempt = none
try_place draw grid word (suc left) attempt =
    let again = try_place draw grid word left (attempt + 1) in
    elim (place_of (draw attempt)) [
      | none ↦ again
      | some p ↦ if can_place grid word p then some p else again
    ]

abbrev pub max_attempts : ℕ
max_attempts = 100

module _ {W : Type 0} (normalize : W → List ℕ) where
  unfoldable pub placement : (ℕ → Draw) → Grid → W → Option Place
  placement draw grid raw =
      let word = normalize raw in
      if leb (length word) 1 || ltb grid_size (length word)
      then none
      else try_place draw grid word max_attempts 0

  -- The loop over the words, the k-th with the draws of k.
  unfoldable pub place_words : (ℕ → ℕ → Draw) → ℕ → Grid → List W → Grid × List W
  place_words draw k grid [] = (grid, [])
  place_words draw k grid (raw ∷ rest) = elim (placement (draw k) grid raw) [
    | none ↦ place_words draw (k + 1) grid rest
    | some p ↦
        let (final, placed) = place_words draw (k + 1) (write_word grid p 0 (normalize raw)) rest in
        (final, raw ∷ placed)
  ]

  -- Every empty cell gets a letter.
  unfoldable pub fill : (ℕ → ℕ → ℕ) → Grid → Grid
  fill letter grid i j = if grid i j == 0 then b'A' + letter i j else grid i j

  unfoldable pub generate_grid : (ℕ → ℕ → Draw) → (ℕ → ℕ → ℕ) → List W → Grid × List W
  unfolding place_words fill
  generate_grid draw letter words =
      let (grid, placed) = place_words draw 0 empty_grid words in (fill letter grid, placed)

-- A loop `for (i = from; ...)` of `left` rounds that returns at the first result.
unfoldable pub first_some : {A : Type 0} → (ℕ → Option A) → ℕ → ℕ → Option A
first_some f zero i = none
first_some f (suc left) i =
    let rest = first_some f left (i + 1) in elim (f i) [ none ↦ rest | some a ↦ some a ]

-- The cells from the i-th on.
unfoldable pub cells_from : Place → ℕ → List ℕ → List (ℕ × ℕ)
cells_from p i [] = []
cells_from p i (c ∷ word) = (row_at p i, col_at p i) ∷ cells_from p (i + 1) word

-- Both ends inside, and every letter in its cell.
unfoldable pub reads_along : ℕ → Grid → List ℕ → Place → Bool
reads_along size grid word p =
    not (outside size (p.dir).0 p.row (length word - 1))
    && not (outside size (p.dir).1 p.col (length word - 1))
    && cells_match grid p 0 word

unfoldable pub scan_directions : ℕ → Grid → List ℕ → ℕ → ℕ → List Direction → Option (List (ℕ × ℕ))
scan_directions size grid word r c [] = none
scan_directions size grid word r c (dir ∷ dirs) =
    let rest = scan_directions size grid word r c dirs in
    let p : Place = record { row = r; col = c; dir = dir } in
    if reads_along size grid word p then some (cells_from p 0 word) else rest

unfoldable pub find_word_in_grid : ℕ → Grid → List ℕ → Option (List (ℕ × ℕ))
unfolding first_some scan_directions reads_along cells_from
find_word_in_grid size grid word =
    first_some (λ r. first_some (λ c. scan_directions size grid word r c directions) size 0) size 0
