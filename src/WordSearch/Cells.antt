-- ===== src/WordSearch/Cells.antt =====
-- Cells, directions, and the checks and writes along a direction.
use sealvo.Base.{
  ℕ, ◌+◌, ◌-◌, Bool, true, false, ◌&&◌, ◌||◌, List, [], ◌∷◌, ltb, leb, ◌==◌, if◌then◌else◌, length,
}

abbrev pub grid_size : ℕ
grid_size = 15

-- A component of a direction: 1, 0 or -1.
pub data Sign : Type 0 where
  plus stay minus : Sign

abbrev pub Direction : Type 0
Direction = Sign × Sign

abbrev pub directions : List Direction
directions =
    (stay, plus)
    ∷ (plus, stay)
    ∷ (plus, plus)
    ∷ (plus, minus)
    ∷ (stay, minus)
    ∷ (minus, stay)
    ∷ (minus, plus)
    ∷ (minus, minus)
    ∷ []

abbrev pub Grid : Type 0
Grid = ℕ → ℕ → ℕ

-- p + d * i
unfoldable pub step : Sign → ℕ → ℕ → ℕ
step plus p i = p + i
step stay p i = p
step minus p i = p - i

-- p + d * i < 0 || p + d * i >= size
unfoldable pub outside : ℕ → Sign → ℕ → ℕ → Bool
outside size plus p i = leb size (p + i)
outside size stay p i = leb size p
outside size minus p i = ltb p i || leb size (p - i)

pub record Place : Type 0 where
  pub row : ℕ
  pub col : ℕ
  pub dir : Direction

abbrev pub row_at : Place → ℕ → ℕ
row_at p i = step (p.dir).0 p.row i

abbrev pub col_at : Place → ℕ → ℕ
col_at p i = step (p.dir).1 p.col i

-- The cells from the i-th on are empty or hold the letter that will stand there.
unfoldable pub cells_free : Grid → Place → ℕ → List ℕ → Bool
cells_free grid p i [] = true
cells_free grid p i (c ∷ word) =
    let there = grid (row_at p i) (col_at p i) in
    (there == 0 || there == c) && cells_free grid p (i + 1) word

unfoldable pub can_place : Grid → List ℕ → Place → Bool
unfolding cells_free outside
can_place grid word p =
    if outside grid_size (p.dir).0 p.row (length word - 1)
    then false
    else if outside grid_size (p.dir).1 p.col (length word - 1)
    then false
    else cells_free grid p 0 word

unfoldable pub write : Grid → ℕ → ℕ → ℕ → Grid
write grid r c letter i j = if i == r && j == c then letter else grid i j

unfoldable pub write_word : Grid → Place → ℕ → List ℕ → Grid
write_word grid p i [] = grid
write_word grid p i (c ∷ word) = write_word (write grid (row_at p i) (col_at p i) c) p (i + 1) word

-- The letters of the word stand in the cells from the i-th on.
unfoldable pub cells_match : Grid → Place → ℕ → List ℕ → Bool
cells_match grid p i [] = true
cells_match grid p i (c ∷ word) =
    grid (row_at p i) (col_at p i) == c && cells_match grid p (i + 1) word
