-- ===== src/WordSearch/Tests.antt =====
-- The word search at concrete words and random numbers.
use sealvo.Base.{ℕ, zero, suc, ◌+◌, ◌*◌, ◌%◌, ◌≡◌, ◌≢◌, refl, none, some, List, [], ◌∷◌, arith, All}
use sealvo.WordSearch.Cells.{Grid, Place, plus, stay, grid_size}
use sealvo.WordSearch.{Draw, find_word_in_grid, generate_grid, empty_grid, reads_along}
use sealvo.WordSearch.Hidden.{InRange}
use sealvo.WordSearch.Finding.{placed_words_found}
use sealvo.WordSearch.Placing.{Letters}

abbrev Word : Type 0
Word = ℕ

-- Word 0 is CAT, every other word is AT.
abbrev spell : Word → List ℕ
spell zero = b'C' ∷ b'A' ∷ b'T' ∷ []
spell (suc w) = b'A' ∷ b'T' ∷ []

abbrev draws : ℕ → ℕ → Draw
draws k a = record { dir_idx = k % 8; row = (k + a * 3) % 15; col = (k + a * 5) % 15 }

abbrev letters : ℕ → ℕ → ℕ
letters i j = (i + j) % 26

abbrev two_words : List Word
two_words = 0 ∷ 1 ∷ []

draws-InRange : (k a : ℕ) → InRange (draws k a)
draws-InRange k a = (omega arith, omega arith)

spell-Letters : (w : Word) → Letters (spell w)
spell-Letters zero = (omega arith, (omega arith, (omega arith, tt)))
spell-Letters (suc w) = (omega arith, (omega arith, tt))

placed_words_found_example :
    let (grid, placed) = generate_grid spell draws letters two_words in
    All (λ raw. find_word_in_grid grid_size grid (spell raw) ≢ none) placed
placed_words_found_example =
    placed_words_found spell draws letters two_words draws-InRange spell-Letters

-- AT downwards from the middle of a small grid.
abbrev small : Grid
small i j = elim j [ suc zero ↦ elim i [ zero ↦ b'A' | suc zero ↦ b'T' | _ ↦ b'X' ] | _ ↦ b'X' ]

abbrev at_cells : List (ℕ × ℕ)
at_cells = (0, 1) ∷ (1, 1) ∷ []

finds_at : find_word_in_grid 3 small (spell 1) ≡ some at_cells
unfolding find_word_in_grid sealvo.WordSearch.Cells.outside sealvo.WordSearch.Cells.cells_match
    sealvo.WordSearch.Cells.step
finds_at = refl

both_placed : (generate_grid spell draws letters two_words).1 ≡ two_words
unfolding generate_grid sealvo.WordSearch.placement sealvo.WordSearch.try_place
    sealvo.WordSearch.Cells.can_place sealvo.WordSearch.Cells.write_word
    sealvo.WordSearch.Cells.write sealvo.WordSearch.Cells.step
both_placed = refl
