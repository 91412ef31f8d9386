-- ===== src/WordSearch/Hidden.antt =====
-- `generateGrid`: every word it reports as placed is hidden in the grid it returns.
use sealvo.Base.{
  ℕ, zero, suc, ◌+◌, ◌-◌, ◌<◌, ◌≡◌, ◌≢◌, refl, inl, inr, Bool, true, ◌||◌, some, List, [], ◌∷◌,
  arith, All, every, get_elem?, length, Bool-cases, Option-cases, ltb, leb,
}
use sealvo.WordSearch.Cells.{
  Grid, Place, directions, grid_size, cells_free, can_place, write_word, cells_match,
}
use sealvo.WordSearch.{
  Draw, place_of, try_place, placement, max_attempts, place_words, fill, generate_grid, empty_grid,
}
use sealvo.WordSearch.Placing.{
  moves, Fits, Extends, Extends-trans, Letters, cells_match-Extends, write_word_reads,
}

-- Math.floor(Math.random() * GRID_SIZE) is below GRID_SIZE.
abbrev pub InRange : Draw → Type 0
InRange d = (d.row < grid_size) × (d.col < grid_size)

every-get_elem? :
    {A : Type 0} (p : A → Bool) (xs : List A) (i : ℕ) (x : A)
    → every p xs ≡ true
    → get_elem? xs i ≡ some x
    → p x ≡ true
every-get_elem? p [] i x e h = absurd (ground arith)
every-get_elem? p (y ∷ xs) zero x e h = ground arith
every-get_elem? p (y ∷ xs) (suc i) x e h = every-get_elem? p xs i x (ground arith) h

place_of_lem :
    (d : Draw) (p : Place)
    → place_of d ≡ some p
    → (p.row ≡ d.row) × (p.col ≡ d.col) × (moves p.dir ≡ true)
unfolding place_of
place_of_lem d p h = elim (Option-cases (get_elem? directions d.dir_idx)) [
  | inl e ↦ absurd (ground arith)
  | inr (dir, e) ↦ ground (arith, every-get_elem? moves directions d.dir_idx dir refl e)
]

try_place_sound :
    (draw : ℕ → Draw) (g : Grid) (word : List ℕ) (left attempt : ℕ) (p : Place)
    → ((a : ℕ) → InRange (draw a))
    → try_place draw g word left attempt ≡ some p
    → Fits p (length word - 1) × (cells_free g p 0 word ≡ true)
unfolding try_place can_place
try_place_sound draw g word zero attempt p r h = absurd (ground arith)
try_place_sound draw g word (suc left) attempt p r h =
    elim (Option-cases (place_of (draw attempt))) [
      | inl e ↦ try_place_sound draw g word left (attempt + 1) p r (ground arith)
      | inr (q, e) ↦ elim (Bool-cases (can_place g word q)) [
        | inl can ↦ ground (arith, place_of_lem (draw attempt) q e, r attempt)
        | inr cannot ↦ try_place_sound draw g word left (attempt + 1) p r (ground arith)
      ]
    ]

module _ {W : Type 0} (normalize : W → List ℕ) where
  -- The word can be read in the grid, at a place that lies inside it.
  pub record Hidden (g : Grid) (raw : W) : Type 0 where
    pub place : Place
    pub inside : Fits place (length (normalize raw) - 1)
    pub long_enough : 1 < length (normalize raw)
    pub reads : cells_match g place 0 (normalize raw) ≡ true

  Hidden-Extends :
      (letters : (raw : W) → Letters (normalize raw)) (g h : Grid) (raw : W)
      → Extends g h
      → Hidden g raw
      → Hidden h raw
  Hidden-Extends letters g h raw x v = record {
    place = v.place;
    inside = v.inside;
    long_enough = v.long_enough;
    reads = cells_match-Extends g h v.place 0 (normalize raw) x (letters raw) v.reads;
  }

  placement_sound :
      (draw : ℕ → Draw) (g : Grid) (raw : W) (p : Place)
      → ((a : ℕ) → InRange (draw a))
      → placement normalize draw g raw ≡ some p
      → (1 < length (normalize raw))
        × Fits p (length (normalize raw) - 1)
        × (cells_free g p 0 (normalize raw) ≡ true)
  unfolding placement
  placement_sound draw g raw p r h =
      elim (Bool-cases (leb (length (normalize raw)) 1 || ltb grid_size (length (normalize raw)))) [
        | inl e ↦ absurd (ground arith)
        | inr e ↦ ground (arith, try_place_sound draw g (normalize raw) max_attempts 0 p r)
      ]

  place_words_sound :
      (draw : ℕ → ℕ → Draw) (k : ℕ) (g : Grid) (words : List W)
      → ((k a : ℕ) → InRange (draw k a))
      → ((raw : W) → Letters (normalize raw))
      → let (final, placed) = place_words normalize draw k g words in
        Extends g final × All (Hidden final) placed
  unfolding place_words
  place_words_sound draw k g [] r l = ((λ i j ne. refl), tt)
  place_words_sound draw k g (raw ∷ rest) r l =
      elim (Option-cases (placement normalize (draw k) g raw)) [
        | inl e ↦ rw (e, place_words) (place_words_sound draw (k + 1) g rest r l)
        | inr (p, e) ↦
            let word = normalize raw in
            let g' = write_word g p 0 word in
            let ok = placement_sound (draw k) g raw p (r k) e in
            let written =
              write_word_reads g p (length word - 1) 0 word ok.1 (omega (arith, ok.0)) (l raw)
                ok.2 in
            let others = place_words_sound draw (k + 1) g' rest r l in
            let here : Hidden g' raw = record {
              place = p;
              inside = ok.1;
              long_enough = ok.0;
              reads = written.1;
            } in
            rw (e, place_words)
              (
                Extends-trans {h = g'} written.0 others.0,
                (
                  Hidden-Extends l g' (place_words normalize draw (k + 1) g' rest).0 raw others.0
                      here,
                  others.1,
                ),
              )
      ]

  fill-Extends : (letter : ℕ → ℕ → ℕ) (g : Grid) → Extends g (fill normalize letter g)
  unfolding fill
  fill-Extends letter g i j ne = ground arith

  filled : (letter : ℕ → ℕ → ℕ) (g : Grid) (i j : ℕ) → fill normalize letter g i j ≢ 0
  unfolding fill
  filled letter g i j = ground arith

  All-Hidden :
      (g h : Grid) (words : List W)
      → Extends g h
      → ((raw : W) → Letters (normalize raw))
      → All (Hidden g) words
      → All (Hidden h) words
  All-Hidden g h [] x l v = tt
  All-Hidden g h (raw ∷ rest) x l v = (Hidden-Extends l g h raw x v.0, All-Hidden g h rest x l v.1)

  -- Whatever the random numbers: every word reported as placed can be read in the grid returned,
  -- along one of the directions and inside the grid, and no cell of the grid is empty.
  pub generate_grid_hides :
      (draw : ℕ → ℕ → Draw) (letter : ℕ → ℕ → ℕ) (words : List W)
      → ((k a : ℕ) → InRange (draw k a))
      → ((raw : W) → Letters (normalize raw))
      → let (grid, placed) = generate_grid normalize draw letter words in
        All (Hidden grid) placed × ((i j : ℕ) → grid i j ≢ 0)
  unfolding generate_grid
  generate_grid_hides draw letter words r l =
      let placed = place_words_sound draw 0 empty_grid words r l in
      let g = (place_words normalize draw 0 empty_grid words).0 in
      (
        All-Hidden g (fill normalize letter g) (place_words normalize draw 0 empty_grid words).1
            (fill-Extends letter g) l placed.1,
        λ i j. filled letter g i j,
      )
