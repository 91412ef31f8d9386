-- ===== src/Throttle/Window.antt =====
-- How many requests a window lets through.
use sealvo.Base.{
  ℕ, ◌+◌, ◌-◌, ◌≤◌, ◌<◌, ◌≡◌, refl, inl, inr, ◌⊎◌, true, none, some, List, [], ◌∷◌, arith, All, leb,
  ltb, ◌==◌, Bool-cases,
}
use sealvo.Throttle.{Counter, Limits, unused, time_left, counted, run_script, let_through}

-- All instants are in the window that starts at `from`.
abbrev pub Within : ℕ → ℕ → List ℕ → Type 0
Within from ttl = All (λ t. (from ≤ t) × (t < from + ttl))

-- A window that started at `from` and has counted n requests.
abbrev pub window : ℕ → ℕ → ℕ → Counter
window from ttl n = record { hits = some (n, from + ttl); blocked_until = none }

-- Nothing is let through while a block lasts that reaches the end of the window.
blocked_none :
    (l : Limits) (from until : ℕ) (times : List ℕ)
    → Within from l.ttl times
    → from + l.ttl ≤ until
    → let_through l times (record { hits = none; blocked_until = some until }) ≡ 0
unfolding let_through run_script time_left
blocked_none l from until [] w long = refl
blocked_none l from until (now ∷ later) w long =
    let active : ltb 0 (until - now) ≡ true = ground (arith, w.0) in
    rw active (blocked_none l from until later w.1 long)

counted_rest :
    (l : Limits) (from n : ℕ) (times : List ℕ)
    → (l.block_duration ≡ 0) ⊎ (l.ttl ≤ l.block_duration)
    → Within from l.ttl times
    → let_through l times (window from l.ttl n) ≤ l.limit - n
unfolding let_through run_script time_left counted
counted_rest l from n [] long w = omega arith
counted_rest l from n (now ∷ later) long w =
    let live : ltb now (from + l.ttl) ≡ true = ground (arith, w.0) in
    let rest = counted_rest l from (n + 1) later long w.1 in
    elim (Bool-cases (leb (n + 1) l.limit)) [
      | inl fits ↦ rw (live, fits) (ground (arith, rest))
      | inr over ↦ elim (Bool-cases (l.block_duration == 0)) [
        | inl no_block ↦ rw (live, over, no_block) (ground (arith, rest))
        | inr blocks ↦
            rw (live, over, blocks)
              (ground (
                arith,
                blocked_none l from (now + l.block_duration) later w.1 (ground (arith, w.0)),
              ))
      ]
    ]

-- With a window of some length, and a block that is off or at least as long as the window: of a
-- first request and any later ones within the window that it opens, at most `limit` are let
-- through.
pub window_limit :
    (l : Limits) (from : ℕ) (later : List ℕ)
    → 0 < l.ttl
    → (l.block_duration ≡ 0) ⊎ (l.ttl ≤ l.block_duration)
    → Within from l.ttl later
    → let_through l (from ∷ later) unused ≤ l.limit
unfolding let_through run_script time_left counted
window_limit l from later some_time long w = elim (Bool-cases (leb 1 l.limit)) [
  | inl fits ↦ rw fits (ground (arith, counted_rest l from 1 later long w))
  | inr over ↦ elim (Bool-cases (l.block_duration == 0)) [
    | inl no_block ↦ rw (over, no_block) (ground (arith, counted_rest l from 1 later long w))
    | inr blocks ↦
        rw (over, blocks)
          (ground (arith, blocked_none l from (from + l.block_duration) later w (ground arith)))
  ]
]
