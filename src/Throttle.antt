-- ===== src/Throttle.antt =====
-- apps/api/src/common/throttler/redis-throttler.storage.ts: the script that counts requests, which
-- Redis runs as one step. A key with a time to live is its value with the instant it ends at; the
-- count in memory, when Redis is down, is a library's.
mod Tests
pub mod Window
use sealvo.Base.{
  ℕ, suc, ◌+◌, ◌-◌, ◌/◌, Bool, true, false, not, Option, none, some, List, [], ◌∷◌, leb, ltb, ◌==◌,
  if◌then◌else◌,
}

-- The two keys of one caller: the hits with their end, and the end of the block.
pub record Counter : Type 0 where
  pub hits : Option (ℕ × ℕ)
  pub blocked_until : Option ℕ

pub record Answer : Type 0 where
  pub total_hits : ℕ
  pub time_to_expire : ℕ
  pub is_blocked : Bool
  pub time_to_block_expire : ℕ

pub record Limits : Type 0 where
  pub ttl : ℕ
  pub limit : ℕ
  pub block_duration : ℕ

abbrev pub unused : Counter
unused = record { hits = none; blocked_until = none }

-- PTTL, with 0 for a key that is not there or has ended.
unfoldable pub time_left : ℕ → Option ℕ → ℕ
time_left now none = 0
time_left now (some end) = end - now

-- INCR, and PEXPIRE on a key that had none: the new count with its end.
unfoldable pub counted : ℕ → ℕ → Option (ℕ × ℕ) → ℕ × ℕ
counted ttl now none = (1, now + ttl)
counted ttl now (some (n, end)) = if ltb now end then (n + 1, end) else (1, now + ttl)

abbrev pub answer : ℕ → ℕ → Bool → ℕ → Answer
answer n left blocked block_left = record {
  total_hits = n;
  time_to_expire = left;
  is_blocked = blocked;
  time_to_block_expire = block_left;
}

-- The script, in milliseconds.
unfoldable pub run_script : Limits → ℕ → Counter → Answer × Counter
run_script l now c =
    let block_left = time_left now c.blocked_until in
    let (n, end) = counted l.ttl now c.hits in
    let c' = record c { hits = some (n, end) } in
    if ltb 0 block_left
    then (answer (l.limit + 1) block_left true block_left, c)
    else (if leb n l.limit
        then (answer n (end - now) false 0, c')
        else (if l.block_duration == 0 then (answer n (end - now) true (end - now), c') else (
          answer n (end - now) true l.block_duration,
          record { hits = none; blocked_until = some (now + l.block_duration) },
        )))

-- Math.ceil(t / 1000)
abbrev pub seconds : ℕ → ℕ
seconds t = (t + 999) / 1_000

-- What the guard gets. `fallback` is the answer of the count in memory, when Redis does not answer.
unfoldable pub increment : Bool → Answer → Limits → ℕ → Counter → Answer × Counter
increment answers fallback l now c =
    let (a, c') = run_script l now c in
    if answers
    then (
      answer a.total_hits (seconds a.time_to_expire) a.is_blocked (seconds a.time_to_block_expire),
      c',
    )
    else (fallback, c)

-- The requests at these instants: how many were let through.
unfoldable pub let_through : Limits → List ℕ → Counter → ℕ
let_through l [] c = 0
let_through l (now ∷ later) c =
    let (a, c') = run_script l now c in
    let rest = let_through l later c' in if a.is_blocked then rest else rest + 1
