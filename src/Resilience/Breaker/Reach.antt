-- ===== src/Resilience/Breaker/Reach.antt =====
-- The breaker with calls in flight (whose values are dropped), in any order of admissions and settlements.
use sealvo.Base.{◌∙◌, ℕ, suc, ◌+◌, ◌≤◌, ◌<◌, ◌≡◌, ◌↔◌, refl, Bool, true, false, arith}
use sealvo.Resilience.{ErrorLike, Settled, resolved, rejected}
use sealvo.Resilience.Breaker.{
  Breaker, closed, opened, half_open, new_breaker, circuit_open, admitted, begin, settle, get_state,
}

pub record System : Type 0 where
  pub breaker : Breaker
  pub probes : ℕ
  pub calls : ℕ

module _ (is_failure : ErrorLike → Bool) where
  pub data Step : System → System → Type 0 where
    reject :
        (s : System) (now : ℕ)
        → (begin now s.breaker).1 ≡ circuit_open
        → Step s (record s { breaker = (begin now s.breaker).0 })
    start_probe :
        (s : System) (now : ℕ)
        → (begin now s.breaker).1 ≡ admitted true
        → Step s (record s { breaker = (begin now s.breaker).0; probes = s.probes + 1 })
    start_call :
        (s : System) (now : ℕ)
        → (begin now s.breaker).1 ≡ admitted false
        → Step s (record s { breaker = (begin now s.breaker).0; calls = s.calls + 1 })
    settle_probe :
        (s : System) (now n : ℕ) (r : Settled (Unit {0}))
        → s.probes ≡ suc n
        → Step s (record s { breaker = settle is_failure now true r s.breaker; probes = n })
    settle_call :
        (s : System) (now n : ℕ) (r : Settled (Unit {0}))
        → s.calls ≡ suc n
        → Step s (record s { breaker = settle is_failure now false r s.breaker; calls = n })

  pub data Reach (s : System) : System → Type 0 where
    here : Reach s s
    next : {t u : System} → Reach s t → Step t u → Reach s u

  abbrev pub as_number : Bool → ℕ
  as_number true = 1
  as_number false = 0

  pub record Inv (s : System) : Type 0 where
    pub one_probe : s.probes ≡ as_number s.breaker.probing
    pub probed : s.breaker.circuit ≡ half_open → s.breaker.probing ≡ true
    pub counted : s.breaker.circuit ≡ closed → s.breaker.failure_count < s.breaker.threshold

  Step-Inv : {s t : System} → 0 < s.breaker.threshold → Step s t → Inv s → Inv t
  unfolding begin settle
  Step-Inv pos (reject s now h) v = ground arith
  Step-Inv pos (start_probe s now h) v = ground arith
  Step-Inv pos (start_call s now h) v = ground arith
  Step-Inv pos (settle_probe s now n r h) v = ground arith
  Step-Inv pos (settle_call s now n r h) v = ground arith

  threshold-Step : {s t : System} → Step s t → t.breaker.threshold ≡ s.breaker.threshold
  unfolding begin settle
  threshold-Step (reject s now h) = ground arith
  threshold-Step (start_probe s now h) = ground arith
  threshold-Step (start_call s now h) = ground arith
  threshold-Step (settle_probe s now n r h) = ground arith
  threshold-Step (settle_call s now n r h) = ground arith

  threshold-Reach : {s t : System} → Reach s t → t.breaker.threshold ≡ s.breaker.threshold
  threshold-Reach here = refl
  threshold-Reach (next r st) = threshold-Step st ∙ threshold-Reach r

  Reach-Inv : {s t : System} → 0 < s.breaker.threshold → Inv s → Reach s t → Inv t
  Reach-Inv pos v here = v
  Reach-Inv pos v (next r st) = Step-Inv (rw (threshold-Reach r) pos) st (Reach-Inv pos v r)

abbrev pub idle : ℕ → ℕ → System
idle threshold reset = record { breaker = new_breaker threshold reset; probes = 0; calls = 0 }

-- However calls are admitted and settled: at most one probe runs, while the circuit is half open
-- one does, and while it is closed fewer failures than the threshold are counted.
pub Reach-safe :
    (is_failure : ErrorLike → Bool) (threshold reset : ℕ) (s : System)
    → 0 < threshold
    → Reach is_failure (idle threshold reset) s
    → (s.probes ≤ 1)
      × (s.breaker.circuit ≡ half_open → s.probes ≡ 1)
      × (s.breaker.circuit ≡ closed → s.breaker.failure_count < threshold)
Reach-safe is_failure threshold reset s pos r =
    let fresh : Inv is_failure (idle threshold reset) = record {
      one_probe = refl;
      probed = λ h. cc;
      counted = λ h. pos;
    } in
    let v = Reach-Inv is_failure pos fresh r in
    let same = threshold-Reach is_failure r in (ground arith, λ h. ground arith, λ h. ground arith)

-- A call is made exactly while the state shown is CLOSED, or HALF_OPEN with no probe running (then
-- it is the probe); otherwise it is rejected, and nothing changes but that an OPEN circuit whose
-- time has elapsed turns HALF_OPEN.
pub begin-get_state :
    (now : ℕ) (b : Breaker)
    → ((begin now b).1 ≡ admitted false ↔ get_state now b ≡ closed)
      × ((begin now b).1 ≡ admitted true ↔ ((get_state now b ≡ half_open) × (b.probing ≡ false)))
      × ((begin now b).1 ≡ circuit_open → (begin now b).0 ≡ record b { circuit = get_state now b })
unfolding begin get_state
begin-get_state now b = ground arith

-- After the cool-down, with no probe running, the next call is the probe: its success closes the
-- circuit with no failure counted, and a failure that counts opens it again from that moment.
pub probe_decides :
    (is_failure : ErrorLike → Bool) (b : Breaker) (now later : ℕ) {A : Type 0} (a : A)
    (e : ErrorLike)
    → b.circuit ≡ opened
    → b.probing ≡ false
    → b.last_failure_time + b.reset_timeout ≤ now
    → is_failure e ≡ true
    → let (b', admission) = begin now b in
      let good = settle is_failure later true (resolved a) b' in
      let failed : Settled A = rejected e in
      let bad = settle is_failure later true failed b' in
      (admission ≡ admitted true)
      × (good.circuit ≡ closed)
      × (good.failure_count ≡ 0)
      × (good.probing ≡ false)
      × (bad.circuit ≡ opened)
      × (bad.last_failure_time ≡ later)
      × (bad.probing ≡ false)
unfolding begin settle
probe_decides is_failure b now later a e o p h f = ground arith
