-- ===== src/Breaker/Transitions.antt =====
-- When the breaker of backend/src/shared/infrastructure/circuit_breaker.py opens, refuses and closes.
use cadencia_a2a_platform.Prelude.{
  ℕ, ◌+◌, ◌≤◌, ◌<◌, ◌≡◌, refl, ◌≢◌, ◌⊎◌, Option, none, some, List, [], ◌∷◌, arith, leb,
  if◌then◌else◌, length,
}
use cadencia_a2a_platform.Breaker.Defs.{
  call, reset, run, Config, Redis, closed, opened, half_open, refused, returned, raised, Behaviour,
  returns, raises, raises_open,
}

-- The failures counted so far; a missing key counts as 0.
abbrev pub counted : Option ℕ → ℕ
counted none = 0
counted (some n) = n

-- Once it has left CLOSED the counted failures have reached the threshold, and an open breaker knows
-- the time of the last one.
pub record IsTripped (c : Config) (r : Redis) : Type 0 where
  pub opened_counted :
      r.state ≡ some opened → (c.failure_threshold ≤ counted r.failures) × (r.last_failure ≢ none)
  pub half_open_counted : r.state ≡ some half_open → c.failure_threshold ≤ counted r.failures

call-IsTripped :
    (c : Config) (now later : ℕ) (b : Behaviour) (r : Redis)
    → IsTripped c r
    → IsTripped c (call c now later b r).1
unfolding call
call-IsTripped c now later returns r h = ground arith
call-IsTripped c now later raises r h = ground arith
call-IsTripped c now later raises_open r h = ground arith

run-IsTripped :
    (c : Config) (cs : List (ℕ × ℕ × Behaviour)) (r : Redis)
    → IsTripped c r
    → IsTripped c (run c cs r)
unfolding run
run-IsTripped c [] r h = h
run-IsTripped c ((now, later, b) ∷ cs) r h =
    run-IsTripped c cs (call c now later b r).1 (call-IsTripped c now later b r h)

-- After any calls on a reset breaker, an open or half-open one has counted at least as many failures
-- as the threshold, and an open one knows the time of its last failure.
pub reset-run-IsTripped :
    (c : Config) (cs : List (ℕ × ℕ × Behaviour)) (r : Redis) → IsTripped c (run c cs (reset r))
unfolding reset
reset-run-IsTripped c cs r = run-IsTripped c cs (reset r) (ground arith)

-- While an open breaker's timeout has not passed since the last failure, a call is refused whatever
-- the coroutine would do, and changes nothing.
pub opened_refuses :
    (c : Config) (now later t : ℕ) (b : Behaviour) (r : Redis)
    → r.state ≡ some opened
    → r.last_failure ≡ some t
    → now ≤ t + c.recovery_timeout
    → call c now later b r ≡ (refused, r)
unfolding call
opened_refuses c now later t b r s l h = ground arith

-- Once the timeout has passed the next call runs; if it raises, the breaker is open again at once,
-- with the new time of failure, and if it returns, the breaker is closed if that makes the counted
-- successes reach their threshold, and half open otherwise.
recovery_probe :
    (c : Config) (now later t : ℕ) (r : Redis)
    → IsTripped c r
    → r.state ≡ some opened
    → r.last_failure ≡ some t
    → t + c.recovery_timeout < now
    → ((call c now later raises r).0 ≡ raised)
      × ((call c now later raises r).1.state ≡ some opened)
      × ((call c now later raises r).1.last_failure ≡ some later)
      × ((call c now later returns r).0 ≡ returned)
      × ((call c now later returns r).1.state
          ≡ some (if leb c.success_threshold (counted r.successes + 1) then closed else half_open))
unfolding call
recovery_probe c now later t r v s l h =
    (ground arith, ground arith, ground arith, ground arith, ground arith)

-- Calls that all raise, at any times.
abbrev pub AllRaise : List (ℕ × ℕ × Behaviour) → Type 0
AllRaise [] = Unit
AllRaise ((now, later, b) ∷ cs) = (b ≡ raises) × AllRaise cs

-- The breaker reads as CLOSED.
abbrev pub IsClosed : Redis → Type 0
IsClosed r = (r.state ≡ none) ⊎ (r.state ≡ some closed)

raise_step :
    (c : Config) (now later : ℕ) (b : Behaviour) (r : Redis)
    → b ≡ raises
    → IsClosed r
    → counted r.failures + 1 < c.failure_threshold
    → IsClosed (call c now later b r).1
      × (counted (call c now later b r).1.failures ≡ counted r.failures + 1)
unfolding call
raise_step c now later b r e s h = ground arith

raise_last :
    (c : Config) (now later : ℕ) (b : Behaviour) (r : Redis)
    → b ≡ raises
    → IsClosed r
    → c.failure_threshold ≤ counted r.failures + 1
    → ((call c now later b r).1.state ≡ some opened)
      × ((call c now later b r).1.last_failure ≡ some later)
unfolding call
raise_last c now later b r e s h = ground arith

raises_below :
    (c : Config) (cs : List (ℕ × ℕ × Behaviour)) (r : Redis)
    → AllRaise cs
    → IsClosed r
    → counted r.failures + length cs < c.failure_threshold
    → IsClosed (run c cs r) × (counted (run c cs r).failures ≡ counted r.failures + length cs)
unfolding run
raises_below c [] r a s h = (s, omega arith)
raises_below c ((now, later, b) ∷ cs) r a s h =
    let (s', n) = raise_step c now later b r a.0 s (omega arith) in
    let (s'', m) = raises_below c cs (call c now later b r).1 a.1 s' (omega arith) in
    (s'', omega arith)

-- From a closed breaker with no failure counted, as many raising calls in a row as the threshold open
-- it, the last of them by its own time, and fewer leave it closed.
pub opens_at_threshold :
    (c : Config) (cs : List (ℕ × ℕ × Behaviour)) (now later : ℕ) (b : Behaviour) (r : Redis)
    → AllRaise cs
    → b ≡ raises
    → IsClosed r
    → r.failures ≡ none
    → length cs + 1 ≡ c.failure_threshold
    → IsClosed (run c cs r)
      × ((call c now later b (run c cs r)).1.state ≡ some opened)
      × ((call c now later b (run c cs r)).1.last_failure ≡ some later)
opens_at_threshold c cs now later b r a e s f h =
    let zero_counted : counted r.failures ≡ 0 = rw f refl in
    let (s', n) = raises_below c cs r a s (omega arith) in
    let (o, l) = raise_last c now later b (run c cs r) e s' (omega arith) in (s', o, l)

-- A failure of a half-open breaker keeps the successes that were counted: where two in a row are
-- asked for, one before the failure and one after the next timeout close the breaker.
successes_survive_failure :
    (c : Config) (t₀ t₁ t₂ t₃ t₄ t₅ : ℕ) (r : Redis)
    → IsTripped c r
    → r.state ≡ some half_open
    → r.successes ≡ none
    → c.success_threshold ≡ 2
    → t₃ + c.recovery_timeout < t₄
    → let failed_once = run c ((t₀, t₁, returns) ∷ (t₂, t₃, raises) ∷ []) r in
      (failed_once.state ≡ some opened)
      × (failed_once.successes ≡ some 1)
      × ((call c t₄ t₅ returns failed_once).1.state ≡ some closed)
unfolding run call
successes_survive_failure c t₀ t₁ t₂ t₃ t₄ t₅ r v s z n h = ground arith
