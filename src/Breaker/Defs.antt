-- ===== src/Breaker/Defs.antt =====
-- `CircuitState` and `CircuitBreaker` of backend/src/shared/infrastructure/circuit_breaker.py. The four
-- keys of the breaker in Redis are four optional values, with GET, SET, INCR and DELETE as Redis
-- documents them. Times are numbers of one unit, in which the recovery timeout is given too.
use cadencia_a2a_platform.Prelude.{
  ℕ, ◌+◌, Option, none, some, List, [], ◌∷◌, ltb, leb, if◌then◌else◌,
}

pub data CircuitState : Type 0 where
  closed opened half_open : CircuitState

pub record Config : Type 0 where
  pub failure_threshold : ℕ
  pub recovery_timeout : ℕ
  pub success_threshold : ℕ

pub record Redis : Type 0 where
  pub state : Option CircuitState
  pub failures : Option ℕ
  pub last_failure : Option ℕ
  pub successes : Option ℕ

-- INCR: a missing key counts as 0
abbrev pub incr : Option ℕ → ℕ
incr none = 1
incr (some n) = n + 1

-- `get_state` on the stored state
abbrev read_state : Config → ℕ → Option CircuitState → Redis → CircuitState × Redis
read_state c now none r = (closed, r)
read_state c now (some closed) r = (closed, r)
read_state c now (some half_open) r = (half_open, r)
read_state c now (some opened) r = elim r.last_failure [
  | none ↦ (opened, r)
  | some last ↦
      if ltb (last + c.recovery_timeout) now
      then (half_open, record r { state = some half_open })
      else (opened, r)
]

unfoldable pub get_state : Config → ℕ → Redis → CircuitState × Redis
get_state c now r = read_state c now r.state r

unfoldable pub on_failure : Config → ℕ → Redis → Redis
on_failure c now r =
    let failures = incr r.failures in
    let counted = record r { failures = some failures; last_failure = some now } in
    if leb c.failure_threshold failures then record counted { state = some opened } else counted

abbrev after_success : Config → CircuitState → Redis → Redis
after_success c half_open r =
    let successes = incr r.successes in
    if leb c.success_threshold successes
    then record r { failures = none; successes = none; state = some closed }
    else record r { successes = some successes }
after_success c closed r = record r { failures = none }
after_success c opened r = r

unfoldable pub on_success : Config → ℕ → Redis → Redis
unfolding get_state
on_success c now r = let (state, r') = get_state c now r in after_success c state r'

-- How a call ended: refused with `CircuitOpenError`, or the coroutine ran and returned or raised. A
-- `CircuitOpenError` that the coroutine itself raises passes through and counts as nothing.
pub data Ran : Type 0 where
  refused returned raised passed : Ran

-- What the coroutine would do if it ran.
pub data Behaviour : Type 0 where
  returns raises raises_open : Behaviour

abbrev run_coro : Config → ℕ → Behaviour → Redis → Ran × Redis
run_coro c later returns r = (returned, on_success c later r)
run_coro c later raises r = (raised, on_failure c later r)
run_coro c later raises_open r = (passed, r)

-- `now` is the time before the coroutine, `later` the time after it.
unfoldable pub call : Config → ℕ → ℕ → Behaviour → Redis → Ran × Redis
unfolding get_state on_success on_failure
call c now later b r =
    let (state, r') = get_state c now r in
    elim state [
      | opened ↦ (refused, r')
      | closed ↦ run_coro c later b r'
      | half_open ↦ run_coro c later b r'
    ]

-- `reset`: all four keys deleted
unfoldable pub reset : Redis → Redis
reset r = record { state = none; failures = none; last_failure = none; successes = none }

-- Calls one after another, each with its two times.
unfoldable pub run : Config → List (ℕ × ℕ × Behaviour) → Redis → Redis
run c [] r = r
run c ((now, later, b) ∷ cs) r = run c cs (call c now later b r).1
