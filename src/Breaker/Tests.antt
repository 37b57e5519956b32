-- ===== src/Breaker/Tests.antt =====
-- The breaker's theorems at a breaker with a threshold of two failures and two successes.
use cadencia_a2a_platform.Prelude.{ℕ, ◌≡◌, refl, inl, none, some, List, [], ◌∷◌, arith}
use cadencia_a2a_platform.Breaker.Defs.{
  call, run, Config, Redis, opened, half_open, passed, Behaviour, returns, raises, raises_open,
}
use cadencia_a2a_platform.Breaker.Transitions.{IsClosed, opens_at_threshold, IsTripped}

abbrev config : Config
config = record { failure_threshold = 2; recovery_timeout = 60; success_threshold = 2 }

abbrev empty : Redis
empty = record { state = none; failures = none; last_failure = none; successes = none }

abbrev trip : List (ℕ × ℕ × Behaviour)
trip = (1, 2, raises) ∷ (3, 4, raises) ∷ (5, 6, returns) ∷ []

abbrev tripped : Redis
tripped = record { state = some opened; failures = some 2; last_failure = some 4; successes = none }

run-trip : run config trip empty ≡ tripped
unfolding run call
run-trip = refl

-- A `CircuitOpenError` of the coroutine itself is not counted.
passes : call config 1 2 raises_open empty ≡ (passed, empty)
unfolding call
passes = refl

opens_at_threshold_example :
    IsClosed (run config ((1, 2, raises) ∷ []) empty)
    × ((call config 3 4 raises (run config ((1, 2, raises) ∷ []) empty)).1.state ≡ some opened)
    × ((call config 3 4 raises (run config ((1, 2, raises) ∷ []) empty)).1.last_failure ≡ some 4)
opens_at_threshold_example =
    opens_at_threshold config ((1, 2, raises) ∷ []) 3 4 raises empty (refl, tt) refl (inl refl) refl
      refl

tripped-IsTripped : IsTripped config tripped
tripped-IsTripped = ground arith

abbrev halfway : Redis
halfway = record tripped { state = some half_open }

halfway-IsTripped : IsTripped config halfway
halfway-IsTripped = ground arith
