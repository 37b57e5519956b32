-- ===== src/Limiter/Tests.antt =====
-- The theorem on the rate limiter at concrete requests.
use cadencia_a2a_platform.Prelude.{min, ◌≡◌, refl, none, List, [], ◌∷◌, arith}
use cadencia_a2a_platform.Limiter.Defs.{check_rate_limit}
use cadencia_a2a_platform.Limiter.Windows.{Request, made, accepted, window_accepts}

-- Four requests of enterprise 3 in the window of the first minute, one of enterprise 4, and one later.
abbrev requests : List Request
requests = (3, 100) ∷ (3, 59_000) ∷ (4, 59_500) ∷ (3, 59_900) ∷ (3, 59_999) ∷ (3, 60_000) ∷ []

window_accepts_example :
    accepted 2 60 3 0 requests (λ id bucket. none) ≡ min (made 60 3 0 requests) 2
window_accepts_example = window_accepts 2 60 3 0 requests (λ id bucket. none) (omega arith) refl

two_of_four : accepted 2 60 3 0 requests (λ id bucket. none) ≡ 2
unfolding accepted check_rate_limit
two_of_four = refl

one_later : accepted 2 60 3 1 requests (λ id bucket. none) ≡ 1
unfolding accepted check_rate_limit
one_later = refl
