-- ===== src/Engine/Overriding.antt =====
-- When a human's offer is taken (`apply_human_override` of
-- backend/src/negotiation/application/services.py).
use cadencia_a2a_platform.Prelude.{
  ℕ, ◌<◌, ◌≡◌, ◌≢◌, ◌↔◌, ◌⊎◌, Bool, true, false, none, arith, some, ◌++◌, ◌∷◌, [], ◌+◌,
}
use cadencia_a2a_platform.Prelude.Int.{◌≤ℤ◌, pos}
use cadencia_a2a_platform.Errors.{conflict_error, Result, ok, err}
use cadencia_a2a_platform.Session.{
  max_rounds, is_active, Offer, NegotiationSession, stalled, human_review,
}
use cadencia_a2a_platform.Engine.Override.{apply_human_override, HumanOverride}

-- A valid price and currency, below the last round, in a session that is active or under review.
abbrev pub IsTaken : HumanOverride → NegotiationSession → Type 0
IsTaken cmd s =
    ((is_active s.status ≡ true) ⊎ (s.status ≡ human_review))
    × (s.round_count < max_rounds)
    × (pos 1 ≤ℤ cmd.price)
    × (cmd.currency ≢ none)

abbrev pub is_ok : Result Offer → Bool
is_ok (ok o) = true
is_ok (err x) = false

-- The offer that the call returns is the human's, it is appended to the session's offers, and the round
-- is counted.
abbrev pub Enters : HumanOverride → NegotiationSession → Result Offer × NegotiationSession → Type 0
Enters cmd s (ok o, t) =
    (t.offers ≡ s.offers ++ o ∷ [])
    × (t.round_count ≡ s.round_count + 1)
    × (o.round_number ≡ s.round_count + 1)
    × (pos o.price.amount ≡ cmd.price)
    × (some o.price.currency ≡ cmd.currency)
    × (o.is_human_override ≡ true)
Enters cmd s (err x, t) = ⊥

-- A human override returns an offer of the human's price and currency, appends it to the session's
-- offers as the next round and counts that round, exactly if its price is positive and its currency
-- valid and the session has had fewer than 20 rounds and is active or under review; otherwise it
-- raises. A stalled session always raises `ConflictError` and stays as it is, although the service
-- means to resume it.
pub override-IsTaken_iff :
    (cmd : HumanOverride) (before now later : ℕ) (s : NegotiationSession)
    → ((is_ok (apply_human_override cmd before now later s).0 ≡ true) ↔ IsTaken cmd s)
      × (Enters cmd s (apply_human_override cmd before now later s) ↔ IsTaken cmd s)
      × (s.status ≡ stalled → apply_human_override cmd before now later s ≡ (err conflict_error, s))
unfolding apply_human_override
override-IsTaken_iff cmd before now later s = (
  (λ h. ground arith, λ h. ground arith),
  (λ h. ground arith, λ h. ground arith),
  λ h. ground arith,
)
