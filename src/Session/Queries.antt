-- ===== src/Session/Queries.antt =====
-- The query helpers of `NegotiationSession` (backend/src/negotiation/domain/session.py) and the guards
-- of `NegotiationPolicy` (backend/src/negotiation/domain/policies.py).
use cadencia_a2a_platform.Prelude.{
  ℕ, ◌-◌, Bool, false, not, Option, none, some, List, [], ◌∷◌, ltb, leb, ◌==◌, if◌then◌else◌, last?,
}
use cadencia_a2a_platform.Errors.{policy_violation, Result, ok, err}
use cadencia_a2a_platform.Session.Defs.{
  role_eq, Offer, NegotiationSession, ProposerRole, buyer, seller,
}
use mathlib.Core.List.{reverse}

-- The loop of the two queries below, over the reversed offers.
unfoldable pub first_by : ProposerRole → List Offer → Option Offer
first_by role [] = none
first_by role (o ∷ os) = if role_eq o.proposer_role role then some o else first_by role os

unfoldable pub get_last_buyer_offer : NegotiationSession → Option Offer
unfolding first_by
get_last_buyer_offer s = first_by buyer (reverse s.offers)

unfoldable pub get_last_seller_offer : NegotiationSession → Option Offer
unfolding first_by
get_last_seller_offer s = first_by seller (reverse s.offers)

unfoldable pub prices_by : ProposerRole → List Offer → List ℕ
prices_by role [] = []
prices_by role (o ∷ os) =
    if role_eq o.proposer_role role then o.price.amount ∷ prices_by role os else prices_by role os

unfoldable pub get_buyer_prices : NegotiationSession → List ℕ
unfolding prices_by
get_buyer_prices s = prices_by buyer s.offers

unfoldable pub get_seller_prices : NegotiationSession → List ℕ
unfolding prices_by
get_seller_prices s = prices_by seller s.offers

unfoldable pub is_expired : ℕ → NegotiationSession → Bool
is_expired now s = ltb s.expires_at now

-- `abs(a - b)`
abbrev distance : ℕ → ℕ → ℕ
distance a b = if leb b a then a - b else b - a

-- `within gap price` is `float(gap / price) <= tolerance`, the division of Python's decimals and its
-- conversion to a float.
unfoldable pub check_convergence : (ℕ → ℕ → Bool) → NegotiationSession → Bool
unfolding get_last_buyer_offer get_last_seller_offer
check_convergence within s = elim (get_last_buyer_offer s) [
  | none ↦ false
  | some last_buyer ↦ elim (get_last_seller_offer s) [
    | none ↦ false
    | some last_seller ↦
        if last_buyer.price.amount == 0
        then false
        else within (distance last_seller.price.amount last_buyer.price.amount)
            last_buyer.price.amount
  ]
]

unfoldable pub next_proposer : NegotiationSession → ProposerRole
next_proposer s = elim (last? s.offers) [
  | none ↦ buyer
  | some last ↦ if role_eq last.proposer_role buyer then seller else buyer
]

-- `NegotiationPolicy.check_turn_order`
unfoldable pub check_turn_order : List Offer → ProposerRole → Result (Unit {0})
check_turn_order offers role = elim (last? offers) [
  | none ↦ if not (role_eq role buyer) then err policy_violation else ok tt
  | some last ↦ if role_eq last.proposer_role role then err policy_violation else ok tt
]

-- `NegotiationPolicy.check_budget_guard`
unfoldable pub check_budget_guard : ℕ → ℕ → Result (Unit {0})
check_budget_guard price budget_ceiling =
    if ltb budget_ceiling price then err policy_violation else ok tt

-- `NegotiationPolicy.check_stall`
unfoldable pub check_stall : ℕ → ℕ → Bool
check_stall round_count stall_threshold = leb stall_threshold round_count

-- `NegotiationPolicy.check_convergence`
unfoldable pub policy_check_convergence : (ℕ → ℕ → Bool) → Option ℕ → Option ℕ → Bool
policy_check_convergence within none seller_price = false
policy_check_convergence within (some buyer_price) none = false
policy_check_convergence within (some buyer_price) (some seller_price) =
    if buyer_price == 0 then false else within (distance seller_price buyer_price) buyer_price
