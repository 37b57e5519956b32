-- ===== src/Session/Turns.antt =====
-- Whose turn it is, and the last offers (backend/src/negotiation/domain/session.py and policies.py).
use cadencia_a2a_platform.Prelude.{
  ℕ, ◌≡◌, refl, Bool, Option, none, some, List, [], ◌∷◌, ◌++◌, arith, if◌then◌else◌, last?,
}
use cadencia_a2a_platform.Errors.{policy_violation, ok, err}
use cadencia_a2a_platform.Session.Defs.{
  role_eq, Offer, NegotiationSession, ProposerRole, buyer, seller,
}
use cadencia_a2a_platform.Session.Queries.{
  first_by, get_last_buyer_offer, get_last_seller_offer, prices_by, get_buyer_prices,
  get_seller_prices, check_convergence, next_proposer, check_turn_order, policy_check_convergence,
}
use mathlib.Core.List.{reverse, reverse-append}

-- The turn-order guard passes exactly the role that `next_proposer` names, and raises
-- `PolicyViolation` for the other.
pub turn_order_agrees :
    (s : NegotiationSession) (role : ProposerRole)
    → check_turn_order s.offers role
      ≡ (if role_eq role (next_proposer s) then ok tt else err policy_violation)
unfolding check_turn_order next_proposer
turn_order_agrees s role = ground arith

-- The last offer of a role in the order of the list.
last_by : ProposerRole → List Offer → Option Offer
last_by role [] = none
last_by role (o ∷ os) = elim (last_by role os) [
  | none ↦ if role_eq o.proposer_role role then some o else none
  | some p ↦ some p
]

first_by-append :
    (role : ProposerRole) (xs ys : List Offer)
    → first_by role (xs ++ ys)
      ≡ elim (first_by role xs) [ none ↦ first_by role ys | some o ↦ some o ]
unfolding first_by
first_by-append role [] ys = refl
first_by-append role (x ∷ xs) ys = ground (arith, first_by-append role xs ys)

first_by-reverse :
    (role : ProposerRole) (os : List Offer) → first_by role (reverse os) ≡ last_by role os
unfolding first_by last_by
first_by-reverse role [] = refl
first_by-reverse role (o ∷ os) =
    rw (reverse-append (o ∷ []) os)
      (ground (arith, first_by-append role (reverse os) (o ∷ []), first_by-reverse role os))

abbrev amount_of : Option Offer → Option ℕ
amount_of none = none
amount_of (some o) = some o.price.amount

last?-prices_by :
    (role : ProposerRole) (os : List Offer)
    → last? (prices_by role os) ≡ amount_of (last_by role os)
unfolding prices_by last_by
last?-prices_by role [] = refl
last?-prices_by role (o ∷ os) = ground (arith, last?-prices_by role os)

-- The last of the listed prices of a role is the price of the offer that the backward search finds,
-- and there is none exactly if there is no such offer.
last_price :
    (role : ProposerRole) (os : List Offer)
    → last? (prices_by role os) ≡ amount_of (first_by role (reverse os))
last_price role os = rw (first_by-reverse role os) (last?-prices_by role os)

-- The session's convergence test is the policy's, on the last prices of the two histories, whatever
-- the comparison of the relative gap with the tolerance.
convergence_agrees :
    (within : ℕ → ℕ → Bool) (s : NegotiationSession)
    → check_convergence within s
      ≡ policy_check_convergence within (last? (get_buyer_prices s)) (last? (get_seller_prices s))
unfolding check_convergence policy_check_convergence get_buyer_prices get_seller_prices
    get_last_buyer_offer get_last_seller_offer
convergence_agrees within s =
    rw (last_price buyer s.offers, last_price seller s.offers) (ground arith)
