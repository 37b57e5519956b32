-- ===== src/Session/Invariant.antt =====
-- What holds of a session after any sequence of calls (backend/src/negotiation/domain/session.py).
use cadencia_a2a_platform.Prelude.{
  ℕ, ◌≤◌, ◌≡◌, ◌≢◌, Bool, true, ◌&&◌, none, some, List, [], ◌∷◌, ◌++◌, arith, ◌==◌, length,
  length-append,
}
use cadencia_a2a_platform.Errors.{DomainError}
use cadencia_a2a_platform.Session.Defs.{
  max_rounds, is_terminal, new_session, Offer, NegotiationSession, agreed,
}
use cadencia_a2a_platform.Session.Methods.{add_offer}
use cadencia_a2a_platform.Session.Commands.{apply, Call, run, Command, do_offer}

-- Every offer names the session.
unfoldable pub all_own : ℕ → List Offer → Bool
all_own id [] = true
all_own id (o ∷ os) = (o.session_id == id) && all_own id os

all_own-snoc :
    (id : ℕ) (os : List Offer) (o : Offer)
    → all_own id os ≡ true
    → o.session_id ≡ id
    → all_own id (os ++ (o ∷ [])) ≡ true
unfolding all_own
all_own-snoc id [] o h e = ground arith
all_own-snoc id (p ∷ os) o h e = ground (arith, all_own-snoc id os o)

pub record IsValid (s : NegotiationSession) : Type 0 where
  pub rounds_capped : s.round_count ≤ max_rounds
  pub rounds_counted : s.round_count ≡ length s.offers
  pub offers_own : all_own s.id s.offers ≡ true
  pub terminal_completed : is_terminal s.status ≡ true → s.completed_at ≢ none
  pub completed_terminal : s.completed_at ≢ none → is_terminal s.status ≡ true
  pub agreed_priced : s.status ≡ agreed → (s.agreed_price ≢ none) × (s.agreed_terms ≢ none)
  pub priced_agreed : s.agreed_price ≢ none → s.status ≡ agreed

pub add_offer-IsValid :
    (offer : Offer) (now later : ℕ) (s : NegotiationSession)
    → IsValid s
    → IsValid (add_offer offer now later s).1
unfolding add_offer
add_offer-IsValid offer now later s h =
    ground
      (arith, length-append s.offers (offer ∷ []), all_own-snoc s.id s.offers offer h.offers_own)

pub apply-IsValid :
    (now later : ℕ) (c : Command) (s : NegotiationSession)
    → IsValid s
    → IsValid (apply now later c s).1
unfolding apply
apply-IsValid now later (do_offer offer) s h = ground (arith, add_offer-IsValid offer now later s h)
apply-IsValid now later c s h = ground arith

new_session-IsValid :
    (id now rfq match_id buyer_id seller_id expires : ℕ)
    → IsValid (new_session id now rfq match_id buyer_id seller_id expires)
unfolding new_session all_own
new_session-IsValid id now rfq match_id buyer_id seller_id expires = ground arith

run_from-IsValid : (cs : List Call) (s : NegotiationSession) → IsValid s → IsValid (run cs s)
unfolding run
run_from-IsValid [] s h = h
run_from-IsValid ((now, later, c) ∷ cs) s h =
    run_from-IsValid cs (apply now later c s).1 (apply-IsValid now later c s h)

-- After any calls on a new session, refused ones included: the round counter is the number of offers
-- and at most 20, every offer names the session, the completion time is set exactly in the terminal
-- statuses, an agreed session has a price and terms, and only an agreed session has a price.
pub run-IsValid :
    (cs : List Call) (id now rfq match_id buyer_id seller_id expires : ℕ)
    → IsValid (run cs (new_session id now rfq match_id buyer_id seller_id expires))
run-IsValid cs id now rfq match_id buyer_id seller_id expires =
    run_from-IsValid cs (new_session id now rfq match_id buyer_id seller_id expires)
      (new_session-IsValid id now rfq match_id buyer_id seller_id expires)

-- A method that raises leaves the session exactly as it was.
pub session_raises_unchanged :
    (now later : ℕ) (c : Command) (s : NegotiationSession) {x : DomainError}
    → (apply now later c s).0 ≡ some x
    → (apply now later c s).1 ≡ s
unfolding apply
session_raises_unchanged now later (do_offer offer) s h = ground arith
session_raises_unchanged now later c s h = ground arith
