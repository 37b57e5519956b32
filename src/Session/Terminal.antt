-- ===== src/Session/Terminal.antt =====
-- A session that is over stays over (backend/src/negotiation/domain/session.py).
use cadencia_a2a_platform.Prelude.{ℕ, ◌<◌, ◌≡◌, ◌↔◌, ◌⊎◌, true, none, List, [], ◌∷◌, arith}
use cadencia_a2a_platform.Session.Defs.{
  max_rounds, is_active, is_terminal, Offer, NegotiationSession, human_review,
}
use cadencia_a2a_platform.Session.Commands.{apply, Call, run, Command, do_offer}

-- What the end of a session fixes; the counters and `updated_at` are not part of it.
abbrev pub SameOutcome : NegotiationSession → NegotiationSession → Type 0
SameOutcome s t =
    (t.status ≡ s.status)
    × (t.offers ≡ s.offers)
    × (t.round_count ≡ s.round_count)
    × (t.agreed_price ≡ s.agreed_price)
    × (t.agreed_terms ≡ s.agreed_terms)
    × (t.completed_at ≡ s.completed_at)

apply-SameOutcome :
    (now later : ℕ) (c : Command) (s : NegotiationSession)
    → is_terminal s.status ≡ true
    → SameOutcome s (apply now later c s).1
unfolding apply
apply-SameOutcome now later (do_offer offer) s h = ground arith
apply-SameOutcome now later c s h = ground arith

-- In a terminal status no sequence of calls changes the status, the offers, the round counter, the
-- agreed price and terms or the completion time: a session is agreed, failed or expired once.
pub terminal_absorbs :
    (cs : List Call) (s : NegotiationSession)
    → is_terminal s.status ≡ true
    → SameOutcome s (run cs s)
unfolding run
terminal_absorbs [] s h = ground arith
terminal_absorbs ((now, later, c) ∷ cs) s h =
    ground (arith, apply-SameOutcome now later c s h, terminal_absorbs cs (apply now later c s).1)

-- An offer is taken exactly if the session is active or under human review, has had fewer than 20
-- rounds, and is the one that the offer names; otherwise `add_offer` raises `ConflictError`.
add_offer_taken_iff :
    (offer : Offer) (now later : ℕ) (s : NegotiationSession)
    → ((apply now later (do_offer offer) s).0 ≡ none) ↔ (
        ((is_active s.status ≡ true) ⊎ (s.status ≡ human_review))
        × (s.round_count < max_rounds)
        × (offer.session_id ≡ s.id))
unfolding apply
add_offer_taken_iff offer now later s = (λ h. ground arith, λ h. ground arith)
