-- ===== src/Engine/Rejection.antt =====
-- What becomes of an agent's REJECT (`process_turn` of
-- backend/src/negotiation/infrastructure/neutral_engine.py and `run_agent_turn` of
-- backend/src/negotiation/application/services.py).
use cadencia_a2a_platform.Prelude.{ℕ, ◌+◌, ◌<◌, ◌≡◌, refl, true, false, some, ◌++◌, arith}
use cadencia_a2a_platform.Prelude.Int.{pos_part, ltb_ℤ, ℤ, pos}
use cadencia_a2a_platform.Prelude.Texts.{Text, codes}
use cadencia_a2a_platform.Errors.{ok}
use cadencia_a2a_platform.Session.{
  max_rounds, is_active, role_eq, Offer, NegotiationSession, agreed, ProposerRole, buyer, seller,
  inr, add_offer, is_expired, next_proposer, check_turn_order,
}
use cadencia_a2a_platform.Session.Turns.{turn_order_agrees}
use cadencia_a2a_platform.Engine.Guardrails.{is_confidence, Python, rejecting}
use cadencia_a2a_platform.Engine.Defs.{decide, create_agent_offer, conclude, Advice, Stamps}
use cadencia_a2a_platform.Engine.Service.{
  take_turn, process_turn, contains, reasoning_of, handler_of, end_turn, enter, run_agent_turn,
  Agents, by_agreement,
}

-- The offer that a rejection makes.
abbrev pub rejection : Stamps → ProposerRole → Advice → NegotiationSession → Offer
rejection t role a s = record {
  id = t.offer_id;
  session_id = s.id;
  round_number = s.round_count + 1;
  proposer_role = role;
  price = record { amount = pos_part a.price; currency = inr };
  terms = codes "{}";
  confidence = some (pos_part a.confidence);
  agent_reasoning = some (codes "REJECT: " ++ a.reasoning);
  is_human_override = false;
}

same_role : (r : ProposerRole) → role_eq r r ≡ true
same_role buyer = refl
same_role seller = refl

own_turn : (s : NegotiationSession) → check_turn_order s.offers (next_proposer s) ≡ ok tt
own_turn s = rw (turn_order_agrees s (next_proposer s), same_role (next_proposer s)) refl

-- None of the words that the service looks for.
abbrev pub HasNoKeyword : Text → Type 0
HasNoKeyword reasoning =
    (contains (codes "REJECTED") reasoning ≡ false)
    × (contains (codes "WALK_AWAY") reasoning ≡ false)
    × (contains (codes "POLICY_BREACH") reasoning ≡ false)
    × (contains (codes "TIMEOUT") reasoning ≡ false)

handler_of-agreement :
    (reasoning : Text) (stalls : ℕ)
    → HasNoKeyword reasoning
    → stalls < 3
    → handler_of reasoning stalls ≡ by_agreement
unfolding handler_of
handler_of-agreement reasoning stalls k h = rw (k.0, k.1, k.2, k.3) (ground arith)

take_turn-rejecting :
    (py : Python) (least : ℤ) (g : Agents) (role : ProposerRole) (t : Stamps)
    (s : NegotiationSession)
    → g.advice.action ≡ rejecting
    → ltb_ℤ (pos 0) g.advice.price ≡ true
    → is_confidence py g.advice.confidence ≡ true
    → take_turn py least g role t s ≡ (ok (rejection t role g.advice s, true), s)
unfolding decide create_agent_offer conclude
take_turn-rejecting py least g role t s r p c = ground (arith, r, p, c)

process_turn-rejecting :
    (py : Python) (least : ℤ) (g : Agents) (t : Stamps) (s : NegotiationSession)
    → is_expired t.now s ≡ false
    → g.advice.action ≡ rejecting
    → ltb_ℤ (pos 0) g.advice.price ≡ true
    → is_confidence py g.advice.confidence ≡ true
    → process_turn py least g t s ≡ (ok (rejection t (next_proposer s) g.advice s, true), s)
unfolding process_turn
process_turn-rejecting py least g t s e r p c =
    rw (e, own_turn s) (take_turn-rejecting py least g (next_proposer s) t s r p c)

-- The offer of a rejection goes into the session, and the session is closed as agreed.
enter-agreement :
    (py : Python) (t : Stamps) (o : Offer) (s : NegotiationSession)
    → is_active s.status ≡ true
    → s.round_count < max_rounds
    → o.session_id ≡ s.id
    → handler_of (reasoning_of o) s.stall_counter ≡ by_agreement
    → let r = (enter py t o true (add_offer o t.added t.added' s)).1 in
      (r.status ≡ agreed)
      × (r.agreed_price ≡ some (record { amount = o.price.amount; currency = inr }))
unfolding end_turn add_offer
enter-agreement py t o s a n i h = ground (arith, h)

-- A REJECT with a positive price and a confidence that an offer accepts, from 0 to 1, on an active and
-- unexpired session with fewer than 20 rounds and a stall counter below 3, ends the session as AGREED at that price, if the reasoning with the prefix
-- `REJECT: ` contains none of REJECTED, WALK_AWAY, POLICY_BREACH and TIMEOUT, which the prefix is not.
pub rejection_agrees :
    (py : Python) (least : ℤ) (g : Agents) (t : Stamps) (s : NegotiationSession)
    → is_active s.status ≡ true
    → s.round_count < max_rounds
    → is_expired t.checked s ≡ false
    → is_expired t.now s ≡ false
    → g.advice.action ≡ rejecting
    → ltb_ℤ (pos 0) g.advice.price ≡ true
    → is_confidence py g.advice.confidence ≡ true
    → HasNoKeyword (codes "REJECT: " ++ g.advice.reasoning)
    → s.stall_counter < 3
    → let r = (run_agent_turn py least g t s).1 in
      (r.status ≡ agreed)
      × (r.agreed_price ≡ some (record { amount = pos_part g.advice.price; currency = inr }))
unfolding run_agent_turn
rejection_agrees py least g t s a n e₀ e₁ r p c k h =
    rw (a, e₀, process_turn-rejecting py least g t s e₁ r p c)
      (enter-agreement py t (rejection t (next_proposer s) g.advice s) s a n refl
        (handler_of-agreement (codes "REJECT: " ++ g.advice.reasoning) s.stall_counter k h))
