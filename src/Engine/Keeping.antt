-- ===== src/Engine/Keeping.antt =====
-- What the engine's part of a turn (`process_turn` of
-- backend/src/negotiation/infrastructure/neutral_engine.py) keeps of the session: all that the three
-- counters' methods keep.
use cadencia_a2a_platform.Prelude.{
  ℕ, Bool, true, false, Option, none, some, List, arith, if◌then◌else◌, last?,
}
use cadencia_a2a_platform.Prelude.Int.{ℤ}
use cadencia_a2a_platform.Errors.{Result, ok, err}
use cadencia_a2a_platform.Session.{
  Offer, NegotiationSession, ProposerRole, buyer, seller, record_schema_failure,
  record_no_concession, reset_stall_counter, get_buyer_prices, get_seller_prices, is_expired,
  next_proposer, check_turn_order,
}
use cadencia_a2a_platform.Engine.Guardrails.{
  check_envelope, Python, ActionEnvelope, Action, accepting, rejecting, unknown, ViolationType,
}
use cadencia_a2a_platform.Engine.Defs.{
  envelope_of, override, guarded, decide_on, decide, note_change, conclude, AgentProfile, Advice,
  Stamps, Decision, breach, decided,
}
use cadencia_a2a_platform.Engine.Service.{
  profile_of, placed, concluded, after_decision, take_turn, in_turn, process_turn, Agents,
}

module _ (P : NegotiationSession → Type 0)
    (counted : (now : ℕ) (s : NegotiationSession) → P s → P (record_schema_failure now s).1)
    (no_concession : (now : ℕ) (s : NegotiationSession) → P s → P (record_no_concession now s).1)
    (reset : (now : ℕ) (s : NegotiationSession) → P s → P (reset_stall_counter now s)) where
  override_keeps :
      (p : AgentProfile) (a : Advice) (role : ProposerRole) (t : Stamps) (vs : List ViolationType)
      (s : NegotiationSession)
      → P s
      → P (override p a role t vs s).1
  override_keeps p a role t vs s h = ground (arith, counted t.counted s h)

  guarded_keeps :
      (py : Python) (least : ℤ) (p : AgentProfile) (a : Advice) (role : ProposerRole) (t : Stamps)
      (r : Result ActionEnvelope) (s : NegotiationSession)
      → P s
      → P (guarded py least p a role t r s).1
  guarded_keeps py least p a role t (err x) s h = h
  guarded_keeps py least p a role t (ok e) s h = override_keeps p a role t _ s h

  decide_on_keeps :
      (action : Action) (py : Python) (least : ℤ) (p : AgentProfile) (a : Advice)
      (role : ProposerRole) (t : Stamps) (s : NegotiationSession)
      → P s
      → P (decide_on action py least p a role t s).1
  unfolding decide_on
  decide_on_keeps accepting py least p a role t s h = h
  decide_on_keeps rejecting py least p a role t s h = h
  decide_on_keeps (unknown word) py least p a role t s h = h
  decide_on_keeps proposal py least p a role t s h =
      guarded_keeps py least p a role t (check_envelope py (envelope_of a role t s)) s h

  note_change_keeps :
      (py : Python) (last : Option ℕ) (price now : ℕ) (s : NegotiationSession)
      → P s
      → P (note_change py last price now s)
  note_change_keeps py none price now s h = reset now s h
  note_change_keeps py (some last) price now s h =
      ground (arith, no_concession now s h, reset now s h)

  conclude_keeps :
      (py : Python) (p : AgentProfile) (role : ProposerRole) (t : Stamps) (o : Offer)
      (terminal : Bool) (s : NegotiationSession)
      → P s
      → P (conclude py p role t o terminal s).1
  unfolding conclude
  conclude_keeps py p role t o true s h = h
  conclude_keeps py p buyer t o false s h =
      note_change_keeps py (last? (get_buyer_prices s)) o.price.amount t.tracked s h
  conclude_keeps py p seller t o false s h =
      note_change_keeps py (last? (get_seller_prices s)) o.price.amount t.tracked s h

  placed_keeps :
      (terminal : Bool) (r : Result Offer) (s : NegotiationSession)
      → P s
      → P (placed terminal r s).1
  placed_keeps terminal (ok o) s h = h
  placed_keeps terminal (err x) s h = h

  concluded_keeps :
      (py : Python) (p : AgentProfile) (role : ProposerRole) (t : Stamps) (terminal : Bool)
      (r : Result Offer) (s : NegotiationSession)
      → P s
      → P (concluded py p role t terminal r s).1
  concluded_keeps py p role t terminal (ok o) s h = conclude_keeps py p role t o terminal s h
  concluded_keeps py p role t terminal (err x) s h = h

  after_decision_keeps :
      (py : Python) (p : AgentProfile) (a : Advice) (role : ProposerRole) (t : Stamps)
      (d : Result Decision) (s : NegotiationSession)
      → P s
      → P (after_decision py p a role t d s).1
  after_decision_keeps py p a role t (err x) s h = h
  after_decision_keeps py p a role t (ok breach) s h = placed_keeps true _ s h
  after_decision_keeps py p a role t (ok (decided price terminal reasoning)) s h =
      concluded_keeps py p role t terminal _ s h

  take_turn_keeps :
      (py : Python) (least : ℤ) (g : Agents) (role : ProposerRole) (t : Stamps)
      (s : NegotiationSession)
      → P s
      → P (take_turn py least g role t s).1
  take_turn_keeps py least g role t s h =
      after_decision_keeps py (profile_of role g) g.advice role t
        (decide py least (profile_of role g) g.advice role t s).0
        (decide py least (profile_of role g) g.advice role t s).1
        (unfold decide in
          decide_on_keeps g.advice.action py least (profile_of role g) g.advice role t s h)

  in_turn_keeps :
      (py : Python) (least : ℤ) (g : Agents) (role : ProposerRole) (t : Stamps)
      (r : Result (Unit {0})) (s : NegotiationSession)
      → P s
      → P (in_turn py least g role t r s).1
  in_turn_keeps py least g role t (err x) s h = h
  in_turn_keeps py least g role t (ok u) s h = take_turn_keeps py least g role t s h

  either_keeps :
      {A : Type 0} (b : Bool) (x y : A × NegotiationSession)
      → P x.1
      → P y.1
      → P (if b then x else y).1
  either_keeps true x y h k = h
  either_keeps false x y h k = k

  -- A turn of the engine, however it ends.
  pub process_turn_keeps :
      (py : Python) (least : ℤ) (g : Agents) (t : Stamps) (s : NegotiationSession)
      → P s
      → P (process_turn py least g t s).1
  unfolding process_turn
  process_turn_keeps py least g t s h =
      either_keeps (is_expired t.now s) _ _ (placed_keeps true _ s h) (
        in_turn_keeps py least g (next_proposer s) t (check_turn_order s.offers (next_proposer s)) s
          h)
