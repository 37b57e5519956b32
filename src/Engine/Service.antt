-- ===== src/Engine/Service.antt =====
-- `NeutralEngine.process_turn` as a whole (backend/src/negotiation/infrastructure/neutral_engine.py), and
-- `NegotiationService.run_agent_turn` with its handlers, on a session that was found
-- (backend/src/negotiation/application/services.py). Persistence, events and metrics are left out.
use cadencia_a2a_platform.Prelude.{
  ℕ, ◌+◌, Bool, true, false, not, ◌&&◌, ◌||◌, none, some, [], ◌∷◌, ◌++◌, leb, ◌==◌, if◌then◌else◌,
}
use cadencia_a2a_platform.Prelude.Int.{ℤ, pos}
use cadencia_a2a_platform.Prelude.Texts.{Text, codes}
use cadencia_a2a_platform.Errors.{conflict_error, Result, ok, err}
use cadencia_a2a_platform.Session.{
  is_active, Offer, NegotiationSession, ProposerRole, buyer, seller, inr, SessionEvent, Outcome,
  add_offer, mark_agreed, mark_walk_away, mark_stalled, escalate_to_human_review, mark_timeout,
  mark_policy_breach, is_expired, next_proposer, check_turn_order,
}
use cadencia_a2a_platform.Engine.Guardrails.{Python}
use cadencia_a2a_platform.Engine.Defs.{
  decide, create_agent_offer, conclude, AgentProfile, Advice, Stamps, Decision, breach, decided,
}
use cadencia_a2a_platform.Prelude.{suc}

-- What the two agents bring to a turn: the profiles, and the advice that the layers give the one whose
-- turn it is.
pub record Agents : Type 0 where
  pub buyer_profile : AgentProfile
  pub seller_profile : AgentProfile
  pub advice : Advice

abbrev pub profile_of : ProposerRole → Agents → AgentProfile
profile_of buyer g = g.buyer_profile
profile_of seller g = g.seller_profile

-- The offer of a turn and whether it ends the negotiation, or an exception.
abbrev pub Turn : Type 0
Turn = Result (Offer × Bool) × NegotiationSession

abbrev pub placed : Bool → Result Offer → NegotiationSession → Turn
placed terminal (err x) s = (err x, s)
placed terminal (ok o) s = (ok (o, terminal), s)

abbrev pub concluded :
    Python → AgentProfile → ProposerRole → Stamps → Bool → Result Offer → NegotiationSession → Turn
concluded py p role t terminal (err x) s = (err x, s)
concluded py p role t terminal (ok o) s =
    let (r, s') = conclude py p role t o terminal s in (ok r, s')

-- `_create_timeout_offer` and `_create_policy_breach_offer`
abbrev pub placeholder : Python → Stamps → ProposerRole → Text → NegotiationSession → Result Offer
placeholder py t role reason s =
    create_agent_offer py t.offer_id s.id (s.round_count + 1) role (pos (suc py.below_one)) (pos 0)
      reason

abbrev pub after_decision :
    Python
    → AgentProfile
    → Advice
    → ProposerRole
    → Stamps
    → Result Decision
    → NegotiationSession
    → Turn
after_decision py p a role t (err x) s = (err x, s)
after_decision py p a role t (ok breach) s =
    placed true (placeholder py t role (codes "POLICY_BREACH: Schema validation failed 3 times.") s)
      s
after_decision py p a role t (ok (decided price terminal reasoning)) s =
    concluded py p role t terminal
      (create_agent_offer py t.offer_id s.id (s.round_count + 1) role price a.confidence reasoning)
      s

abbrev pub take_turn : Python → ℤ → Agents → ProposerRole → Stamps → NegotiationSession → Turn
take_turn py least g role t s =
    let (d, s') = decide py least (profile_of role g) g.advice role t s in
    after_decision py (profile_of role g) g.advice role t d s'

-- After `check_turn_order`.
abbrev pub in_turn :
    Python → ℤ → Agents → ProposerRole → Stamps → Result (Unit {0}) → NegotiationSession → Turn
in_turn py least g role t (err x) s = (err x, s)
in_turn py least g role t (ok u) s = take_turn py least g role t s

unfoldable pub process_turn : Python → ℤ → Agents → Stamps → NegotiationSession → Turn
unfolding is_expired next_proposer check_turn_order create_agent_offer decide conclude
process_turn py least g t s =
    if is_expired t.now s
    then placed true (placeholder py t (next_proposer s) (codes "TIMEOUT: Session TTL expired.") s)
        s
    else in_turn py least g (next_proposer s) t (check_turn_order s.offers (next_proposer s)) s

-- `prefix` at the start, and `part in text`
abbrev starts_with : Text → Text → Bool
starts_with [] text = true
starts_with (c ∷ part) [] = false
starts_with (c ∷ part) (d ∷ text) = (c == d) && starts_with part text

abbrev pub contains : Text → Text → Bool
contains part [] = starts_with part []
contains part (d ∷ text) = starts_with part (d ∷ text) || contains part text

abbrev pub closed : {A : Type 0} → Offer → Outcome A → Result Offer × NegotiationSession
closed o (err x, s) = (err x, s)
closed o (ok event, s) = (ok o, s)

-- `_handle_stall`
abbrev pub handle_stall : Offer → Stamps → Outcome SessionEvent → Result Offer × NegotiationSession
handle_stall o t (err x, s) = (err x, s)
handle_stall o t (ok event, s) = closed o (escalate_to_human_review t.ended' s)

-- `offer.agent_reasoning or ""`
abbrev pub reasoning_of : Offer → Text
reasoning_of o = elim (o.agent_reasoning) [ none ↦ [] | some r ↦ r ]

-- The handlers of the service, and which of them a turn that ends the negotiation is given to, by what
-- the offer's reasoning contains and by the stall counter.
pub data Handler : Type 0 where
  by_walk_away by_policy_breach by_timeout by_stall by_agreement : Handler

unfoldable pub handler_of : Text → ℕ → Handler
handler_of reasoning stalls =
    if contains (codes "REJECTED") reasoning || contains (codes "WALK_AWAY") reasoning
    then by_walk_away
    else if contains (codes "POLICY_BREACH") reasoning
    then by_policy_breach
    else if contains (codes "TIMEOUT") reasoning
    then by_timeout
    else if leb 3 stalls
    then by_stall
    else by_agreement

unfoldable pub handle :
    Handler → Python → Stamps → Offer → NegotiationSession → Result Offer × NegotiationSession
unfolding mark_walk_away mark_policy_breach mark_timeout mark_stalled escalate_to_human_review
    mark_agreed
handle by_walk_away py t o s =
    closed o
      (mark_walk_away (codes "Agent rejected at round " ++ py.str s.round_count) t.ended t.ended' s)
handle by_policy_breach py t o s =
    closed o (mark_policy_breach (codes "Schema validation failed 3x") t.ended t.ended' s)
handle by_timeout py t o s = closed o (mark_timeout t.ended t.ended' s)
handle by_stall py t o s = handle_stall o t (mark_stalled t.ended s)
handle by_agreement py t o s = closed o (
    mark_agreed (record { amount = o.price.amount; currency = inr }) (codes "{}") t.ended t.ended'
      s)

unfoldable pub end_turn :
    Python → Stamps → Offer → NegotiationSession → Result Offer × NegotiationSession
unfolding handler_of handle
end_turn py t o s = handle (handler_of (reasoning_of o) s.stall_counter) py t o s

-- The offer goes into the session, and a terminal one ends it.
abbrev pub enter :
    Python → Stamps → Offer → Bool → Outcome SessionEvent → Result Offer × NegotiationSession
enter py t o terminal (err x, s) = (err x, s)
enter py t o false (ok event, s) = (ok o, s)
enter py t o true (ok event, s) = end_turn py t o s

abbrev pub after_turn : Python → Stamps → Turn → Result Offer × NegotiationSession
after_turn py t (err x, s) = (err x, s)
after_turn py t (ok (o, terminal), s) = enter py t o terminal (add_offer o t.added t.added' s)

unfoldable pub run_agent_turn :
    Python → ℤ → Agents → Stamps → NegotiationSession → Result Offer × NegotiationSession
unfolding is_expired mark_timeout process_turn end_turn add_offer
run_agent_turn py least g t s =
    if not (is_active s.status)
    then (err conflict_error, s)
    else if is_expired t.checked s
    then (err conflict_error, (mark_timeout t.ended t.ended' s).1)
    else after_turn py t (process_turn py least g t s)
