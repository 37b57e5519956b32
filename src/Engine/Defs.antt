-- ===== src/Engine/Defs.antt =====
-- The fourth layer of `NeutralEngine.process_turn`, `_track_concession`, and the placeholder offers
-- (backend/src/negotiation/infrastructure/neutral_engine.py), `Offer.create_agent_offer` (offer.py), and
-- `NegotiationService.run_agent_turn` with its handlers
-- (backend/src/negotiation/application/services.py). What the valuation, the strategy and the language
-- model give for the turn are arguments.
use cadencia_a2a_platform.Prelude.{
  ℕ, ◌+◌, ◌-◌, Bool, true, false, not, ◌||◌, Option, none, some, List, [], ◌∷◌, ◌++◌, leb, ◌==◌,
  if◌then◌else◌, last?,
}
use cadencia_a2a_platform.Prelude.Int.{pos_part, ltb_ℤ, leb_ℤ, ℤ, pos}
use cadencia_a2a_platform.Prelude.Texts.{Text, codes}
use cadencia_a2a_platform.Errors.{validation_error, Result, ok, err}
use cadencia_a2a_platform.Engine.Guardrails.{
  is_confidence, check_envelope, validate_envelope, Python, ActionEnvelope, Action, accepting,
  rejecting, unknown, ViolationType,
}
use cadencia_a2a_platform.Session.{
  Offer, NegotiationSession, ProposerRole, buyer, seller, inr, record_schema_failure,
  record_no_concession, reset_stall_counter, get_last_buyer_offer, get_last_seller_offer,
  get_buyer_prices, get_seller_prices, check_stall, policy_check_convergence,
}
use cadencia_a2a_platform.Prelude.{suc}

-- The fields of an agent's profile that are read here.
pub record AgentProfile : Type 0 where
  pub budget_ceiling : ℤ
  pub margin_floor : ℤ
  pub stall_threshold : ℕ

-- What the layers before give: the valuation's reservation price, the strategy's price, and the model's
-- output, where a missing key has its default.
pub record Advice : Type 0 where
  pub reservation_price : ℤ
  pub suggested_price : ℤ
  pub action : Action
  pub price : ℤ
  pub confidence : ℤ
  pub reasoning : Text
  pub strategy_tag : Text

-- A new offer's id, and the readings of the clock in a turn, in their order.
pub record Stamps : Type 0 where
  pub offer_id : ℕ
  pub checked : ℕ
  pub now : ℕ
  pub envelope : ℕ
  pub counted : ℕ
  pub tracked : ℕ
  pub added : ℕ
  pub added' : ℕ
  pub ended : ℕ
  pub ended' : ℕ

-- A turn's decision: the placeholder for a breach, or a price.
pub data Decision : Type 0 where
  breach : Decision
  decided : (price : ℤ) (is_terminal : Bool) (reasoning : Text) → Decision

-- The budget guard: `min(price, ceiling)` where it raised.
abbrev pub capped : ProposerRole → ℤ → ℤ → ℤ
capped buyer ceiling price = if ltb_ℤ ceiling price then ceiling else price
capped seller ceiling price = price

abbrev pub ceiling_of : ProposerRole → AgentProfile → Option ℤ
ceiling_of buyer p = some p.budget_ceiling
ceiling_of seller p = none

abbrev pub floor_of : ProposerRole → AgentProfile → Option ℤ
floor_of buyer p = none
floor_of seller p = some p.margin_floor

abbrev pub envelope_of : Advice → ProposerRole → Stamps → NegotiationSession → ActionEnvelope
envelope_of a role t s = record {
  session_id = s.id;
  agent_role = role;
  round = s.round_count + 1;
  action = a.action;
  offer_value = a.price;
  confidence = a.confidence;
  strategy_tag = a.strategy_tag;
  rationale = a.reasoning;
  timestamp = t.envelope;
}

-- After the guardrails: the model's price, or the strategy's and a failure counted.
abbrev pub override :
    AgentProfile
    → Advice
    → ProposerRole
    → Stamps
    → List ViolationType
    → NegotiationSession
    → Result Decision × NegotiationSession
override p a role t [] s =
    (ok (decided (capped role p.budget_ceiling a.price) false a.reasoning), s)
override p a role t (v ∷ vs) s =
    let (limit, s') = record_schema_failure t.counted s in
    if limit then (ok breach, s') else (
      ok (
          decided (capped role p.budget_ceiling a.suggested_price) false
            (codes "Guardrail override: " ++ a.reasoning)),
      s',
    )

-- The branch for OFFER and COUNTER, once the envelope is checked.
abbrev pub guarded :
    Python
    → ℤ
    → AgentProfile
    → Advice
    → ProposerRole
    → Stamps
    → Result ActionEnvelope
    → NegotiationSession
    → Result Decision × NegotiationSession
guarded py least p a role t (err x) s = (err x, s)
guarded py least p a role t (ok e) s =
    override p a role t
      (validate_envelope py least e a.reservation_price (ceiling_of role p) none (floor_of role p))
      s

abbrev last_counter : ProposerRole → NegotiationSession → Option Offer
last_counter buyer s = get_last_seller_offer s
last_counter seller s = get_last_buyer_offer s

abbrev pub counter_price : Option Offer → ℤ → ℤ
counter_price none price = price
counter_price (some o) price = pos o.price.amount

-- The branches of the action.
unfoldable pub decide_on :
    Action
    → Python
    → ℤ
    → AgentProfile
    → Advice
    → ProposerRole
    → Stamps
    → NegotiationSession
    → Result Decision × NegotiationSession
unfolding check_envelope validate_envelope record_schema_failure get_last_buyer_offer
    get_last_seller_offer
decide_on accepting py least p a role t s =
    (ok (decided (counter_price (last_counter role s) a.price) true a.reasoning), s)
decide_on rejecting py least p a role t s = (
  ok (
      decided (if ltb_ℤ (pos 0) a.price then a.price else pos (suc py.below_one)) true
        (codes "REJECT: " ++ a.reasoning)),
  s,
)
decide_on (unknown word) py least p a role t s = (ok (decided a.price false a.reasoning), s)
decide_on proposal py least p a role t s =
    guarded py least p a role t (check_envelope py (envelope_of a role t s)) s

unfoldable pub decide :
    Python
    → ℤ
    → AgentProfile
    → Advice
    → ProposerRole
    → Stamps
    → NegotiationSession
    → Result Decision × NegotiationSession
unfolding decide_on
decide py least p a role t s = decide_on a.action py least p a role t s

-- `Offer.create_agent_offer` in rupees, with the checks of `OfferValue` and `Confidence`
unfoldable pub create_agent_offer : Python → ℕ → ℕ → ℕ → ProposerRole → ℤ → ℤ → Text → Result Offer
create_agent_offer py id session round role price confidence reasoning =
    if leb_ℤ price (pos 0)
    then err validation_error
    else if not (is_confidence py confidence)
    then err validation_error
    else ok (record {
      id = id;
      session_id = session;
      round_number = round;
      proposer_role = role;
      price = record { amount = pos_part price; currency = inr };
      terms = codes "{}";
      confidence = some (pos_part confidence);
      agent_reasoning = some reasoning;
      is_human_override = false;
    })

abbrev my_prices : ProposerRole → NegotiationSession → List ℕ
my_prices buyer s = get_buyer_prices s
my_prices seller s = get_seller_prices s

abbrev gap : ℕ → ℕ → ℕ
gap a b = if leb b a then a - b else b - a

abbrev pub note_change : Python → Option ℕ → ℕ → ℕ → NegotiationSession → NegotiationSession
note_change py none price now s = reset_stall_counter now s
note_change py (some last) price now s =
    if last == 0
    then reset_stall_counter now s
    else if py.small_change (gap price last) last
    then (record_no_concession now s).1
    else reset_stall_counter now s

unfoldable pub track_concession :
    Python → ProposerRole → ℕ → ℕ → NegotiationSession → NegotiationSession
unfolding get_buyer_prices get_seller_prices reset_stall_counter record_no_concession
track_concession py role price now s = note_change py (last? (my_prices role s)) price now s

abbrev amount_of : Option Offer → Option ℕ
amount_of none = none
amount_of (some o) = some o.price.amount

abbrev converges : Python → ProposerRole → ℕ → NegotiationSession → Bool
converges py buyer price s =
    policy_check_convergence py.within (some price) (amount_of (get_last_seller_offer s))
converges py seller price s =
    policy_check_convergence py.within (amount_of (get_last_buyer_offer s)) (some price)

-- The end of `process_turn`: the counters, and whether the turn ends the negotiation.
unfoldable pub conclude :
    Python
    → AgentProfile
    → ProposerRole
    → Stamps
    → Offer
    → Bool
    → NegotiationSession
    → (Offer × Bool) × NegotiationSession
unfolding track_concession policy_check_convergence get_last_buyer_offer get_last_seller_offer
    check_stall
conclude py p role t o true s = ((o, true), s)
conclude py p role t o false s =
    let s' = track_concession py role o.price.amount t.tracked s in
    (
      (
        o,
        converges py role o.price.amount s' || check_stall (s'.round_count + 1) p.stall_threshold,
      ),
      s',
    )
