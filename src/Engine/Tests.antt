-- ===== src/Engine/Tests.antt =====
-- The engine's theorems at a concrete session.
use cadencia_a2a_platform.Prelude.{
  ◌+◌, ◌*◌, ◌≤◌, ◌≡◌, refl, ◌↔◌, true, false, none, some, [], ◌∷◌, arith, ltb, leb,
}
use cadencia_a2a_platform.Prelude.Int.{◌-ℤ◌, ◌≤ℤ◌, pos}
use cadencia_a2a_platform.Prelude.Texts.{codes}
use cadencia_a2a_platform.Errors.{conflict_error, ok, err}
use cadencia_a2a_platform.Engine.Termination.{turns_taken, turns-IsBounded}
use cadencia_a2a_platform.Session.{
  NegotiationSession, buyer_anchor, seller_response, agreed, stalled, human_review, buyer, seller,
  inr, is_expired,
}
use cadencia_a2a_platform.Session.Invariant.{all_own, IsValid}
use cadencia_a2a_platform.Engine.Guardrails.{Python, offering, rejecting}
use cadencia_a2a_platform.Engine.Defs.{decide, AgentProfile, Advice, Stamps, decided}
use cadencia_a2a_platform.Engine.Service.{run_agent_turn, Agents}
use cadencia_a2a_platform.Engine.Veto.{buyer_price_capped}
use cadencia_a2a_platform.Engine.Turns.{run_agent_turn-IsValid}
use cadencia_a2a_platform.Engine.Rejection.{rejection_agrees}
use cadencia_a2a_platform.Engine.Overriding.{IsTaken, Enters, is_ok, override-IsTaken_iff}
use cadencia_a2a_platform.Engine.Override.{apply_human_override, HumanOverride}

-- A confidence is given in hundredths here.
abbrev python : Python
python = record {
  one = 100;
  below_one = 99;
  margin = λ value cost. value -ℤ cost;
  within = λ d price. leb (d * 50) price;
  small_change = λ d price. ltb (d * 500) price;
  str = λ n. (b'0' + n) ∷ [];
}

abbrev stamps : Stamps
stamps = record {
  offer_id = 60;
  checked = 5;
  now = 5;
  envelope = 5;
  counted = 5;
  tracked = 6;
  added = 6;
  added' = 6;
  ended = 7;
  ended' = 7;
}

abbrev session : NegotiationSession
session = record {
  id = 7;
  created_at = 0;
  updated_at = 0;
  rfq_id = 1;
  match_id = 2;
  buyer_enterprise_id = 3;
  seller_enterprise_id = 4;
  status = buyer_anchor;
  agreed_price = none;
  agreed_terms = none;
  round_count = 0;
  offers = [];
  completed_at = none;
  expires_at = 1000;
  schema_failure_count = 0;
  stall_counter = 0;
}

abbrev profile : AgentProfile
profile = record { budget_ceiling = pos 500; margin_floor = pos 10; stall_threshold = 10 }

-- The model asks for more than the ceiling, as does the strategy.
abbrev greedy : Advice
greedy = record {
  reservation_price = pos 400;
  suggested_price = pos 600;
  action = offering;
  price = pos 900;
  confidence = pos 50;
  reasoning = codes "more";
  strategy_tag = codes "TIT_FOR_TAT";
}

abbrev agents : Advice → Agents
agents a = record { buyer_profile = profile; seller_profile = profile; advice = a }

greedy_decision :
    (decide python (pos 10) profile greedy buyer stamps session).0
    ≡ ok (decided (pos 500) false (codes "Guardrail override: more"))
unfolding decide
greedy_decision = refl

buyer_price_capped_example : pos 500 ≤ℤ pos 500
buyer_price_capped_example =
    buyer_price_capped python (pos 10) profile greedy stamps session refl greedy_decision

seller_decision :
    (decide python (pos 10) profile greedy seller stamps session).0
    ≡ ok (decided (pos 900) false (codes "more"))
unfolding decide
seller_decision = refl

session-IsValid : IsValid session
unfolding all_own
session-IsValid = ground arith

run_agent_turn-IsValid_example :
    IsValid (run_agent_turn python (pos 10) (agents greedy) stamps session).1
run_agent_turn-IsValid_example =
    run_agent_turn-IsValid python (pos 10) (agents greedy) stamps session session-IsValid

turns-IsBounded_example :
    turns_taken python (pos 10) ((agents greedy, stamps) ∷ (agents greedy, stamps) ∷ []) session
      + session.round_count
    ≤ 20
turns-IsBounded_example =
    turns-IsBounded python (pos 10) ((agents greedy, stamps) ∷ (agents greedy, stamps) ∷ []) session
      session-IsValid

abbrev refusal : Advice
refusal = record greedy { action = rejecting; reasoning = codes "too dear" }

rejection_agrees_example :
    let r = (run_agent_turn python (pos 10) (agents refusal) stamps session).1 in
    (r.status ≡ agreed) × (r.agreed_price ≡ some (record { amount = 900; currency = inr }))
unfolding is_expired
rejection_agrees_example =
    rejection_agrees python (pos 10) (agents refusal) stamps session refl (omega arith) refl refl
      refl refl refl (refl, refl, refl, refl) (omega arith)

abbrev order : HumanOverride
order = record { offer_id = 61; price = pos 450; currency = some inr; terms = codes "{}" }

abbrev waiting : NegotiationSession
waiting = record session { status = stalled }

override-IsTaken_iff_example :
    ((is_ok (apply_human_override order 5 6 7 waiting).0 ≡ true) ↔ IsTaken order waiting)
    × (Enters order waiting (apply_human_override order 5 6 7 waiting) ↔ IsTaken order waiting)
    × (waiting.status ≡ stalled
        → apply_human_override order 5 6 7 waiting ≡ (err conflict_error, waiting))
override-IsTaken_iff_example = override-IsTaken_iff order 5 6 7 waiting

abbrev under_review : NegotiationSession
under_review = record session { status = human_review }

review_override : (apply_human_override order 5 6 7 under_review).1.status ≡ seller_response
unfolding apply_human_override
review_override = refl
