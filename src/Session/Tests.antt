-- ===== src/Session/Tests.antt =====
-- The session's theorems at concrete sessions, and runs of its methods.
use cadencia_a2a_platform.Prelude.{ℕ, ◌+◌, ◌≡◌, refl, false, none, some, List, [], ◌∷◌}
use cadencia_a2a_platform.Prelude.Texts.{codes}
use cadencia_a2a_platform.Session.Defs.{
  new_session, OfferValue, Offer, NegotiationSession, init, agreed, stalled, ProposerRole, buyer,
  seller, inr,
}
use cadencia_a2a_platform.Session.Queries.{get_buyer_prices, next_proposer}
use cadencia_a2a_platform.Session.Commands.{apply, Call, run, do_activate, do_offer, do_agree}
use cadencia_a2a_platform.Session.Invariant.{run-IsValid, IsValid}
use cadencia_a2a_platform.Session.Terminal.{SameOutcome, terminal_absorbs}

abbrev offer_of : ℕ → ProposerRole → ℕ → Offer
offer_of n role amount = record {
  id = 50 + n;
  session_id = 7;
  round_number = n;
  proposer_role = role;
  price = record { amount = amount; currency = inr };
  terms = codes "{}";
  confidence = none;
  agent_reasoning = none;
  is_human_override = false;
}

abbrev deal_price : OfferValue
deal_price = record { amount = 101; currency = inr }

-- An offer of another session is refused, as is an offer after the agreement.
abbrev talk : List Call
talk =
    (1, 1, do_activate)
    ∷ (2, 2, do_offer (offer_of 1 buyer 90))
    ∷ (3, 3, do_offer (record (offer_of 2 seller 110) { session_id = 8 }))
    ∷ (4, 4, do_offer (offer_of 2 seller 110))
    ∷ (5, 5, do_offer (offer_of 3 buyer 100))
    ∷ (6, 7, do_agree deal_price (codes "{}"))
    ∷ (8, 8, do_offer (offer_of 4 seller 101))
    ∷ []

abbrev fresh : NegotiationSession
fresh = record {
  id = 7;
  created_at = 0;
  updated_at = 0;
  rfq_id = 1;
  match_id = 2;
  buyer_enterprise_id = 3;
  seller_enterprise_id = 4;
  status = init;
  agreed_price = none;
  agreed_terms = none;
  round_count = 0;
  offers = [];
  completed_at = none;
  expires_at = 1000;
  schema_failure_count = 0;
  stall_counter = 0;
}

abbrev done_deal : NegotiationSession
done_deal = record fresh {
  updated_at = 7;
  status = agreed;
  agreed_price = some deal_price;
  agreed_terms = some (codes "{}");
  round_count = 3;
  offers = offer_of 1 buyer 90 ∷ offer_of 2 seller 110 ∷ offer_of 3 buyer 100 ∷ [];
  completed_at = some 6;
}

run-talk : run talk (new_session 7 0 1 2 3 4 1000) ≡ done_deal
unfolding run apply new_session
run-talk = refl

prices_of_deal : (get_buyer_prices done_deal ≡ 90 ∷ 100 ∷ []) × (next_proposer done_deal ≡ seller)
unfolding get_buyer_prices next_proposer
prices_of_deal = (refl, refl)

run-IsValid_example : IsValid (run talk (new_session 7 0 1 2 3 4 1000))
run-IsValid_example = run-IsValid talk 7 0 1 2 3 4 1000

terminal_absorbs_example : SameOutcome done_deal (run talk done_deal)
terminal_absorbs_example = terminal_absorbs talk done_deal refl

abbrev stuck : NegotiationSession
stuck = record fresh { status = stalled }
