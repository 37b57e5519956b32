-- ===== src/Engine/Veto.antt =====
-- What the fourth layer of backend/src/negotiation/infrastructure/neutral_engine.py lets through.
use cadencia_a2a_platform.Prelude.{◌≡◌, ◌⊎◌, Bool, true, arith}
use cadencia_a2a_platform.Prelude.Int.{◌≤ℤ◌, ℤ}
use cadencia_a2a_platform.Prelude.Texts.{Text}
use cadencia_a2a_platform.Errors.{ok}
use cadencia_a2a_platform.Session.{NegotiationSession, buyer, seller}
use cadencia_a2a_platform.Engine.Guardrails.{proposes, Python}
use cadencia_a2a_platform.Engine.Defs.{decide, AgentProfile, Advice, Stamps, decided}

-- Where the model's action is the word OFFER or COUNTER, whatever prices the model and the strategy
-- propose, the price that is decided for a buyer is not above the buyer's budget ceiling.
pub buyer_price_capped :
    (py : Python) (least : ℤ) (p : AgentProfile) (a : Advice) (t : Stamps) (s : NegotiationSession)
    {price : ℤ} {terminal : Bool} {reasoning : Text}
    → proposes a.action ≡ true
    → (decide py least p a buyer t s).0 ≡ ok (decided price terminal reasoning)
    → price ≤ℤ p.budget_ceiling
unfolding decide
buyer_price_capped py least p a t s h d = ground arith

-- The price of a seller's offer or counter is the strategy's, or the model's and then not below the
-- reservation price.
seller_price_reserved :
    (py : Python) (least : ℤ) (p : AgentProfile) (a : Advice) (t : Stamps) (s : NegotiationSession)
    {price : ℤ} {terminal : Bool} {reasoning : Text}
    → proposes a.action ≡ true
    → (decide py least p a seller t s).0 ≡ ok (decided price terminal reasoning)
    → (price ≡ a.suggested_price) ⊎ ((price ≡ a.price) × (a.reservation_price ≤ℤ price))
unfolding decide
seller_price_reserved py least p a t s h d = ground arith
