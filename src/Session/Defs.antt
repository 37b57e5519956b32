-- ===== src/Session/Defs.antt =====
-- `SessionStatus`, `NegotiationSession` and the domain events (backend/src/negotiation/domain/session.py
-- and events.py), and `Offer` (offer.py). UUIDs and times are numbers, an amount is a number of the
-- smallest unit of its currency, JSON values are texts, a confidence is the multiple of
-- 2^-1074 that its float is.
use cadencia_a2a_platform.Prelude.{ℕ, Bool, true, false, Option, none, List, []}
use cadencia_a2a_platform.Prelude.Texts.{Text}

abbrev pub max_rounds : ℕ
max_rounds = 20

abbrev pub stall_rounds : ℕ
stall_rounds = 3

abbrev pub max_schema_failures : ℕ
max_schema_failures = 3

pub data SessionStatus : Type 0 where
  init buyer_anchor seller_response round_loop agreed walk_away stalled timeout policy_breach :
      SessionStatus
  active failed expired human_review : SessionStatus

-- `_ACTIVE_STATES`
abbrev pub is_active : SessionStatus → Bool
is_active init = true
is_active buyer_anchor = true
is_active seller_response = true
is_active round_loop = true
is_active active = true
is_active _ = false

-- `_TERMINAL_STATES`
abbrev pub is_terminal : SessionStatus → Bool
is_terminal agreed = true
is_terminal walk_away = true
is_terminal timeout = true
is_terminal policy_breach = true
is_terminal failed = true
is_terminal expired = true
is_terminal _ = false

abbrev pub is_human_review : SessionStatus → Bool
is_human_review human_review = true
is_human_review _ = false

pub data ProposerRole : Type 0 where
  buyer seller : ProposerRole

abbrev pub role_eq : ProposerRole → ProposerRole → Bool
role_eq buyer buyer = true
role_eq seller seller = true
role_eq _ _ = false

pub data Currency : Type 0 where
  inr usdc : Currency

pub record OfferValue : Type 0 where
  pub amount : ℕ
  pub currency : Currency

pub record Offer : Type 0 where
  pub id : ℕ
  pub session_id : ℕ
  pub round_number : ℕ
  pub proposer_role : ProposerRole
  pub price : OfferValue
  pub terms : Text
  pub confidence : Option ℕ
  pub agent_reasoning : Option Text
  pub is_human_override : Bool

pub record NegotiationSession : Type 0 where
  pub id : ℕ
  pub created_at : ℕ
  pub updated_at : ℕ
  pub rfq_id : ℕ
  pub match_id : ℕ
  pub buyer_enterprise_id : ℕ
  pub seller_enterprise_id : ℕ
  pub status : SessionStatus
  pub agreed_price : Option OfferValue
  pub agreed_terms : Option Text
  pub round_count : ℕ
  pub offers : List Offer
  pub completed_at : Option ℕ
  pub expires_at : ℕ
  pub schema_failure_count : ℕ
  pub stall_counter : ℕ

pub data SessionEvent : Type 0 where
  session_created :
      (session_id rfq_id match_id buyer_enterprise_id seller_enterprise_id : ℕ) → SessionEvent
  offer_submitted :
      (session_id offer_id round_number : ℕ) (proposer_role : ProposerRole) (price : ℕ)
      (is_human_override : Bool)
      → SessionEvent
  session_agreed :
      (session_id rfq_id match_id buyer_enterprise_id seller_enterprise_id : ℕ)
      (agreed_price : OfferValue) (agreed_terms : Text)
      → SessionEvent
  session_failed : (session_id : ℕ) (reason : Text) (round_count : ℕ) → SessionEvent
  session_escalated : (session_id round_count : ℕ) → SessionEvent
  session_expired : (session_id : ℕ) → SessionEvent

-- A session as `NegotiationService.create_session` constructs it, before it is activated.
unfoldable pub new_session : ℕ → ℕ → ℕ → ℕ → ℕ → ℕ → ℕ → NegotiationSession
new_session id now rfq match_id buyer_id seller_id expires = record {
  id = id;
  created_at = now;
  updated_at = now;
  rfq_id = rfq;
  match_id = match_id;
  buyer_enterprise_id = buyer_id;
  seller_enterprise_id = seller_id;
  status = init;
  agreed_price = none;
  agreed_terms = none;
  round_count = 0;
  offers = [];
  completed_at = none;
  expires_at = expires;
  schema_failure_count = 0;
  stall_counter = 0;
}
