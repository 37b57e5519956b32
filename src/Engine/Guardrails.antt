-- ===== src/Engine/Guardrails.antt =====
-- `ActionEnvelope`, `GuardrailEngine.validate_envelope` and `enforce` of
-- backend/src/negotiation/domain/guardrails.py. A price is an integer in its smallest unit. A finite
-- float is a multiple of 2^-1074, and a confidence is given as that multiple. A violation is given by
-- its type; its message and its field name are left out.
use cadencia_a2a_platform.Prelude.{
  ℕ, Bool, true, false, not, ◌&&◌, ◌||◌, Option, none, some, List, [], ◌∷◌, ◌++◌, ◌==◌,
  if◌then◌else◌,
}
use cadencia_a2a_platform.Prelude.Int.{ltb_ℤ, leb_ℤ, ℤ, pos, negsuc}
use cadencia_a2a_platform.Prelude.Texts.{Text}
use cadencia_a2a_platform.Errors.{policy_violation, validation_error, Result, ok, err}
use cadencia_a2a_platform.Session.{ProposerRole, buyer, seller}

-- How prices and confidences are counted, and what Python computes on floats and decimals: the multiple
-- that stands for 1.0, how many of the smallest unit of a price lie below Decimal('1'), the margin of an offer
-- over a cost in percent, whether a gap is within the tolerance of a price, whether a change of a
-- price is below 0.2 per cent of it, and the digits of a number.
pub record Python : Type 0 where
  pub one : ℕ
  pub below_one : ℕ
  pub margin : ℤ → ℤ → ℤ
  pub within : ℕ → ℕ → Bool
  pub small_change : ℕ → ℕ → Bool
  pub str : ℕ → Text

-- The action that a text spells, without regard to case.
pub data Action : Type 0 where
  offering countering accepting rejecting : Action
  unknown : (word : Text) → Action

pub record ActionEnvelope : Type 0 where
  pub session_id : ℕ
  pub agent_role : ProposerRole
  pub round : ℕ
  pub action : Action
  pub offer_value : ℤ
  pub confidence : ℤ
  pub strategy_tag : Text
  pub rationale : Text
  pub timestamp : ℕ

-- `_VALID_ACTIONS`
abbrev is_known : Action → Bool
is_known (unknown word) = false
is_known _ = true

-- `0.0 <= confidence <= 1.0`
abbrev pub is_confidence : Python → ℤ → Bool
is_confidence py c = leb_ℤ (pos 0) c && leb_ℤ c (pos py.one)

-- `ActionEnvelope.__post_init__`, for a role and a round that are of their types
unfoldable pub check_envelope : Python → ActionEnvelope → Result ActionEnvelope
check_envelope py e =
    if not (is_known e.action)
    then err validation_error
    else if ltb_ℤ e.offer_value (pos 0)
    then err validation_error
    else if not (is_confidence py e.confidence)
    then err validation_error
    else ok e

pub data ViolationType : Type 0 where
  below_reservation budget_exceeded margin_violation invalid_schema out_of_turn : ViolationType
  stall_detected confidence_too_low : ViolationType

-- `action.lower() in ("offer", "counter")`
abbrev pub proposes : Action → Bool
proposes offering = true
proposes countering = true
proposes _ = false

abbrev is_reject : Action → Bool
is_reject rejecting = true
is_reject _ = false

abbrev is_zero : ℤ → Bool
is_zero (pos n) = n == 0
is_zero (negsuc n) = false

-- Check 1. A ceiling of zero counts as none.
abbrev price_violations : ProposerRole → ℤ → ℤ → Option ℤ → List ViolationType
price_violations buyer value reservation none = []
price_violations buyer value reservation (some ceiling) =
    if not (is_zero ceiling) && ltb_ℤ ceiling value then budget_exceeded ∷ [] else []
price_violations seller value reservation ceiling =
    if ltb_ℤ value reservation then below_reservation ∷ [] else []

-- Check 2.
abbrev margin_violations : Python → ProposerRole → ℤ → Option ℤ → Option ℤ → List ViolationType
margin_violations py buyer value cost floor = []
margin_violations py seller value none floor = []
margin_violations py seller value (some cost) none = []
margin_violations py seller value (some cost) (some floor) =
    if ltb_ℤ (pos 0) cost && ltb_ℤ (py.margin value cost) floor then margin_violation ∷ [] else []

-- `validate_envelope` of an engine with the minimal confidence `least`
unfoldable pub validate_envelope :
    Python → ℤ → ActionEnvelope → ℤ → Option ℤ → Option ℤ → Option ℤ → List ViolationType
validate_envelope py least e reservation ceiling cost floor =
    (if proposes e.action
      then price_violations e.agent_role e.offer_value reservation ceiling
      else [])
    ++ ((if proposes e.action
          then margin_violations py e.agent_role e.offer_value cost floor
          else [])
        ++ (if ltb_ℤ e.confidence least && not (is_reject e.action)
            then confidence_too_low ∷ []
            else []))

abbrev is_critical : ViolationType → Bool
is_critical below_reservation = true
is_critical budget_exceeded = true
is_critical margin_violation = true
is_critical _ = false

abbrev has_critical : List ViolationType → Bool
has_critical [] = false
has_critical (v ∷ vs) = is_critical v || has_critical vs

unfoldable pub enforce :
    Python → ℤ → ActionEnvelope → ℤ → Option ℤ → Option ℤ → Option ℤ → Result (Unit {0})
unfolding validate_envelope
enforce py least e reservation ceiling cost floor =
    if has_critical (validate_envelope py least e reservation ceiling cost floor)
    then err policy_violation
    else ok tt
