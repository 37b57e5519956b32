-- ===== src/Enterprise/Defs.antt =====
-- `KYCStatus` and `Enterprise` of backend/src/identity/domain/enterprise.py. A Decimal is an integer in
-- its smallest unit, a JSON value a text.
use cadencia_a2a_platform.Prelude.{
  ℕ, Bool, true, false, not, Option, none, some, List, [], ◌∷◌, ◌==◌, if◌then◌else◌,
}
use cadencia_a2a_platform.Prelude.Int.{ltb_ℤ, ℤ}
use cadencia_a2a_platform.Prelude.Texts.{Text}
use cadencia_a2a_platform.Errors.{
  policy_violation, validation_error, conflict_error, Result, ok, err,
}

pub data KycStatus : Type 0 where
  pending kyc_submitted verified active : KycStatus

abbrev pub rank : KycStatus → ℕ
rank pending = 0
rank kyc_submitted = 1
rank verified = 2
rank active = 3

-- `==` of the enumeration
abbrev pub is : KycStatus → KycStatus → Bool
is s t = rank s == rank t

pub data TradeRole : Type 0 where
  buyer seller both : TradeRole

pub record Enterprise : Type 0 where
  pub id : ℕ
  pub created_at : ℕ
  pub updated_at : ℕ
  pub legal_name : Text
  pub pan : Text
  pub gstin : Text
  pub kyc_status : KycStatus
  pub trade_role : TradeRole
  pub algorand_wallet : Option Text
  pub industry_vertical : Option Text
  pub geography : Text
  pub min_order_value : Option ℤ
  pub max_order_value : Option ℤ
  pub commodities : List Text
  pub listing_active : Bool
  pub kyc_documents : Option Text
  pub agent_config : Option Text

-- The events carry the id of the enterprise; `updated` stands for a method that returns none.
pub data EnterpriseEvent : Type 0 where
  enterprise_kyc_submitted enterprise_kyc_verified enterprise_activated : ℕ → EnterpriseEvent
  updated : EnterpriseEvent

abbrev pub Outcome : Type 0
Outcome = Result EnterpriseEvent × Enterprise

unfoldable pub submit_kyc : Text → ℕ → Enterprise → Outcome
submit_kyc documents now e = if not (is e.kyc_status pending) then (err conflict_error, e) else (
  ok (enterprise_kyc_submitted e.id),
  record e { kyc_status = kyc_submitted; kyc_documents = some documents; updated_at = now },
)

unfoldable pub verify_kyc : ℕ → Enterprise → Outcome
verify_kyc now e =
    if not (is e.kyc_status kyc_submitted)
    then (err conflict_error, e)
    else (ok (enterprise_kyc_verified e.id), record e { kyc_status = verified; updated_at = now })

unfoldable pub activate : ℕ → Enterprise → Outcome
activate now e =
    if not (is e.kyc_status verified)
    then (err policy_violation, e)
    else (ok (enterprise_activated e.id), record e { kyc_status = active; updated_at = now })

-- The keys of the configuration that the method reads: absent, or with a value. The two bounds are
-- absent also where they are `None`.
pub record AgentConfig : Type 0 where
  pub min_order_value : Option ℤ
  pub max_order_value : Option ℤ
  pub industry_vertical : Option (Option Text)
  pub commodities : Option (List Text)
  pub geography : Option Text

abbrev given {ℓ} : {A : Type ℓ} → Option A → A → A
given none old = old
given (some a) old = a

abbrev given_some {ℓ} : {A : Type ℓ} → Option A → Option A → Option A
given_some none old = old
given_some (some a) old = some a

-- `min > max`, where both are set
abbrev pub crossed : Option ℤ → Option ℤ → Bool
crossed none high = false
crossed (some low) none = false
crossed (some low) (some high) = ltb_ℤ high low

-- The bounds are written before they are compared.
unfoldable pub update_agent_config : AgentConfig → ℕ → Enterprise → Outcome
update_agent_config config now e =
    let low = given_some config.min_order_value e.min_order_value in
    let high = given_some config.max_order_value e.max_order_value in
    let bounded = record e { min_order_value = low; max_order_value = high } in
    if crossed low high then (err validation_error, bounded) else (
      ok updated,
      record bounded {
        industry_vertical = given config.industry_vertical e.industry_vertical;
        commodities = given config.commodities e.commodities;
        geography = given config.geography e.geography;
        updated_at = now;
      },
    )

abbrev is_some {ℓ} : {A : Type ℓ} → Option A → Bool
is_some none = false
is_some (some a) = true

unfoldable pub link_algorand_wallet : Text → ℕ → Enterprise → Outcome
link_algorand_wallet address now e =
    if is_some e.algorand_wallet
    then (err conflict_error, e)
    else (ok updated, record e { algorand_wallet = some address; updated_at = now })

unfoldable pub unlink_algorand_wallet : ℕ → Enterprise → Outcome
unlink_algorand_wallet now e = (ok updated, record e { algorand_wallet = none; updated_at = now })

pub data Command : Type 0 where
  submit : Text → Command
  verify make_active : Command
  configure : AgentConfig → Command
  link : Text → Command
  unlink : Command

unfoldable pub apply : ℕ → Command → Enterprise → Outcome
unfolding submit_kyc verify_kyc activate update_agent_config link_algorand_wallet
    unlink_algorand_wallet
apply now (submit documents) = submit_kyc documents now
apply now verify = verify_kyc now
apply now make_active = activate now
apply now (configure config) = update_agent_config config now
apply now (link address) = link_algorand_wallet address now
apply now unlink = unlink_algorand_wallet now

unfoldable pub run : List (ℕ × Command) → Enterprise → Enterprise
run [] e = e
run ((now, c) ∷ cs) e = run cs (apply now c e).1
