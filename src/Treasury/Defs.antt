-- ===== src/Treasury/Defs.antt =====
-- `LiquidityPool` of backend/src/treasury/domain/liquidity_pool.py. A Decimal amount is an integer in
-- the smallest unit that the pool is given (Python's decimals are exact to 28 digits), a microALGO
-- amount an integer.
use cadencia_a2a_platform.Prelude.{ℕ, List, [], ◌∷◌, if◌then◌else◌}
use cadencia_a2a_platform.Prelude.Int.{◌+ℤ◌, ◌-ℤ◌, ltb_ℤ, leb_ℤ, ℤ, pos}
use cadencia_a2a_platform.Errors.{policy_violation, validation_error, Result, ok, err}

pub record LiquidityPool : Type 0 where
  pub id : ℕ
  pub created_at : ℕ
  pub updated_at : ℕ
  pub enterprise_id : ℕ
  pub inr_balance : ℤ
  pub usdc_balance : ℤ
  pub algo_balance_microalgo : ℤ
  pub last_fx_rate_inr_usd : ℤ
  pub last_rate_updated_at : ℕ

abbrev pub Outcome : Type 0
Outcome = Result (Unit {0}) × LiquidityPool

unfoldable pub deposit_inr : ℤ → ℕ → LiquidityPool → Outcome
deposit_inr amount now p =
    if leb_ℤ amount (pos 0)
    then (err validation_error, p)
    else (ok tt, record p { inr_balance = p.inr_balance +ℤ amount; updated_at = now })

unfoldable pub withdraw_inr : ℤ → ℕ → LiquidityPool → Outcome
withdraw_inr amount now p =
    if leb_ℤ amount (pos 0)
    then (err validation_error, p)
    else if ltb_ℤ p.inr_balance amount
    then (err policy_violation, p)
    else (ok tt, record p { inr_balance = p.inr_balance -ℤ amount; updated_at = now })

unfoldable pub deposit_usdc : ℤ → ℕ → LiquidityPool → Outcome
deposit_usdc amount now p =
    if leb_ℤ amount (pos 0)
    then (err validation_error, p)
    else (ok tt, record p { usdc_balance = p.usdc_balance +ℤ amount; updated_at = now })

unfoldable pub withdraw_usdc : ℤ → ℕ → LiquidityPool → Outcome
withdraw_usdc amount now p =
    if leb_ℤ amount (pos 0)
    then (err validation_error, p)
    else if ltb_ℤ p.usdc_balance amount
    then (err policy_violation, p)
    else (ok tt, record p { usdc_balance = p.usdc_balance -ℤ amount; updated_at = now })

unfoldable pub deposit_algo : ℤ → ℕ → LiquidityPool → Outcome
deposit_algo microalgo now p = if leb_ℤ microalgo (pos 0) then (err validation_error, p) else (
  ok tt,
  record p { algo_balance_microalgo = p.algo_balance_microalgo +ℤ microalgo; updated_at = now },
)

unfoldable pub withdraw_algo : ℤ → ℕ → LiquidityPool → Outcome
withdraw_algo microalgo now p =
    if leb_ℤ microalgo (pos 0)
    then (err validation_error, p)
    else if ltb_ℤ p.algo_balance_microalgo microalgo
    then (err policy_violation, p)
    else (
      ok tt,
      record p { algo_balance_microalgo = p.algo_balance_microalgo -ℤ microalgo; updated_at = now },
    )

pub record FxRateUpdated : Type 0 where
  pub enterprise_id : ℕ
  pub old_rate : ℤ
  pub new_rate : ℤ

unfoldable pub update_fx_rate : ℤ → ℕ → ℕ → LiquidityPool → FxRateUpdated × LiquidityPool
update_fx_rate rate now later p = (
  record { enterprise_id = p.enterprise_id; old_rate = p.last_fx_rate_inr_usd; new_rate = rate },
  record p { last_fx_rate_inr_usd = rate; last_rate_updated_at = now; updated_at = later },
)

-- `divide a b` is the quotient of two decimals, in the unit of the balances.
unfoldable pub total_value_inr : (ℤ → ℤ → ℤ) → LiquidityPool → ℤ
total_value_inr divide p =
    if leb_ℤ p.last_fx_rate_inr_usd (pos 0)
    then p.inr_balance
    else p.inr_balance +ℤ divide p.usdc_balance p.last_fx_rate_inr_usd

pub data Currency : Type 0 where
  inr usdc algo : Currency

-- A call of one of the methods.
pub data Movement : Type 0 where
  deposit withdraw : Currency → ℤ → Movement
  new_rate : ℤ → Movement

unfoldable pub apply : ℕ → ℕ → Movement → LiquidityPool → Outcome
unfolding deposit_inr withdraw_inr deposit_usdc withdraw_usdc deposit_algo withdraw_algo
    update_fx_rate
apply now later (deposit inr x) p = deposit_inr x now p
apply now later (deposit usdc x) p = deposit_usdc x now p
apply now later (deposit algo x) p = deposit_algo x now p
apply now later (withdraw inr x) p = withdraw_inr x now p
apply now later (withdraw usdc x) p = withdraw_usdc x now p
apply now later (withdraw algo x) p = withdraw_algo x now p
apply now later (new_rate r) p = (ok tt, (update_fx_rate r now later p).1)

abbrev pub Call : Type 0
Call = ℕ × ℕ × Movement

unfoldable pub run : List Call → LiquidityPool → LiquidityPool
run [] p = p
run ((now, later, m) ∷ ms) p = run ms (apply now later m p).1
