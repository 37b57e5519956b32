-- ===== src/Treasury/Balances.antt =====
-- The balances of a pool (backend/src/treasury/domain/liquidity_pool.py) over any sequence of calls.
use cadencia_a2a_platform.Prelude.{ℕ, ◌≡◌, Bool, true, false, List, [], ◌∷◌, arith, if◌then◌else◌}
use cadencia_a2a_platform.Prelude.Int.{◌+ℤ◌, ◌-ℤ◌, ◌≤ℤ◌, int_laws, ℤ, pos}
use cadencia_a2a_platform.Errors.{policy_violation, validation_error, Result, ok, err}
use cadencia_a2a_platform.Treasury.Defs.{
  apply, Call, run, LiquidityPool, Currency, inr, usdc, algo, Movement, deposit, withdraw, new_rate,
}

abbrev pub balance : Currency → LiquidityPool → ℤ
balance inr p = p.inr_balance
balance usdc p = p.usdc_balance
balance algo p = p.algo_balance_microalgo

-- `LiquidityBalance.__post_init__` of value_objects.py: no balance is negative.
pub record IsSolvent (p : LiquidityPool) : Type 0 where
  pub inr_covered : pos 0 ≤ℤ p.inr_balance
  pub usdc_covered : pos 0 ≤ℤ p.usdc_balance
  pub algo_covered : pos 0 ≤ℤ p.algo_balance_microalgo

pub apply-IsSolvent :
    (now later : ℕ) (m : Movement) (p : LiquidityPool)
    → IsSolvent p
    → IsSolvent (apply now later m p).1
unfolding apply
apply-IsSolvent now later (deposit inr x) p h = grind int_laws
apply-IsSolvent now later (deposit usdc x) p h = grind int_laws
apply-IsSolvent now later (deposit algo x) p h = grind int_laws
apply-IsSolvent now later (withdraw inr x) p h = grind int_laws
apply-IsSolvent now later (withdraw usdc x) p h = grind int_laws
apply-IsSolvent now later (withdraw algo x) p h = grind int_laws
apply-IsSolvent now later (new_rate r) p h = ground arith

-- What a movement is to change in a currency, and what it did change: nothing if it raised.
abbrev same : Currency → Currency → Bool
same inr inr = true
same usdc usdc = true
same algo algo = true
same _ _ = false

abbrev pub signed : Currency → Movement → ℤ
signed c (deposit d x) = if same c d then x else pos 0
signed c (withdraw d x) = if same c d then pos 0 -ℤ x else pos 0
signed c (new_rate r) = pos 0

abbrev pub effect : Result (Unit {0}) → ℤ → ℤ
effect (ok u) x = x
effect (err e) x = pos 0

abbrev pub net : Currency → List Call → LiquidityPool → ℤ
net c [] p = pos 0
net c ((now, later, m) ∷ ms) p =
    effect (apply now later m p).0 (signed c m) +ℤ net c ms (apply now later m p).1

apply-balance :
    (c : Currency) (now later : ℕ) (m : Movement) (p : LiquidityPool)
    → balance c (apply now later m p).1 ≡ balance c p +ℤ effect (apply now later m p).0 (signed c m)
unfolding apply
apply-balance inr now later (deposit inr x) p = grind int_laws
apply-balance inr now later (withdraw inr x) p = grind int_laws
apply-balance usdc now later (deposit usdc x) p = grind int_laws
apply-balance usdc now later (withdraw usdc x) p = grind int_laws
apply-balance algo now later (deposit algo x) p = grind int_laws
apply-balance algo now later (withdraw algo x) p = grind int_laws
apply-balance c now later m p = grind int_laws

balance-run :
    (c : Currency) (ms : List Call) (p : LiquidityPool)
    → balance c (run ms p) ≡ balance c p +ℤ net c ms p
unfolding run
balance-run c [] p = omega int_laws
balance-run c ((now, later, m) ∷ ms) p =
    rw (balance-run c ms (apply now later m p).1, apply-balance c now later m p) (omega int_laws)

run-IsSolvent : (ms : List Call) (p : LiquidityPool) → IsSolvent p → IsSolvent (run ms p)
unfolding run
run-IsSolvent [] p h = h
run-IsSolvent ((now, later, m) ∷ ms) p h =
    run-IsSolvent ms (apply now later m p).1 (apply-IsSolvent now later m p h)

-- From a pool with no negative balance, any deposits, withdrawals and rate updates in any currencies,
-- refused ones included, lead to a pool with no negative balance, whose balance in each currency is
-- the one before plus the deposits and minus the withdrawals of that currency that did not raise.
pub run_accounts :
    (ms : List Call) (p : LiquidityPool) (c : Currency)
    → IsSolvent p
    → IsSolvent (run ms p) × (balance c (run ms p) ≡ balance c p +ℤ net c ms p)
run_accounts ms p c h = (run-IsSolvent ms p h, balance-run c ms p)

-- A withdrawal raises `ValidationError` for an amount of zero or less and `PolicyViolation` for one
-- above the balance, leaving the pool as it was; otherwise it succeeds.
pub withdraw_outcomes :
    (c : Currency) (x : ℤ) (now later : ℕ) (p : LiquidityPool)
    → (x ≤ℤ pos 0 → apply now later (withdraw c x) p ≡ (err validation_error, p))
      × (pos 1 ≤ℤ x
          → ¬ (x ≤ℤ balance c p)
          → apply now later (withdraw c x) p ≡ (err policy_violation, p))
      × (pos 1 ≤ℤ x → x ≤ℤ balance c p → (apply now later (withdraw c x) p).0 ≡ ok tt)
unfolding apply
withdraw_outcomes inr x now later p = (λ h. ground arith, λ h k. ground arith, λ h k. ground arith)
withdraw_outcomes usdc x now later p = (λ h. ground arith, λ h k. ground arith, λ h k. ground arith)
withdraw_outcomes algo x now later p = (λ h. ground arith, λ h k. ground arith, λ h k. ground arith)
