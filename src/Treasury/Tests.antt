-- ===== src/Treasury/Tests.antt =====
-- The pool's theorem at a concrete pool, and a run of its methods.
use cadencia_a2a_platform.Prelude.{◌≤◌, ◌≡◌, refl, some, List, [], ◌∷◌, arith, All}
use cadencia_a2a_platform.Prelude.Int.{◌+ℤ◌, ◌-ℤ◌, ℤ, pos, negsuc}
use cadencia_a2a_platform.Prelude.Texts.{codes}
use cadencia_a2a_platform.Treasury.Service.{
  execute, Books, Command, withdraw_it, refresh_it, open_it, close_it,
}
use cadencia_a2a_platform.Treasury.Realized.{closes, closes-IsBounded}
use cadencia_a2a_platform.Treasury.Pools.{execute-IsSolvent}
use cadencia_a2a_platform.Treasury.Defs.{
  apply, Call, run, LiquidityPool, inr, usdc, deposit, withdraw, new_rate,
}
use cadencia_a2a_platform.Treasury.Balances.{balance, net, run_accounts, IsSolvent}

abbrev pool : LiquidityPool
pool = record {
  id = 1;
  created_at = 0;
  updated_at = 0;
  enterprise_id = 2;
  inr_balance = pos 1000;
  usdc_balance = pos 5;
  algo_balance_microalgo = pos 0;
  last_fx_rate_inr_usd = pos 0;
  last_rate_updated_at = 0;
}

-- The second withdrawal is above the balance, the negative deposit is refused.
abbrev movements : List Call
movements =
    (1, 1, withdraw inr (pos 400))
    ∷ (2, 2, withdraw inr (pos 700))
    ∷ (3, 3, deposit usdc (negsuc 4))
    ∷ (4, 4, deposit usdc (pos 20))
    ∷ (5, 6, new_rate (pos 83))
    ∷ []

run-movements : run movements pool ≡ record pool {
  updated_at = 6;
  inr_balance = pos 600;
  usdc_balance = pos 25;
  last_fx_rate_inr_usd = pos 83;
  last_rate_updated_at = 5;
}
unfolding run apply ◌+ℤ◌ ◌-ℤ◌
run-movements = refl

pool-IsSolvent : IsSolvent pool
pool-IsSolvent = ground arith

run_accounts_example :
    IsSolvent (run movements pool)
    × (balance inr (run movements pool) ≡ pos 1000 +ℤ net inr movements pool)
run_accounts_example = run_accounts movements pool inr pool-IsSolvent

-- A position that is opened, closed at a new rate, and closed again.
abbrev commands : List Command
commands =
    open_it 9 1 2 (codes "INR/USD") (codes "LONG") (pos 100) (pos 80)
    ∷ refresh_it (some (pos 84)) 5 2 3 2 (codes "INR") (codes "USD")
    ∷ close_it 4 5 9 2
    ∷ close_it 6 7 9 2
    ∷ []

abbrev books : Books
books = record { pools = pool ∷ []; positions = [] }

-- `notional * (delta / rate)` where it is exact
abbrev gain : ℤ → ℤ → ℤ → ℤ
gain notional delta rate = delta

closed_once : closes (λ x. x) gain 9 commands books ≡ 1
unfolding closes execute ◌-ℤ◌
closed_once = refl

closes-IsBounded_example : closes (λ x. x) gain 9 commands books ≤ 1
closes-IsBounded_example = closes-IsBounded (λ x. x) gain 9 commands books

execute-IsSolvent_example :
    All IsSolvent (execute (λ x. x) gain (withdraw_it 5 2 2 (codes "INR") (pos 400)) books).1.pools
execute-IsSolvent_example =
    execute-IsSolvent (λ x. x) gain (withdraw_it 5 2 2 (codes "INR") (pos 400)) books
      (pool-IsSolvent, tt)
