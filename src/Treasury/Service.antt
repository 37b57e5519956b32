-- ===== src/Treasury/Service.antt =====
-- The commands of `TreasuryService` (backend/src/treasury/application/services.py) on the rows of its two
-- repositories (backend/src/treasury/infrastructure/repositories.py). `truncate` is Python's `int` of a
-- decimal; the rate of the provider is an argument, absent where the provider raised.
use cadencia_a2a_platform.Prelude.{
  ℕ, not, ◌&&◌, Option, none, some, List, [], ◌∷◌, ◌++◌, map, ◌==◌, if◌then◌else◌,
}
use cadencia_a2a_platform.Prelude.Int.{ℤ, pos}
use cadencia_a2a_platform.Prelude.Texts.{Text, codes, text_eq}
use cadencia_a2a_platform.Errors.{DomainError, not_found, validation_error, Result, ok, err}
use cadencia_a2a_platform.Treasury.Defs.{
  Outcome, deposit_inr, withdraw_inr, deposit_usdc, withdraw_usdc, deposit_algo, withdraw_algo,
  update_fx_rate, LiquidityPool, Currency, inr, usdc, algo,
}
use cadencia_a2a_platform.Treasury.Positions.{
  new_position, update_current_rate, is_closed, close, FxPosition,
}

pub record Books : Type 0 where
  pub pools : List LiquidityPool
  pub positions : List FxPosition

-- `get_by_enterprise_id` and `get_by_id`
unfoldable pub find_pool : ℕ → List LiquidityPool → Option LiquidityPool
find_pool enterprise [] = none
find_pool enterprise (p ∷ ps) =
    let rest = find_pool enterprise ps in if p.enterprise_id == enterprise then some p else rest

unfoldable pub find_position : ℕ → List FxPosition → Option FxPosition
find_position id [] = none
find_position id (p ∷ ps) = let rest = find_position id ps in if p.id == id then some p else rest

-- `update`, of the row with the id
unfoldable pub update_pool : LiquidityPool → List LiquidityPool → List LiquidityPool
update_pool q [] = []
update_pool q (p ∷ ps) = let rest = update_pool q ps in if p.id == q.id then q ∷ ps else p ∷ rest

unfoldable pub update_position : FxPosition → List FxPosition → List FxPosition
update_position q [] = []
update_position q (p ∷ ps) =
    let rest = update_position q ps in if p.id == q.id then q ∷ ps else p ∷ rest

-- `LiquidityPool(enterprise_id=…)`
abbrev pub new_pool : ℕ → ℕ → ℕ → LiquidityPool
new_pool id enterprise now = record {
  id = id;
  created_at = now;
  updated_at = now;
  enterprise_id = enterprise;
  inr_balance = pos 0;
  usdc_balance = pos 0;
  algo_balance_microalgo = pos 0;
  last_fx_rate_inr_usd = pos 0;
  last_rate_updated_at = now;
}

-- `_get_or_create_pool`
abbrev pub or_create :
    Option LiquidityPool → ℕ → ℕ → ℕ → List LiquidityPool → LiquidityPool × List LiquidityPool
or_create (some p) id enterprise now ps = (p, ps)
or_create none id enterprise now ps =
    (new_pool id enterprise now, ps ++ (new_pool id enterprise now ∷ []))

unfoldable pub get_or_create_pool :
    ℕ → ℕ → ℕ → List LiquidityPool → LiquidityPool × List LiquidityPool
unfolding find_pool
get_or_create_pool id enterprise now ps = or_create (find_pool enterprise ps) id enterprise now ps

-- How a command ends: done, with the profit or loss that it realized, with an exception of the domain, or
-- with one of the provider.
pub data Reply : Type 0 where
  done broke : Reply
  realized : (pnl : ℤ) → Reply
  raised : DomainError → Reply

-- `cmd.currency`
abbrev pub currency_of : Text → Option Currency
currency_of s =
    if text_eq s (codes "INR")
    then some inr
    else if text_eq s (codes "USDC")
    then some usdc
    else if text_eq s (codes "ALGO")
    then some algo
    else none

abbrev pub deposit_in : (ℤ → ℤ) → Currency → ℤ → ℕ → LiquidityPool → Outcome
deposit_in truncate inr amount now p = deposit_inr amount now p
deposit_in truncate usdc amount now p = deposit_usdc amount now p
deposit_in truncate algo amount now p = deposit_algo (truncate amount) now p

abbrev pub withdraw_from : (ℤ → ℤ) → Currency → ℤ → ℕ → LiquidityPool → Outcome
withdraw_from truncate inr amount now p = withdraw_inr amount now p
withdraw_from truncate usdc amount now p = withdraw_usdc amount now p
withdraw_from truncate algo amount now p = withdraw_algo (truncate amount) now p

abbrev pub banked : Outcome → Books → Reply × Books
banked (err x, p) b = (raised x, b)
banked (ok u, p) b = (done, record b { pools = update_pool p b.pools })

abbrev pub in_currency :
    Option Currency → (Currency → LiquidityPool → Outcome) → LiquidityPool → Books → Reply × Books
in_currency none move p b = (raised validation_error, b)
in_currency (some c) move p b = banked (move c p) b

-- The pool of the enterprise, made where there is none, and what follows.
abbrev pub with_pool :
    LiquidityPool × List LiquidityPool
    → Books
    → (LiquidityPool → Books → Reply × Books)
    → Reply × Books
with_pool (p, ps) b k = k p (record b { pools = ps })

unfoldable pub record_deposit : (ℤ → ℤ) → ℕ → ℕ → ℕ → Text → ℤ → Books → Reply × Books
unfolding get_or_create_pool deposit_inr deposit_usdc deposit_algo update_pool
record_deposit truncate id now enterprise currency amount b =
    with_pool (get_or_create_pool id enterprise now b.pools) b
      (in_currency (currency_of currency) (λ c. deposit_in truncate c amount now))

unfoldable pub record_withdrawal : (ℤ → ℤ) → ℕ → ℕ → ℕ → Text → ℤ → Books → Reply × Books
unfolding get_or_create_pool withdraw_inr withdraw_usdc withdraw_algo update_pool
record_withdrawal truncate id now enterprise currency amount b =
    with_pool (get_or_create_pool id enterprise now b.pools) b
      (in_currency (currency_of currency) (λ c. withdraw_from truncate c amount now))

-- The open positions of the enterprise in the pair get the rate.
abbrev pub repriced : ℕ → Text → ℤ → ℕ → FxPosition → FxPosition
repriced enterprise pair rate now p =
    if (p.enterprise_id == enterprise) && (not (is_closed p.status) && text_eq p.currency_pair pair)
    then update_current_rate rate now p
    else p

abbrev pub rated : Option ℤ → ℕ → ℕ → ℕ → Text → LiquidityPool → Books → Reply × Books
rated none now later enterprise pair p b = (broke, b)
rated (some rate) now later enterprise pair p b = (
  done,
  record {
    pools = update_pool (update_fx_rate rate now later p).1 b.pools;
    positions = map (repriced enterprise pair rate later) b.positions;
  },
)

-- `update_fx_rate`, where the provider gives `rate` for `base` and `target`
unfoldable pub refresh_fx_rate : Option ℤ → ℕ → ℕ → ℕ → ℕ → Text → Text → Books → Reply × Books
unfolding get_or_create_pool update_fx_rate update_pool update_current_rate
refresh_fx_rate rate id now later enterprise base target b =
    with_pool (get_or_create_pool id enterprise now b.pools) b
      (rated rate now later enterprise (base ++ (codes "/" ++ target)))

abbrev pub opened : Result FxPosition → Books → Reply × Books
opened (err x) b = (raised x, b)
opened (ok p) b = (done, record b { positions = b.positions ++ (p ∷ []) })

unfoldable pub open_fx_position : ℕ → ℕ → ℕ → Text → Text → ℤ → ℤ → Books → Reply × Books
unfolding new_position
open_fx_position id now enterprise pair direction notional rate b =
    opened (new_position id now enterprise pair direction notional rate) b

abbrev pub closing : Result ℤ × FxPosition → Books → Reply × Books
closing (err x, p) b = (raised x, b)
closing (ok pnl, p) b = (realized pnl, record b { positions = update_position p b.positions })

abbrev pub found_position : (ℤ → ℤ → ℤ → ℤ) → ℕ → ℕ → ℕ → Option FxPosition → Books → Reply × Books
found_position gain now later enterprise none b = (raised not_found, b)
found_position gain now later enterprise (some p) b =
    if not (p.enterprise_id == enterprise)
    then (raised not_found, b)
    else closing (close gain now later p) b

unfoldable pub close_fx_position : (ℤ → ℤ → ℤ → ℤ) → ℕ → ℕ → ℕ → ℕ → Books → Reply × Books
unfolding find_position update_position close
close_fx_position gain now later id enterprise b =
    found_position gain now later enterprise (find_position id b.positions) b

-- A command as data, with the ids and clock readings of what it makes.
pub data Command : Type 0 where
  deposit_it withdraw_it : (id now enterprise : ℕ) (currency : Text) (amount : ℤ) → Command
  refresh_it : (rate : Option ℤ) (id now later enterprise : ℕ) (base target : Text) → Command
  open_it : (id now enterprise : ℕ) (pair direction : Text) (notional rate : ℤ) → Command
  close_it : (now later id enterprise : ℕ) → Command

unfoldable pub execute : (ℤ → ℤ) → (ℤ → ℤ → ℤ → ℤ) → Command → Books → Reply × Books
unfolding record_deposit record_withdrawal refresh_fx_rate open_fx_position close_fx_position
execute truncate gain (deposit_it id now enterprise currency amount) =
    record_deposit truncate id now enterprise currency amount
execute truncate gain (withdraw_it id now enterprise currency amount) =
    record_withdrawal truncate id now enterprise currency amount
execute truncate gain (refresh_it rate id now later enterprise base target) =
    refresh_fx_rate rate id now later enterprise base target
execute truncate gain (open_it id now enterprise pair direction notional rate) =
    open_fx_position id now enterprise pair direction notional rate
execute truncate gain (close_it now later id enterprise) =
    close_fx_position gain now later id enterprise
