-- ===== src/Treasury/Pools.antt =====
-- The pools of all enterprises under the commands of backend/src/treasury/application/services.py.
use cadencia_a2a_platform.Prelude.{
  ℕ, ◌≡◌, refl, Option, none, some, List, [], ◌∷◌, arith, All, All-snoc,
}
use cadencia_a2a_platform.Prelude.Int.{ℤ}
use cadencia_a2a_platform.Prelude.Texts.{Text}
use cadencia_a2a_platform.Errors.{Result, ok, err}
use cadencia_a2a_platform.Treasury.Balances.{apply-IsSolvent, IsSolvent}
use cadencia_a2a_platform.Treasury.Defs.{
  Outcome, update_fx_rate, apply, LiquidityPool, Currency, inr, usdc, algo, deposit, withdraw,
  new_rate,
}
use cadencia_a2a_platform.Treasury.Positions.{new_position, close, FxPosition}
use cadencia_a2a_platform.Treasury.Service.{
  find_pool, find_position, update_pool, new_pool, or_create, get_or_create_pool, currency_of,
  deposit_in, withdraw_from, banked, in_currency, record_deposit, record_withdrawal, rated,
  refresh_fx_rate, opened, open_fx_position, found_position, close_fx_position, execute, Books,
  Command, deposit_it, withdraw_it, refresh_it, open_it, close_it,
}

found-IsSolvent :
    (enterprise : ℕ) (ps : List LiquidityPool) (p : LiquidityPool)
    → All IsSolvent ps
    → find_pool enterprise ps ≡ some p
    → IsSolvent p
unfolding find_pool
found-IsSolvent enterprise [] p h e = absurd (cc)
found-IsSolvent enterprise (q ∷ ps) p h e =
    ground (arith, h.0, found-IsSolvent enterprise ps p h.1, e)

updated-IsSolvent :
    (q : LiquidityPool) (ps : List LiquidityPool)
    → IsSolvent q
    → All IsSolvent ps
    → All IsSolvent (update_pool q ps)
unfolding update_pool
updated-IsSolvent q [] k h = h
updated-IsSolvent q (p ∷ ps) k h = ground (arith, k, h.0, h.1, updated-IsSolvent q ps k h.1)

created-IsSolvent :
    (o : Option LiquidityPool) (id enterprise now : ℕ) (ps : List LiquidityPool)
    → find_pool enterprise ps ≡ o
    → All IsSolvent ps
    → IsSolvent (or_create o id enterprise now ps).0
      × All IsSolvent (or_create o id enterprise now ps).1
created-IsSolvent (some p) id enterprise now ps e h = (found-IsSolvent enterprise ps p h e, h)
created-IsSolvent none id enterprise now ps e h =
    let new : IsSolvent (new_pool id enterprise now) = ground arith in
    (new, All-snoc IsSolvent ps (new_pool id enterprise now) h new)

banked-IsSolvent :
    (o : Outcome) (b : Books)
    → IsSolvent o.1
    → All IsSolvent b.pools
    → All IsSolvent (banked o b).1.pools
banked-IsSolvent (err x, p) b k h = h
banked-IsSolvent (ok u, p) b k h = updated-IsSolvent p b.pools k h

deposit_in-IsSolvent :
    (truncate : ℤ → ℤ) (c : Currency) (amount : ℤ) (now : ℕ) (p : LiquidityPool)
    → IsSolvent p
    → IsSolvent (deposit_in truncate c amount now p).1
deposit_in-IsSolvent truncate inr amount now p h =
    unfold apply in apply-IsSolvent now now (deposit inr amount) p h
deposit_in-IsSolvent truncate usdc amount now p h =
    unfold apply in apply-IsSolvent now now (deposit usdc amount) p h
deposit_in-IsSolvent truncate algo amount now p h =
    unfold apply in apply-IsSolvent now now (deposit algo (truncate amount)) p h

withdraw_from-IsSolvent :
    (truncate : ℤ → ℤ) (c : Currency) (amount : ℤ) (now : ℕ) (p : LiquidityPool)
    → IsSolvent p
    → IsSolvent (withdraw_from truncate c amount now p).1
withdraw_from-IsSolvent truncate inr amount now p h =
    unfold apply in apply-IsSolvent now now (withdraw inr amount) p h
withdraw_from-IsSolvent truncate usdc amount now p h =
    unfold apply in apply-IsSolvent now now (withdraw usdc amount) p h
withdraw_from-IsSolvent truncate algo amount now p h =
    unfold apply in apply-IsSolvent now now (withdraw algo (truncate amount)) p h

moved-IsSolvent :
    (c : Option Currency) (move : Currency → LiquidityPool → Outcome) (p : LiquidityPool)
    (b : Books)
    → ((c' : Currency) → IsSolvent (move c' p).1)
    → All IsSolvent b.pools
    → All IsSolvent (in_currency c move p b).1.pools
moved-IsSolvent none move p b k h = h
moved-IsSolvent (some c) move p b k h = banked-IsSolvent (move c p) b (k c) h

rated-IsSolvent :
    (rate : Option ℤ) (now later enterprise : ℕ) (pair : Text) (p : LiquidityPool) (b : Books)
    → IsSolvent p
    → All IsSolvent b.pools
    → All IsSolvent (rated rate now later enterprise pair p b).1.pools
rated-IsSolvent none now later enterprise pair p b k h = h
rated-IsSolvent (some rate) now later enterprise pair p b k h =
    updated-IsSolvent (update_fx_rate rate now later p).1 b.pools
      (unfold apply in apply-IsSolvent now later (new_rate rate) p k) h

opened_pools : (r : Result FxPosition) (b : Books) → (opened r b).1.pools ≡ b.pools
opened_pools (err x) b = refl
opened_pools (ok p) b = refl

closed_pools :
    (gain : ℤ → ℤ → ℤ → ℤ) (now later enterprise : ℕ) (o : Option FxPosition) (b : Books)
    → (found_position gain now later enterprise o b).1.pools ≡ b.pools
unfolding close
closed_pools gain now later enterprise none b = refl
closed_pools gain now later enterprise (some p) b = ground arith

-- Where no pool has a negative balance, no command leaves one that has, whether it is done or raises: the
-- pools that it makes, those of other enterprises, and amounts of ALGO that are cut to whole ones included.
pub execute-IsSolvent :
    (truncate : ℤ → ℤ) (gain : ℤ → ℤ → ℤ → ℤ) (c : Command) (b : Books)
    → All IsSolvent b.pools
    → All IsSolvent (execute truncate gain c b).1.pools
unfolding execute
execute-IsSolvent truncate gain (deposit_it id now enterprise currency amount) b h =
    let made = created-IsSolvent (find_pool enterprise b.pools) id enterprise now b.pools refl h in
    unfold record_deposit get_or_create_pool in
    moved-IsSolvent (currency_of currency) _ _ _
      (λ c. deposit_in-IsSolvent truncate c amount now _ made.0) made.1
execute-IsSolvent truncate gain (withdraw_it id now enterprise currency amount) b h =
    let made = created-IsSolvent (find_pool enterprise b.pools) id enterprise now b.pools refl h in
    unfold record_withdrawal get_or_create_pool in
    moved-IsSolvent (currency_of currency) _ _ _
      (λ c. withdraw_from-IsSolvent truncate c amount now _ made.0) made.1
execute-IsSolvent truncate gain (refresh_it rate id now later enterprise base target) b h =
    let made = created-IsSolvent (find_pool enterprise b.pools) id enterprise now b.pools refl h in
    unfold refresh_fx_rate get_or_create_pool in
    rated-IsSolvent rate now later enterprise _ _ _ made.0 made.1
execute-IsSolvent truncate gain (open_it id now enterprise pair direction notional rate) b h =
    unfold open_fx_position in
    rw (opened_pools (new_position id now enterprise pair direction notional rate) b) h
execute-IsSolvent truncate gain (close_it now later id enterprise) b h =
    unfold close_fx_position in
    rw (closed_pools gain now later enterprise (find_position id b.positions) b) h
