-- ===== src/Treasury/Closing.antt =====
-- An FX position is closed once (backend/src/treasury/application/services.py,
-- backend/src/treasury/domain/fx_position.py).
use cadencia_a2a_platform.Prelude.{
  ℕ, ◌≡◌, refl, sym, ap, ◌∙◌, ◌≢◌, ◌⊎◌, inl, Bool, true, false, not, Option, none, some, List, [],
  ◌∷◌, ◌++◌, map, arith, ◌==◌, if◌then◌else◌, Bool-cases,
}
use cadencia_a2a_platform.Prelude.Int.{ℤ}
use cadencia_a2a_platform.Prelude.Texts.{Text}
use cadencia_a2a_platform.Errors.{Result, ok, err}
use cadencia_a2a_platform.Treasury.Positions.{
  new_position, update_current_rate, close, FxPosition, closed_position,
}
use cadencia_a2a_platform.Treasury.Service.{
  find_position, update_position, get_or_create_pool, currency_of, banked, in_currency, with_pool,
  record_deposit, record_withdrawal, repriced, rated, refresh_fx_rate, opened, open_fx_position,
  closing, found_position, close_fx_position, execute, Books, Reply, Command, deposit_it,
  withdraw_it, refresh_it, open_it, close_it,
}
use cadencia_a2a_platform.Treasury.Defs.{Outcome, LiquidityPool, Currency}
use mathlib.Core.Logic

-- How a row is found after each way in which the rows change.
pub found_id :
    (k : ℕ) (ps : List FxPosition) (p : FxPosition) → find_position k ps ≡ some p → p.id ≡ k
unfolding find_position
found_id k [] p h = absurd (cc)
found_id k (q ∷ ps) p h = ground (arith, found_id k ps p)

found_appended :
    (k : ℕ) (ps : List FxPosition) (q p : FxPosition)
    → find_position k ps ≡ some p
    → find_position k (ps ++ (q ∷ [])) ≡ some p
unfolding find_position
found_appended k [] q p h = absurd (cc)
found_appended k (r ∷ ps) q p h = ground (arith, found_appended k ps q p)

found_mapped :
    (k : ℕ) (f : FxPosition → FxPosition) (ps : List FxPosition) (p : FxPosition)
    → ((q : FxPosition) → (f q).id ≡ q.id)
    → find_position k ps ≡ some p
    → find_position k (map f ps) ≡ some (f p)
unfolding find_position
found_mapped k f [] p same h = absurd (cc)
found_mapped k f (q ∷ ps) p same h = ground (arith, same q, found_mapped k f ps p same)

found_beside :
    (k : ℕ) (q : FxPosition) (ps : List FxPosition)
    → q.id ≢ k
    → find_position k (update_position q ps) ≡ find_position k ps
unfolding find_position update_position
found_beside k q [] h = refl
found_beside k q (p ∷ ps) h = ground (arith, found_beside k q ps h)

pub found_updated :
    (k : ℕ) (q p : FxPosition) (ps : List FxPosition)
    → q.id ≡ k
    → find_position k ps ≡ some p
    → find_position k (update_position q ps) ≡ some q
unfolding find_position update_position
found_updated k q p [] e h = absurd (cc)
found_updated k q p (r ∷ ps) e h = ground (arith, found_updated k q p ps e)

repriced_id :
    (enterprise : ℕ) (pair : Text) (rate : ℤ) (now : ℕ) (q : FxPosition)
    → (repriced enterprise pair rate now q).id ≡ q.id
unfolding update_current_rate
repriced_id enterprise pair rate now q = ground arith

repriced_closed :
    (enterprise : ℕ) (pair : Text) (rate : ℤ) (now : ℕ) (q : FxPosition)
    → q.status ≡ closed_position
    → repriced enterprise pair rate now q ≡ q
unfolding update_current_rate
repriced_closed enterprise pair rate now q h = ground arith

banked_positions : (o : Outcome) (b : Books) → (banked o b).1.positions ≡ b.positions
banked_positions (err x, p) b = refl
banked_positions (ok u, p) b = refl

in_currency_positions :
    (c : Option Currency) (move : Currency → LiquidityPool → Outcome) (p : LiquidityPool)
    (b : Books)
    → (in_currency c move p b).1.positions ≡ b.positions
in_currency_positions none move p b = refl
in_currency_positions (some c) move p b = banked_positions (move c p) b

-- The row with the id `k` is `p`.
abbrev pub Holds : ℕ → FxPosition → Books → Type 0
Holds k p b = find_position k b.positions ≡ some p

money-Holds :
    (k : ℕ) (p : FxPosition) (c : Option Currency) (move : Currency → LiquidityPool → Outcome)
    (q : LiquidityPool × List LiquidityPool) (b : Books)
    → Holds k p b
    → Holds k p (with_pool q b (in_currency c move)).1
money-Holds k p c move (q, qs) b h =
    ap (find_position k) (in_currency_positions c move q (record b { pools = qs })) ∙ h

rated-Holds :
    (k : ℕ) (p : FxPosition) (rate : Option ℤ) (now later enterprise : ℕ) (pair : Text)
    (q : LiquidityPool × List LiquidityPool) (b : Books)
    → p.status ≡ closed_position
    → Holds k p b
    → Holds k p (with_pool q b (rated rate now later enterprise pair)).1
rated-Holds k p none now later enterprise pair (q, qs) b e h = h
rated-Holds k p (some rate) now later enterprise pair (q, qs) b e h =
    found_mapped k (repriced enterprise pair rate later) b.positions p
      (repriced_id enterprise pair rate later) h
    ∙ ap some (repriced_closed enterprise pair rate later p e)

opened-Holds :
    (k : ℕ) (p : FxPosition) (r : Result FxPosition) (b : Books)
    → Holds k p b
    → Holds k p (opened r b).1
opened-Holds k p (err x) b h = h
opened-Holds k p (ok q) b h = found_appended k b.positions q p h

-- The row of a position that was closed now, if it was.
closing-Holds :
    (gain : ℤ → ℤ → ℤ → ℤ) (now later k : ℕ) (p q : FxPosition) (b : Books)
    → (q.id ≢ k) ⊎ (q.status ≡ closed_position)
    → Holds k p b
    → Holds k p (closing (close gain now later q) b).1
unfolding close
closing-Holds gain now later k p q b e h = ground (
  arith,
  found_beside k (record q { status = closed_position; closed_at = some now; updated_at = later })
      b.positions,
)

other_or_closed :
    (id k : ℕ) (q p : FxPosition) (ps : List FxPosition)
    → find_position id ps ≡ some q
    → find_position k ps ≡ some p
    → p.status ≡ closed_position
    → (q.id ≢ k) ⊎ (q.status ≡ closed_position)
other_or_closed id k q p ps f h e = elim (Bool-cases (q.id == k)) [
  | inl t ↦
      let r : id ≡ k = ground (arith, t, found_id id ps q f) in
      let same : find_position k ps ≡ some q = rw (sym r) f in Logic.inr (cc (same, h, e))
  | Logic.inr t ↦ inl (ground (arith, t))
]

either-Holds :
    (k : ℕ) (p : FxPosition) (t : Bool) (x y : Reply × Books)
    → Holds k p x.1
    → Holds k p y.1
    → Holds k p (if t then x else y).1
either-Holds k p true x y h g = h
either-Holds k p false x y h g = g

found-Holds :
    (gain : ℤ → ℤ → ℤ → ℤ) (now later id enterprise k : ℕ) (p : FxPosition) (q : Option FxPosition)
    (b : Books)
    → find_position id b.positions ≡ q
    → p.status ≡ closed_position
    → Holds k p b
    → Holds k p (found_position gain now later enterprise q b).1
found-Holds gain now later id enterprise k p none b f e h = h
found-Holds gain now later id enterprise k p (some q) b f e h =
    either-Holds k p (not (q.enterprise_id == enterprise)) _ _ h
      (closing-Holds gain now later k p q b (other_or_closed id k q p b.positions f h e) h)

-- A position that is closed stays as it is.
pub execute-Holds :
    (truncate : ℤ → ℤ) (gain : ℤ → ℤ → ℤ → ℤ) (c : Command) (k : ℕ) (p : FxPosition) (b : Books)
    → p.status ≡ closed_position
    → Holds k p b
    → Holds k p (execute truncate gain c b).1
unfolding execute
execute-Holds truncate gain (deposit_it id now enterprise currency amount) k p b e h =
    unfold record_deposit in
    money-Holds k p (currency_of currency) _ (get_or_create_pool id enterprise now b.pools) b h
execute-Holds truncate gain (withdraw_it id now enterprise currency amount) k p b e h =
    unfold record_withdrawal in
    money-Holds k p (currency_of currency) _ (get_or_create_pool id enterprise now b.pools) b h
execute-Holds truncate gain (refresh_it rate id now later enterprise base target) k p b e h =
    unfold refresh_fx_rate in
    rated-Holds k p rate now later enterprise _ (get_or_create_pool id enterprise now b.pools) b e h
execute-Holds truncate gain (open_it id now enterprise pair direction notional rate) k p b e h =
    unfold open_fx_position in
    opened-Holds k p (new_position id now enterprise pair direction notional rate) b h
execute-Holds truncate gain (close_it now later id enterprise) k p b e h =
    unfold close_fx_position in
    found-Holds gain now later id enterprise k p (find_position id b.positions) b refl e h
