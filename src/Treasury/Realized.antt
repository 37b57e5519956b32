-- ===== src/Treasury/Realized.antt =====
-- The profit or loss of an FX position is realized once (backend/src/treasury/application/services.py).
use cadencia_a2a_platform.Prelude.{
  ℕ, ◌+◌, ◌≤◌, ◌≡◌, refl, sym, inl, Bool, true, false, ◌&&◌, Option, none, some, List, [], ◌∷◌,
  arith, ◌==◌, Bool-cases,
}
use cadencia_a2a_platform.Prelude.Int.{ℤ}
use cadencia_a2a_platform.Treasury.Closing.{found_id, found_updated, Holds, execute-Holds}
use cadencia_a2a_platform.Treasury.Positions.{close, FxPosition, closed_position}
use cadencia_a2a_platform.Treasury.Service.{
  find_position, found_position, close_fx_position, execute, Books, Reply, realized, Command,
  deposit_it, withdraw_it, refresh_it, open_it, close_it,
}
use mathlib.Core.Logic

abbrev pub is_realized : Reply → Bool
is_realized (realized pnl) = true
is_realized _ = false

-- A command to close the position `k`.
abbrev pub is_close : ℕ → Command → Bool
is_close k (close_it now later id enterprise) = id == k
is_close k _ = false

abbrev pub one_if : Bool → ℕ
one_if true = 1
one_if false = 0

-- How many of the commands realize a profit or loss of the position `k`.
unfoldable pub closes : (ℤ → ℤ) → (ℤ → ℤ → ℤ → ℤ) → ℕ → List Command → Books → ℕ
closes truncate gain k [] b = 0
closes truncate gain k (c ∷ cs) b =
    let (r, b') = execute truncate gain c b in
    one_if (is_close k c && is_realized r) + closes truncate gain k cs b'

refused :
    (gain : ℤ → ℤ → ℤ → ℤ) (now later id enterprise : ℕ) (o : Option FxPosition) (p : FxPosition)
    (b : Books)
    → o ≡ some p
    → p.status ≡ closed_position
    → is_realized (found_position gain now later enterprise o b).0 ≡ false
unfolding close
refused gain now later id enterprise none p b h e = refl
refused gain now later id enterprise (some q) p b h e = ground (arith, h, e)

-- No command closes a position that is closed.
not_again :
    (truncate : ℤ → ℤ) (gain : ℤ → ℤ → ℤ → ℤ) (k : ℕ) (c : Command) (p : FxPosition) (b : Books)
    → p.status ≡ closed_position
    → Holds k p b
    → is_close k c && is_realized (execute truncate gain c b).0 ≡ false
unfolding execute
not_again truncate gain k (deposit_it id now enterprise currency amount) p b e h = refl
not_again truncate gain k (withdraw_it id now enterprise currency amount) p b e h = refl
not_again truncate gain k (refresh_it rate id now later enterprise base target) p b e h = refl
not_again truncate gain k (open_it id now enterprise pair direction notional rate) p b e h = refl
not_again truncate gain k (close_it now later id enterprise) p b e h = elim (Bool-cases (id == k)) [
  | inl t ↦
      let same : id ≡ k = ground (arith, t) in
      let q : find_position id b.positions ≡ some p = rw same h in
      rw t (
        unfold close_fx_position in
        refused gain now later id enterprise (find_position id b.positions) p b q e)
  | Logic.inr t ↦ rw t refl
]

none_after :
    (truncate : ℤ → ℤ) (gain : ℤ → ℤ → ℤ → ℤ) (k : ℕ) (cs : List Command) (p : FxPosition)
    (b : Books)
    → p.status ≡ closed_position
    → Holds k p b
    → closes truncate gain k cs b ≡ 0
unfolding closes
none_after truncate gain k [] p b e h = refl
none_after truncate gain k (c ∷ cs) p b e h = rw (not_again truncate gain k c p b e h) (
    omega (
      arith,
      none_after truncate gain k cs p (execute truncate gain c b).1 e
          (execute-Holds truncate gain c k p b e h),
    ))

-- A position that was closed just now is closed.
abbrev Closed : ℕ → Books → Type 0
Closed k b = (p : FxPosition) × (p.status ≡ closed_position) × Holds k p b

realized_shuts :
    (gain : ℤ → ℤ → ℤ → ℤ) (now later id enterprise : ℕ) (o : Option FxPosition) (b : Books)
    → find_position id b.positions ≡ o
    → is_realized (found_position gain now later enterprise o b).0 ≡ true
    → Closed id (found_position gain now later enterprise o b).1
unfolding close
realized_shuts gain now later id enterprise none b f h = absurd (cc)
realized_shuts gain now later id enterprise (some q) b f h =
    let p : FxPosition = record q {
      status = closed_position;
      closed_at = some now;
      updated_at = later;
    } in
    let kept = found_updated id p q b.positions (found_id id b.positions q f) f in
    (p, refl, ground (arith, kept, h))

command_shuts :
    (truncate : ℤ → ℤ) (gain : ℤ → ℤ → ℤ → ℤ) (k : ℕ) (c : Command) (b : Books)
    → is_close k c && is_realized (execute truncate gain c b).0 ≡ true
    → Closed k (execute truncate gain c b).1
unfolding execute
command_shuts truncate gain k (deposit_it id now enterprise currency amount) b h = absurd (cc)
command_shuts truncate gain k (withdraw_it id now enterprise currency amount) b h = absurd (cc)
command_shuts truncate gain k (refresh_it rate id now later enterprise base target) b h =
    absurd (cc)
command_shuts truncate gain k (open_it id now enterprise pair direction notional rate) b h =
    absurd (cc)
command_shuts truncate gain k (close_it now later id enterprise) b h =
    let same : id ≡ k = ground (arith, h) in
    let done' : is_realized (execute truncate gain (close_it now later id enterprise) b).0 ≡ true =
      ground (arith, h) in
    rw (sym same) (
      unfold close_fx_position in
      realized_shuts gain now later id enterprise (find_position id b.positions) b refl done')

-- Whatever commands of whatever enterprises the treasury executes, the profit or loss of a position is
-- realized at most once, whatever the rates do in between.
pub closes-IsBounded :
    (truncate : ℤ → ℤ) (gain : ℤ → ℤ → ℤ → ℤ) (k : ℕ) (cs : List Command) (b : Books)
    → closes truncate gain k cs b ≤ 1
unfolding closes
closes-IsBounded truncate gain k [] b = omega arith
closes-IsBounded truncate gain k (c ∷ cs) b =
    elim (Bool-cases (is_close k c && is_realized (execute truncate gain c b).0)) [
      | inl t ↦
          let (p, e, h) = command_shuts truncate gain k c b t in
          rw t (omega (arith, none_after truncate gain k cs p (execute truncate gain c b).1 e h))
      | Logic.inr t ↦
          rw t (omega (arith, closes-IsBounded truncate gain k cs (execute truncate gain c b).1))
    ]
