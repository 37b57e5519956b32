-- ===== src/Treasury/Positions.antt =====
-- `FXPosition` of backend/src/treasury/domain/fx_position.py. `gain notional delta rate` is
-- `notional * (delta / rate)` of decimals.
use cadencia_a2a_platform.Prelude.{
  ℕ, Bool, true, false, not, ◌||◌, Option, none, some, ◌==◌, if◌then◌else◌,
}
use cadencia_a2a_platform.Prelude.Int.{◌-ℤ◌, ℤ, pos, negsuc}
use cadencia_a2a_platform.Prelude.Texts.{Text, codes, text_eq}
use cadencia_a2a_platform.Errors.{policy_violation, Result, ok, err}

pub data PositionStatus : Type 0 where
  open_position closed_position : PositionStatus

pub record FxPosition : Type 0 where
  pub id : ℕ
  pub created_at : ℕ
  pub updated_at : ℕ
  pub enterprise_id : ℕ
  pub currency_pair : Text
  pub direction : Text
  pub notional_amount : ℤ
  pub entry_rate : ℤ
  pub current_rate : ℤ
  pub status : PositionStatus
  pub closed_at : Option ℕ

-- The constructor with its `__post_init__`, as `open_fx_position` calls it
unfoldable pub new_position : ℕ → ℕ → ℕ → Text → Text → ℤ → ℤ → Result FxPosition
new_position id now enterprise pair direction notional rate =
    if not (text_eq direction (codes "LONG") || text_eq direction (codes "SHORT"))
    then err policy_violation
    else ok (record {
      id = id;
      created_at = now;
      updated_at = now;
      enterprise_id = enterprise;
      currency_pair = pair;
      direction = direction;
      notional_amount = notional;
      entry_rate = rate;
      current_rate = rate;
      status = open_position;
      closed_at = none;
    })

abbrev pub is_zero : ℤ → Bool
is_zero (pos n) = n == 0
is_zero (negsuc n) = false

-- `rate_delta`
abbrev pub rate_delta : FxPosition → ℤ
rate_delta p =
    if text_eq p.direction (codes "SHORT")
    then pos 0 -ℤ (p.current_rate -ℤ p.entry_rate)
    else p.current_rate -ℤ p.entry_rate

unfoldable pub unrealized_pnl : (ℤ → ℤ → ℤ → ℤ) → FxPosition → ℤ
unrealized_pnl gain p =
    if is_zero p.entry_rate then pos 0 else gain p.notional_amount (rate_delta p) p.entry_rate

unfoldable pub update_current_rate : ℤ → ℕ → FxPosition → FxPosition
update_current_rate rate now p = record p { current_rate = rate; updated_at = now }

abbrev pub is_closed : PositionStatus → Bool
is_closed open_position = false
is_closed closed_position = true

unfoldable pub close : (ℤ → ℤ → ℤ → ℤ) → ℕ → ℕ → FxPosition → Result ℤ × FxPosition
unfolding unrealized_pnl
close gain now later p = if is_closed p.status then (err policy_violation, p) else (
  ok (unrealized_pnl gain p),
  record p { status = closed_position; closed_at = some now; updated_at = later },
)
