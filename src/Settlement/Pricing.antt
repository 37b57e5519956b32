-- ===== src/Settlement/Pricing.antt =====
-- The price of a pending escrow (`create_pending_escrow` of
-- backend/src/settlement/application/services.py). `in_micro rate` is the whole number of microALGO that
-- the decimals of the adapter's path give, absent where the adapter raised; `fallback` that of the
-- fixed rate. Both round towards zero.
use cadencia_a2a_platform.Prelude.{ℕ, Option, none, some, ltb, if◌then◌else◌}
use cadencia_a2a_platform.Prelude.Int.{ℤ, pos, negsuc}

abbrev at_least : ℕ → ℤ → ℕ
at_least low (pos n) = if ltb n low then low else n
at_least low (negsuc n) = low

abbrev at_most : ℕ → ℤ → ℤ
at_most high (pos n) = if ltb high n then pos high else pos n
at_most high (negsuc n) = negsuc n

-- `max(1000, min(amount, 999_000))`
unfoldable pub clamp_price : ℤ → ℕ
clamp_price amount = at_least 1_000 (at_most 999_000 amount)

unfoldable pub price_microalgo : Option ℤ → ℤ → ℕ
unfolding clamp_price
price_microalgo none fallback = clamp_price fallback
price_microalgo (some in_micro) fallback = clamp_price in_micro
