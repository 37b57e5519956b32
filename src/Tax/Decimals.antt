-- ===== src/Tax/Decimals.antt =====
-- Python's `Decimal` as the code uses it: a coefficient and the number of its decimal places. The sums of
-- the code stay below the 28 digits of the default context, so that a product is exact.
use cadencia_a2a_platform.Prelude.{
  ℕ, zero, suc, ◌+◌, ◌-◌, ◌*◌, ◌/◌, ◌%◌, Bool, ltb, leb, ◌==◌, if◌then◌else◌,
}
use cadencia_a2a_platform.Prelude.Int.{pos_part, neg_part, sub_ℕ, leb_ℤ, ℤ, pos, negsuc}
use cadencia_a2a_platform.Errors.{validation_error, Result, ok, err}

pub record Decimal : Type 0 where
  pub coefficient : ℤ
  pub places : ℕ

-- 10 ^ k
abbrev pub ten_to : ℕ → ℕ
ten_to zero = 1
ten_to (suc k) = 10 * ten_to k

-- A natural number of times an integer.
abbrev pub scaled : ℕ → ℤ → ℤ
scaled k z = sub_ℕ (k * pos_part z) (k * neg_part z)

-- `Decimal(n)`
abbrev pub whole : ℤ → Decimal
whole n = record { coefficient = n; places = 0 }

-- `a / Decimal(10 ** k)`
abbrev pub over_ten_to : ℕ → Decimal → Decimal
over_ten_to k a = record a { places = a.places + k }

-- `a * b`
abbrev pub product : ℤ → ℤ → ℤ
product a b =
    sub_ℕ (pos_part a * pos_part b + neg_part a * neg_part b)
      (pos_part a * neg_part b + neg_part a * pos_part b)

unfoldable pub times : Decimal → Decimal → Decimal
times a b = record {
  coefficient = product a.coefficient b.coefficient;
  places = a.places + b.places;
}

-- `a >= Decimal(n)`
abbrev pub at_least : ℕ → Decimal → Bool
at_least n a = leb_ℤ (pos (n * ten_to a.places)) a.coefficient

-- `ROUND_HALF_EVEN` of a quotient
unfoldable pub half_even : ℕ → ℕ → ℕ
half_even n m =
    let q = n / m in
    let r = n % m in
    if ltb (2 * r) m then q else if ltb m (2 * r) then q + 1 else if q % 2 == 0 then q else q + 1

abbrev half_even_ℤ : ℤ → ℕ → ℤ
half_even_ℤ z m = sub_ℕ (half_even (pos_part z) m) (half_even (neg_part z) m)

-- `a.quantize(Decimal("0.01"))`, as the number of hundredths
unfoldable pub quantize : Decimal → ℤ
unfolding half_even
quantize a =
    if leb a.places 2
    then scaled (ten_to (2 - a.places)) a.coefficient
    else half_even_ℤ a.coefficient (ten_to (a.places - 2))

-- `INRAmount`, of a number of hundredths
unfoldable pub inr_amount : ℤ → Result ℕ
inr_amount (pos n) = ok n
inr_amount (negsuc n) = err validation_error
