-- ===== src/Tax/Rounding.antt =====
-- How far a rounded amount is from the exact one (`quantize` of Python's decimals, as the records of
-- backend/src/compliance/domain/fema_record.py and gst_record.py use it).
use cadencia_a2a_platform.Prelude.{
  ℕ, ◌+◌, ◌*◌, ◌/◌, ◌%◌, ◌≤◌, ◌<◌, ◌≡◌, arith, ltb, ◌==◌, if◌then◌else◌,
}
use cadencia_a2a_platform.Tax.Decimals.{half_even}
use native.Mathlib.Nat.{mod-add-div, mod-lt}

-- The branches of `half_even`, on any quotient and remainder.
nearest :
    (q r m n : ℕ)
    → r + m * q ≡ n
    → r < m
    → let v =
        if ltb (2 * r) m
        then q
        else if ltb m (2 * r)
        then q + 1
        else if q % 2 == 0
        then q
        else q + 1 in
      (2 * (v * m) ≤ 2 * n + m) × (2 * n ≤ 2 * (v * m) + m)
nearest q r m n h k = let up : (q + 1) * m ≡ q * m + m = omega arith in ground (arith, up, h, k)

-- A quotient that is rounded is the nearest whole number: twice the error is at most the divisor.
pub half_even-IsNear :
    (n m : ℕ)
    → 0 < m
    → (2 * (half_even n m * m) ≤ 2 * n + m) × (2 * n ≤ 2 * (half_even n m * m) + m)
unfolding half_even
half_even-IsNear n m h = nearest (n / m) (n % m) m n (mod-add-div n m) (mod-lt n h)
