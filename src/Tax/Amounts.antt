-- ===== src/Tax/Amounts.antt =====
-- The amounts and the tax of the records of backend/src/compliance/domain/fema_record.py and gst_record.py.
use cadencia_a2a_platform.Prelude.{
  ℕ, zero, suc, ◌+◌, ◌-◌, ◌*◌, ◌≤◌, ◌<◌, ◌≡◌, refl, sym, ap, ◌∙◌, ◌↔◌, arith,
}
use cadencia_a2a_platform.Prelude.Texts.{Text}
use cadencia_a2a_platform.Prelude.Int.{ℤ, pos, negsuc}
use cadencia_a2a_platform.Errors.{Result, ok, err}
use cadencia_a2a_platform.Tax.Rounding.{half_even-IsNear}
use cadencia_a2a_platform.Tax.Decimals.{
  ten_to, product, times, half_even, quantize, inr_amount, Decimal,
}
use cadencia_a2a_platform.Tax.Records.{
  built, amount_algo_of, form_of, generate_fema, FemaRecord, FormType, form_15ca, form_15cb,
}
use cadencia_a2a_platform.Tax.Values.{pan_number, purpose_code}
use native.Mathlib.Nat.{zero-div, zero-mod}

-- A chain that gave a value had a value at its first step.
pub built_ok :
    {A B : Type 0} (r : Result A) (k : A → Result B) (b : B)
    → built r k ≡ ok b
    → (a : A) × (r ≡ ok a) × (k a ≡ ok b)
built_ok (ok a) k b h = (a, refl, h)
built_ok (err x) k b h = absurd (cc)

ten_to-IsPositive : (k : ℕ) → 0 < ten_to k
ten_to-IsPositive zero = omega arith
ten_to-IsPositive (suc k) = omega (arith, ten_to-IsPositive k)

half_even-zero : (m : ℕ) → 0 < m → half_even 0 m ≡ 0
unfolding half_even
half_even-zero m h = ground (arith, zero-div m, zero-mod m)

pub quantize-small : (n : ℕ) → quantize (record { coefficient = pos n; places = 2 }) ≡ pos n
unfolding quantize
quantize-small n = ground arith

pub quantize-pos :
    (n k : ℕ)
    → quantize (record { coefficient = pos n; places = 3 + k }) ≡ pos (half_even n (ten_to (suc k)))
unfolding quantize
quantize-pos n k =
    let e : 3 + k - 2 ≡ suc k = omega arith in
    let z : half_even 0 (ten_to (3 + k - 2)) ≡ 0 =
      half_even-zero (ten_to (3 + k - 2)) (ten_to-IsPositive (3 + k - 2)) in
    ground (arith, z, ap (λ (x : ℕ). half_even n (ten_to x)) e)

pub inr_amount_ok : (z : ℤ) (n : ℕ) → inr_amount z ≡ ok n → z ≡ pos n
unfolding inr_amount
inr_amount_ok (pos m) n h = cc
inr_amount_ok (negsuc m) n h = absurd (cc)

fema_ok :
    (id now escrow : ℕ) (buyer seller : Text) (z : ℤ) (rate : Decimal) (root purpose : Text)
    (f : FemaRecord)
    → generate_fema id now escrow buyer seller z rate root purpose ≡ ok f
    → let amount = times (amount_algo_of z) rate in
      (quantize amount ≡ pos f.amount_inr) × (f.form_type ≡ form_of amount)
unfolding generate_fema
fema_ok id now escrow buyer seller z rate root purpose f h =
    let (code, e1, h1) = built_ok (purpose_code purpose) _ f h in
    let (b, e2, h2) = built_ok (pan_number buyer) _ f h1 in
    let (s, e3, h3) = built_ok (pan_number seller) _ f h2 in
    let amount = quantize (times (amount_algo_of z) rate) in
    let (n, e4, h4) = built_ok (inr_amount amount) _ f h3 in
    let paise : n ≡ f.amount_inr = cc (h4) in (inr_amount_ok amount n e4 ∙ ap pos paise, cc (h4))

pub product_pos : (n c : ℕ) → product (pos n) (pos c) ≡ pos (n * c)
product_pos n c = ground arith

amount_of :
    (n c l : ℕ)
    → times (amount_algo_of (pos n)) (record { coefficient = pos c; places = l })
      ≡ record { coefficient = pos (n * c); places = 3 + (3 + l) }
unfolding times
amount_of n c l =
    let e : 0 + 6 + l ≡ 3 + (3 + l) = omega arith in
    λ i. record { coefficient = product_pos n c i; places = e i }

form_at :
    (a k : ℕ) (x : FormType)
    → x ≡ form_of (record { coefficient = pos a; places = k })
    → (x ≡ form_15cb) ↔ (500_000 * ten_to k ≤ a)
form_at a k form_15ca h = ground arith
form_at a k form_15cb h = ground arith

-- The rupee amount of a FEMA record, in paise, is the exact product of the microALGO and the rate
-- rounded to the nearest whole, at most half a paisa away; the form is 15CB exactly when the
-- exact product is 500,000 rupees or more.
pub fema_amount-IsNear :
    (id now escrow : ℕ) (buyer seller : Text) (n c l : ℕ) (root purpose : Text) (f : FemaRecord)
    → generate_fema id now escrow buyer seller
        (pos n)
        (record { coefficient = pos c; places = l })
        root
        purpose
      ≡ ok f
    → let unit = ten_to (suc (3 + l)) in
      (2 * (f.amount_inr * unit) ≤ 2 * (n * c) + unit)
      × (2 * (n * c) ≤ 2 * (f.amount_inr * unit) + unit)
      × ((f.form_type ≡ form_15cb) ↔ (500_000 * ten_to (3 + (3 + l)) ≤ n * c))
fema_amount-IsNear id now escrow buyer seller n c l root purpose f h =
    let (amount, form) =
      fema_ok id now escrow buyer seller (pos n) (record { coefficient = pos c; places = l }) root
        purpose f h in
    let unit = ten_to (suc (3 + l)) in
    let rounded : pos (half_even (n * c) unit) ≡ pos f.amount_inr =
      sym (quantize-pos (n * c) (3 + l)) ∙ (sym (ap quantize (amount_of n c l)) ∙ amount) in
    let paise : half_even (n * c) unit ≡ f.amount_inr = cc (rounded) in
    let near = half_even-IsNear (n * c) unit (ten_to-IsPositive (suc (3 + l))) in
    let named = form_at (n * c) (3 + (3 + l)) f.form_type (form ∙ ap form_of (amount_of n c l)) in
    (rw (sym paise) near.0, rw (sym paise) near.1, named)
