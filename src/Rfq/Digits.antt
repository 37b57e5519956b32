-- ===== src/Rfq/Digits.antt =====
-- What the regular expression `^\d{4,8}$` of backend/src/marketplace/domain/value_objects.py accepts: `\d`
-- is a decimal digit of any script, and `$` lets one newline stand before the end.
use cadencia_a2a_platform.Prelude.{
  ℕ, zero, suc, ◌+◌, ◌-◌, ◌≤◌, ◌≡◌, refl, ap, ◌⊎◌, inl, inr, Bool, true, false, ◌&&◌, ◌||◌, List,
  [], ◌∷◌, ◌++◌, arith, leb, ◌==◌, if◌then◌else◌, length, All, Bool-cases,
}
use cadencia_a2a_platform.Prelude.Texts.{Text, text_eq, text_eq→eq}

-- The digit zero of each script of Unicode 15.0, which Python 3.12 has; the nine others follow it.
abbrev zeros : List ℕ
zeros =
    48 ∷ 1632 ∷ 1776 ∷ 1984 ∷ 2406 ∷ 2534 ∷ 2662 ∷ 2790 ∷ 2918 ∷ 3046 ∷ 3174 ∷ 3302 ∷ 3430 ∷ 3558
    ∷ 3664 ∷ 3792 ∷ 3872 ∷ 4160 ∷ 4240 ∷ 6112 ∷ 6160 ∷ 6470 ∷ 6608 ∷ 6784 ∷ 6800 ∷ 6992 ∷ 7088
    ∷ 7232 ∷ 7248 ∷ 42528 ∷ 43216 ∷ 43264 ∷ 43472 ∷ 43504 ∷ 43600 ∷ 44016 ∷ 65296 ∷ 66720 ∷ 68912
    ∷ 69734 ∷ 69872 ∷ 69942 ∷ 70096 ∷ 70384 ∷ 70736 ∷ 70864 ∷ 71248 ∷ 71360 ∷ 71472 ∷ 71904 ∷ 72016
    ∷ 72784 ∷ 73040 ∷ 73120 ∷ 73552 ∷ 92768 ∷ 92864 ∷ 93008 ∷ 120782 ∷ 120792 ∷ 120802 ∷ 120812
    ∷ 120822 ∷ 123200 ∷ 123632 ∷ 124144 ∷ 125264 ∷ 130032 ∷ []

abbrev in_blocks : List ℕ → ℕ → Bool
in_blocks [] c = false
in_blocks (z ∷ zs) c = (leb z c && leb c (z + 9)) || in_blocks zs c

unfoldable pub is_digit : ℕ → Bool
is_digit c = in_blocks zeros c

-- Whether a text is `n` to `m` digits, and then the end.
abbrev digits_between : ℕ → ℕ → Text → Bool
digits_between n m [] = n == 0
digits_between n zero (c ∷ s) = (n == 0) && ((c == 10) && text_eq s [])
digits_between n (suc m) (c ∷ s) =
    let more = digits_between (n - 1) m s in
    if is_digit c then more else (n == 0) && ((c == 10) && text_eq s [])

-- `_HSN_PATTERN.match(value)`
unfoldable pub is_hsn_code : Text → Bool
unfolding is_digit
is_hsn_code s = digits_between 4 8 s

-- A text of `n` to `m` digits, after which one newline may stand.
pub record IsDigits (n m : ℕ) (s : Text) : Type 0 where
  pub digits : Text
  pub enough : n ≤ length digits
  pub few : length digits ≤ m
  pub only : All (λ c. is_digit c ≡ true) digits
  pub whole : (s ≡ digits) ⊎ (s ≡ digits ++ 10 ∷ [])

newline-IsDigits :
    (n m c : ℕ) (s : Text) → ((n == 0) && ((c == 10) && text_eq s [])) ≡ true → IsDigits n m (c ∷ s)
newline-IsDigits n m c s h =
    let parts : (n ≡ 0) × (c ≡ 10) × (text_eq s [] ≡ true) = ground arith in
    record {
      digits = [];
      enough = omega arith;
      few = omega arith;
      only = tt;
      whole = inr (cc (parts.1, text_eq→eq s [] parts.2));
    }

digit-IsDigits :
    (n m c : ℕ) (s : Text) → is_digit c ≡ true → IsDigits (n - 1) m s → IsDigits n (suc m) (c ∷ s)
digit-IsDigits n m c s d h = record {
  digits = c ∷ h.digits;
  enough = omega (arith, h.enough);
  few = omega (arith, h.few);
  only = (d, h.only);
  whole = elim (h.whole) [ inl e ↦ inl (ap (λ t. c ∷ t) e) | inr e ↦ inr (ap (λ t. c ∷ t) e) ];
}

ended-IsDigits : (n m : ℕ) → (n == 0) ≡ true → IsDigits n m []
ended-IsDigits n m h = record {
  digits = [];
  enough = ground arith;
  few = omega arith;
  only = tt;
  whole = inl refl;
}

digits_between-IsDigits : (n m : ℕ) (s : Text) → digits_between n m s ≡ true → IsDigits n m s
digits_between-IsDigits n zero [] h = ended-IsDigits n zero h
digits_between-IsDigits n (suc m) [] h = ended-IsDigits n (suc m) h
digits_between-IsDigits n zero (c ∷ s) h = newline-IsDigits n zero c s h
digits_between-IsDigits n (suc m) (c ∷ s) h = elim (Bool-cases (is_digit c)) [
  | inl e ↦ digit-IsDigits n m c s e (digits_between-IsDigits (n - 1) m s (rw e at h))
  | inr e ↦ newline-IsDigits n (suc m) c s (rw e at h)
]

pub is_hsn_code-IsDigits : (s : Text) → is_hsn_code s ≡ true → IsDigits 4 8 s
unfolding is_hsn_code
is_hsn_code-IsDigits s h = digits_between-IsDigits 4 8 s h
