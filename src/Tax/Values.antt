-- ===== src/Tax/Values.antt =====
-- The value objects of backend/src/compliance/domain/value_objects.py that tax records hold: each
-- constructor gives the value that it keeps, or raises. Texts are ASCII here, where `strip`, `upper` and
-- `\d` of Python are what stands below.
use cadencia_a2a_platform.Prelude.{
  ℕ, zero, suc, ◌-◌, Bool, true, false, not, ◌&&◌, ◌||◌, List, [], ◌∷◌, ◌++◌, map, leb, ◌==◌,
  if◌then◌else◌,
}
use cadencia_a2a_platform.Prelude.Texts.{Text, text_eq}
use cadencia_a2a_platform.Errors.{validation_error, Result, ok, err}

abbrev pub is_digit : ℕ → Bool
is_digit c = leb b'0' c && leb c b'9'

abbrev pub is_upper : ℕ → Bool
is_upper c = leb b'A' c && leb c b'Z'

abbrev pub is_letter_Z : ℕ → Bool
is_letter_Z c = c == b'Z'

abbrev pub is_alphanumeric : ℕ → Bool
is_alphanumeric c = is_digit c || is_upper c

abbrev pub is_space : ℕ → Bool
is_space c = (leb 9 c && leb c 13) || (leb 28 c && leb c 32)

-- `value.strip()`
abbrev pub left_strip : Text → Text
left_strip [] = []
left_strip (c ∷ s) = let rest = left_strip s in if is_space c then rest else c ∷ s

abbrev pub right_strip : Text → Text
right_strip [] = []
right_strip (c ∷ s) =
    let rest = right_strip s in if is_space c && text_eq rest [] then [] else c ∷ rest

-- `value.upper()`
abbrev pub upper : Text → Text
upper s = map (λ c. if leb b'a' c && leb c b'z' then c - 32 else c) s

unfoldable pub cleaned : Text → Text
cleaned s = upper (right_strip (left_strip s))

-- A character of each class in turn, and then the end, before which `$` lets one newline stand.
unfoldable pub matches : List (ℕ → Bool) → Text → Bool
matches [] [] = true
matches [] (c ∷ s) = (c == 10) && text_eq s []
matches (p ∷ ps) [] = false
matches (p ∷ ps) (c ∷ s) = let rest = matches ps s in p c && rest

-- `^[A-Z]{5}[0-9]{4}[A-Z]$`
abbrev pub pan_pattern : List (ℕ → Bool)
pan_pattern =
    is_upper ∷ is_upper ∷ is_upper ∷ is_upper ∷ is_upper ∷ is_digit ∷ is_digit ∷ is_digit ∷ is_digit
    ∷ is_upper ∷ []

-- `^\d{2}[A-Z]{5}\d{4}[A-Z]\d[Z][0-9A-Z]$`
abbrev pub gstin_pattern : List (ℕ → Bool)
gstin_pattern =
    is_digit ∷ is_digit ∷ (pan_pattern ++ (is_digit ∷ is_letter_Z ∷ is_alphanumeric ∷ []))

-- `PANNumber`
unfoldable pub pan_number : Text → Result Text
unfolding cleaned matches
pan_number s =
    if not (matches pan_pattern (cleaned s)) then err validation_error else ok (cleaned s)

-- `GSTIN`
unfoldable pub gstin : Text → Result Text
unfolding cleaned matches
gstin s = if not (matches gstin_pattern (cleaned s)) then err validation_error else ok (cleaned s)

-- `GSTIN.state_code`
unfoldable pub state_code : Text → Text
state_code [] = []
state_code (c ∷ []) = c ∷ []
state_code (c ∷ d ∷ s) = c ∷ d ∷ []

-- Whether a text is `n` to `m` digits (`re.fullmatch`).
abbrev pub digits_between : ℕ → ℕ → Text → Bool
digits_between n m [] = n == 0
digits_between n zero (c ∷ s) = false
digits_between n (suc m) (c ∷ s) = let more = digits_between (n - 1) m s in is_digit c && more

-- `HSNCode`
unfoldable pub hsn_code : Text → Result Text
hsn_code s =
    let t = right_strip (left_strip s) in
    if not (digits_between 4 8 t) then err validation_error else ok t

abbrev pub purpose_code_form : Text → Bool
purpose_code_form [] = false
purpose_code_form (c ∷ s) = (c == b'P') && digits_between 4 4 s

-- `PurposeCode`
unfoldable pub purpose_code : Text → Result Text
unfolding cleaned
purpose_code s =
    if not (purpose_code_form (cleaned s)) then err validation_error else ok (cleaned s)
