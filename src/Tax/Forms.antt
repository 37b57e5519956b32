-- ===== src/Tax/Forms.antt =====
-- The value objects of backend/src/compliance/domain/value_objects.py keep their texts in a normal form.
use cadencia_a2a_platform.Prelude.{
  ℕ, ◌-◌, ◌≡◌, refl, sym, ap, ◌∙◌, inl, inr, Bool, not, ◌&&◌, [], ◌∷◌, arith, leb, if◌then◌else◌,
  Bool-cases,
}
use cadencia_a2a_platform.Prelude.Texts.{Text, text_eq}
use cadencia_a2a_platform.Errors.{validation_error, Result, ok, err}
use cadencia_a2a_platform.Tax.Values.{
  is_space, left_strip, right_strip, upper, cleaned, matches, pan_pattern, gstin_pattern,
  pan_number, gstin, digits_between, hsn_code, purpose_code_form, purpose_code,
}

-- `upper` of one character
abbrev up : ℕ → ℕ
up c = if leb b'a' c && leb c b'z' then c - 32 else c

up_space : (c : ℕ) → is_space (up c) ≡ is_space c
up_space c = ground arith

up-up : (c : ℕ) → up (up c) ≡ up c
up-up c = ground arith

upper-upper : (s : Text) → upper (upper s) ≡ upper s
upper-upper [] = refl
upper-upper (c ∷ s) = λ i. up-up c i ∷ upper-upper s i

upper_empty : (s : Text) → text_eq (upper s) [] ≡ text_eq s []
upper_empty [] = refl
upper_empty (c ∷ s) = refl

left_strip-upper : (s : Text) → left_strip (upper s) ≡ upper (left_strip s)
left_strip-upper [] = refl
left_strip-upper (c ∷ s) = elim (Bool-cases (is_space c)) [
  | inl e ↦ rw (up_space c, e) (left_strip-upper s)
  | inr e ↦ rw (up_space c, e) refl
]

right_strip-upper : (s : Text) → right_strip (upper s) ≡ upper (right_strip s)
right_strip-upper [] = refl
right_strip-upper (c ∷ s) = elim (Bool-cases (is_space c && text_eq (right_strip s) [])) [
  | inl e ↦ rw (right_strip-upper s, up_space c, upper_empty (right_strip s), e) refl
  | inr e ↦ rw (right_strip-upper s, up_space c, upper_empty (right_strip s), e) refl
]

right_right : (s : Text) → right_strip (right_strip s) ≡ right_strip s
right_right [] = refl
right_right (c ∷ s) = elim (Bool-cases (is_space c && text_eq (right_strip s) [])) [
  | inl e ↦ rw e refl
  | inr e ↦ rw (e, right_right s, e) refl
]

stripped_again : (s : Text) → left_strip (right_strip (left_strip s)) ≡ right_strip (left_strip s)
stripped_again [] = refl
stripped_again (c ∷ s) = elim (Bool-cases (is_space c)) [
  | inl e ↦ rw e (stripped_again s)
  | inr e ↦ simp e
]

cleaned-cleaned : (s : Text) → cleaned (cleaned s) ≡ cleaned s
unfolding cleaned
cleaned-cleaned s =
    let t = right_strip (left_strip s) in
    ap (λ (x : Text). upper (right_strip x)) (left_strip-upper t)
    ∙ (ap upper (right_strip-upper (left_strip t))
        ∙ (upper-upper (right_strip (left_strip t))
            ∙ ap upper (ap right_strip (stripped_again s) ∙ right_right (left_strip s))))

checked :
    (form : Text → Bool) (s t : Text)
    → (if not (form (cleaned s)) then err validation_error else ok (cleaned s)) ≡ ok t
    → (if not (form (cleaned t)) then err validation_error else ok (cleaned t)) ≡ ok t
checked form s t h = elim (Bool-cases (form (cleaned s))) [
  | inl e ↦ let q : cleaned s ≡ t = cc (rw e at h) in rw (sym q, cleaned-cleaned s, e) refl
  | inr e ↦ absurd (cc (rw e at h))
]

hsn_again : (s t : Text) → hsn_code s ≡ ok t → hsn_code t ≡ ok t
unfolding hsn_code
hsn_again s t h = elim (Bool-cases (digits_between 4 8 (right_strip (left_strip s)))) [
  | inl e ↦
      let q : right_strip (left_strip s) ≡ t = cc (rw e at h) in
      rw (sym q, stripped_again s, right_right (left_strip s), e) refl
  | inr e ↦ absurd (cc (rw e at h))
]

pan_again : (s t : Text) → pan_number s ≡ ok t → pan_number t ≡ ok t
unfolding pan_number
pan_again s t h = checked (matches pan_pattern) s t h

gstin_again : (s t : Text) → gstin s ≡ ok t → gstin t ≡ ok t
unfolding gstin
gstin_again s t h = checked (matches gstin_pattern) s t h

purpose_again : (s t : Text) → purpose_code s ≡ ok t → purpose_code t ≡ ok t
unfolding purpose_code
purpose_again s t h = checked purpose_code_form s t h

-- The four identifiers of the records, by their constructors.
pub data Identifier : Type 0 where
  pan_id gstin_id purpose_id hsn_id : Identifier

abbrev pub read : Identifier → Text → Result Text
read pan_id = pan_number
read gstin_id = gstin
read purpose_id = purpose_code
read hsn_id = hsn_code

-- The text that a PAN, a GSTIN, a purpose code or an HSN code holds is a normal form: read again it is
-- accepted and gives itself.
pub forms_are_normal : (k : Identifier) (s t : Text) → read k s ≡ ok t → read k t ≡ ok t
forms_are_normal pan_id = pan_again
forms_are_normal gstin_id = gstin_again
forms_are_normal purpose_id = purpose_again
forms_are_normal hsn_id = hsn_again
