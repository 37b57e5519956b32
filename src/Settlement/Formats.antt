-- ===== src/Settlement/Formats.antt =====
-- What the value objects of backend/src/settlement/domain/value_objects.py accept.
use cadencia_a2a_platform.Prelude.{
  ℕ, zero, suc, ◌≤◌, ◌≡◌, refl, ◌⊎◌, inl, inr, true, false, ◌&&◌, Option, [], ◌∷◌, ◌++◌, arith,
  ◌==◌, Bool-cases, length,
}
use cadencia_a2a_platform.Prelude.Int.{ℤ}
use cadencia_a2a_platform.Prelude.Texts.{Text, codes, text_eq}
use cadencia_a2a_platform.Errors.{validation_error, ok, err}
use cadencia_a2a_platform.Settlement.Values.{
  is_base32, matches_base32, app_address, tx_id, escrow_amount,
}
use cadencia_a2a_platform.Settlement.Pricing.{price_microalgo}

abbrev pub AllBase32 : Text → Type 0
AllBase32 [] = Unit
AllBase32 (c ∷ s) = (is_base32 c ≡ true) × AllBase32 s

-- `n` characters of the base-32 alphabet, alone or before one newline.
abbrev pub IsBase32 : ℕ → Text → Type 0
IsBase32 n s = (t : Text) × AllBase32 t × (length t ≡ n) × ((s ≡ t) ⊎ (s ≡ t ++ codes "\n"))

newline_only : (c : ℕ) (s : Text) → (c == 10) && text_eq s [] ≡ true → c ∷ s ≡ codes "\n"
newline_only c [] h = ground arith
newline_only c (d ∷ s) h = ground arith

matches_base32-IsBase32 : (n : ℕ) (s : Text) → matches_base32 n s ≡ true → IsBase32 n s
unfolding matches_base32
matches_base32-IsBase32 zero [] h = ([], search, refl, inl refl)
matches_base32-IsBase32 zero (c ∷ s) h = ([], search, refl, inr (newline_only c s h))
matches_base32-IsBase32 (suc n) [] h = absurd (cc)
matches_base32-IsBase32 (suc n) (c ∷ s) h =
    let (t, all, len, e) = matches_base32-IsBase32 n s (ground arith) in
    (c ∷ t, (ground arith, all), omega (arith, len), elim e [ inl p ↦ inl (cc) | inr p ↦ inr (cc) ])

plain_matches : (n : ℕ) (t : Text) → AllBase32 t → length t ≡ n → matches_base32 n t ≡ true
unfolding matches_base32
plain_matches zero [] a l = refl
plain_matches (suc n) [] a l = absurd (omega (arith, l))
plain_matches zero (c ∷ t) a l = absurd (omega (arith, l))
plain_matches (suc n) (c ∷ t) a l = ground (arith, a.0, plain_matches n t a.1 (omega (arith, l)))

ended_matches :
    (n : ℕ) (t : Text) → AllBase32 t → length t ≡ n → matches_base32 n (t ++ codes "\n") ≡ true
unfolding matches_base32
ended_matches zero [] a l = refl
ended_matches (suc n) [] a l = absurd (omega (arith, l))
ended_matches zero (c ∷ t) a l = absurd (omega (arith, l))
ended_matches (suc n) (c ∷ t) a l = ground (arith, a.0, ended_matches n t a.1 (omega (arith, l)))

IsBase32-matches_base32 : (n : ℕ) (s : Text) → IsBase32 n s → matches_base32 n s ≡ true
IsBase32-matches_base32 n s (t, all, len, inl e) = rw e (plain_matches n t all len)
IsBase32-matches_base32 n s (t, all, len, inr e) = rw e (ended_matches n t all len)

decided :
    (n : ℕ) (s : Text)
    → ((matches_base32 n s ≡ true) × IsBase32 n s) ⊎ ((matches_base32 n s ≡ false) × ¬ IsBase32 n s)
decided n s = elim (Bool-cases (matches_base32 n s)) [
  | inl e ↦ inl (e, matches_base32-IsBase32 n s e)
  | inr e ↦ inr (e, λ h. cc (e, IsBase32-matches_base32 n s h))
]

tx_id_decided :
    (s : Text)
    → ((tx_id s ≡ ok s) × IsBase32 52 s) ⊎ ((tx_id s ≡ err validation_error) × ¬ IsBase32 52 s)
unfolding tx_id
tx_id_decided s = elim (decided 52 s) [
  | inl h ↦ inl (rw h.0 refl, h.1)
  | inr h ↦ inr (rw h.0 refl, h.1)
]

app_address_decided :
    (s : Text)
    → ((app_address s ≡ ok s) × IsBase32 58 s)
      ⊎ ((app_address s ≡ err validation_error) × ¬ IsBase32 58 s)
unfolding app_address
app_address_decided s = elim (decided 58 s) [
  | inl h ↦ inl (rw h.0 refl, h.1)
  | inr h ↦ inr (rw h.0 refl, h.1)
]

-- `TxId` holds the text that it is given, and `AlgoAppAddress` likewise, exactly when it is 52 characters
-- (58 for the address) of the base-32 alphabet, alone or followed by one newline; every other text is a
-- validation error.
pub ids_accepted_iff :
    (s : Text)
    → (((tx_id s ≡ ok s) × IsBase32 52 s) ⊎ ((tx_id s ≡ err validation_error) × ¬ IsBase32 52 s))
      × (((app_address s ≡ ok s) × IsBase32 58 s)
          ⊎ ((app_address s ≡ err validation_error) × ¬ IsBase32 58 s))
ids_accepted_iff s = (tx_id_decided s, app_address_decided s)

-- The price of a pending escrow is at least 1,000 and at most 999,000 microALGO, whatever rate the FX
-- adapter gives, raised or negative amounts included, and so it is an amount that `EscrowAmount` takes.
pub price-IsBounded :
    (in_micro : Option ℤ) (fallback : ℤ)
    → (1_000 ≤ price_microalgo in_micro fallback)
      × (price_microalgo in_micro fallback ≤ 999_000)
      × (escrow_amount (price_microalgo in_micro fallback) ≡ ok (price_microalgo in_micro fallback))
unfolding price_microalgo escrow_amount
price-IsBounded in_micro fallback = ground arith
