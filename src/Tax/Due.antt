-- ===== src/Tax/Due.antt =====
-- The tax of a GST record (backend/src/compliance/domain/gst_record.py).
use cadencia_a2a_platform.Prelude.{
  ℕ, ◌+◌, ◌*◌, ◌≤◌, ◌≡◌, refl, sym, ap, ◌≢◌, ◌⊎◌, inl, inr, not, arith, if◌then◌else◌, Bool-cases,
}
use cadencia_a2a_platform.Prelude.Texts.{Text, text_eq, text_eq_self, text_eq→eq}
use cadencia_a2a_platform.Prelude.Int.{pos}
use cadencia_a2a_platform.Errors.{ok}
use cadencia_a2a_platform.Tax.Amounts.{
  built_ok, quantize-small, quantize-pos, inr_amount_ok, product_pos,
}
use cadencia_a2a_platform.Tax.Rounding.{half_even-IsNear}
use cadencia_a2a_platform.Tax.Values.{gstin, state_code, hsn_code}
use cadencia_a2a_platform.Tax.Decimals.{
  whole, over_ten_to, times, half_even, quantize, inr_amount, Decimal,
}
use cadencia_a2a_platform.Tax.Records.{
  tax_of, gst_record, interstate, intrastate, generate_gst, total_tax, GstRecord, igst, cgst_sgst,
}

taxed :
    (n r : ℕ)
    → over_ten_to 2 (times (record { coefficient = pos n; places = 2 }) (whole (pos r)))
      ≡ record { coefficient = pos (n * r); places = 4 }
unfolding times
taxed n r = λ i. record { coefficient = product_pos n r i; places = 4 }

tax_of-IsNear :
    (r n d : ℕ)
    → tax_of r (record { coefficient = pos n; places = 2 }) ≡ ok d
    → (2 * (d * 100) ≤ 2 * (n * r) + 100) × (2 * (n * r) ≤ 2 * (d * 100) + 100)
unfolding tax_of
tax_of-IsNear r n d h =
    let due : half_even (n * r) 100 ≡ d =
      cc (sym (quantize-pos (n * r) 1), ap quantize (taxed n r), inr_amount_ok _ d h) in
    let near = half_even-IsNear (n * r) 100 (omega arith) in
    (rw (sym due) near.0, rw (sym due) near.1)

-- What the record says of its kind, and how much is due.
abbrev pub IsInterstate : GstRecord → Type 0
IsInterstate g =
    (g.tax_type ≡ igst)
    × (g.cgst_amount ≡ 0)
    × (g.sgst_amount ≡ 0)
    × (state_code g.buyer_gstin ≢ state_code g.seller_gstin)

abbrev pub IsIntrastate : GstRecord → Type 0
IsIntrastate g =
    (g.tax_type ≡ cgst_sgst)
    × (g.igst_amount ≡ 0)
    × (g.cgst_amount ≡ g.sgst_amount)
    × (state_code g.buyer_gstin ≡ state_code g.seller_gstin)

abbrev IsDue : ℕ → GstRecord → Type 0
IsDue n g =
    (g.taxable_amount ≡ n) × (100 * total_tax g ≤ 18 * n + 100) × (18 * n ≤ 100 * total_tax g + 100)

interstate-IsDue :
    (id now escrow : ℕ) (buyer seller hsn : Text) (n : ℕ) (g : GstRecord)
    → state_code buyer ≢ state_code seller
    → interstate id now escrow buyer seller hsn n (record { coefficient = pos n; places = 2 })
      ≡ ok g
    → IsDue n g × IsInterstate g
interstate-IsDue id now escrow buyer seller hsn n g p h =
    let (due, e, h1) = built_ok (tax_of 18 (record { coefficient = pos n; places = 2 })) _ g h in
    let (code, e1, h2) = built_ok (hsn_code hsn) _ g h1 in
    let near = tax_of-IsNear 18 n due e in
    let made : gst_record id now escrow code buyer seller igst n due 0 0 ≡ g = cc (h2) in
    rw (sym made) ((refl, omega (arith, near.0), omega (arith, near.1)), (refl, refl, refl, p))

intrastate-IsDue :
    (id now escrow : ℕ) (buyer seller hsn : Text) (n : ℕ) (g : GstRecord)
    → state_code buyer ≡ state_code seller
    → intrastate id now escrow buyer seller hsn n (record { coefficient = pos n; places = 2 })
      ≡ ok g
    → IsDue n g × IsIntrastate g
intrastate-IsDue id now escrow buyer seller hsn n g p h =
    let (due, e, h1) = built_ok (tax_of 9 (record { coefficient = pos n; places = 2 })) _ g h in
    let (due', e', h2) = built_ok (tax_of 9 (record { coefficient = pos n; places = 2 })) _ g h1 in
    let (code, e1, h3) = built_ok (hsn_code hsn) _ g h2 in
    let near = tax_of-IsNear 9 n due e in
    let same : due' ≡ due = cc (e, e') in
    let made : gst_record id now escrow code buyer seller cgst_sgst n 0 due due' ≡ g = cc (h3) in
    rw (sym made)
      ((refl, omega (arith, near.0, same), omega (arith, near.1, same)), (refl, refl, sym same, p))

by_state :
    (id now escrow : ℕ) (buyer seller hsn : Text) (n : ℕ) (g : GstRecord)
    → (let amount : Decimal = record { coefficient = pos n; places = 2 } in
        if not (text_eq (state_code buyer) (state_code seller))
        then interstate id now escrow buyer seller hsn n amount
        else intrastate id now escrow buyer seller hsn n amount)
      ≡ ok g
    → IsDue n g × (IsInterstate g ⊎ IsIntrastate g)
by_state id now escrow buyer seller hsn n g h =
    elim (Bool-cases (text_eq (state_code buyer) (state_code seller))) [
      | inl e ↦
          let r =
            intrastate-IsDue id now escrow buyer seller hsn n g
              (text_eq→eq (state_code buyer) (state_code seller) e) (rw e at h) in
          (r.0, inr r.1)
      | inr e ↦
          let r =
            interstate-IsDue id now escrow buyer seller hsn n g
              (λ p. cc (e, p, text_eq_self (state_code buyer))) (rw e at h) in
          (r.0, inl r.1)
    ]

-- A GST record of a taxable amount of `n` paise charges 18 percent of it to within one paisa, and either
-- as IGST alone, where the state codes of the two GSTINs differ, or in equal halves as CGST and SGST,
-- where they are the same.
pub gst-IsDue :
    (id now escrow : ℕ) (buyer seller hsn : Text) (n : ℕ) (g : GstRecord)
    → generate_gst id now escrow buyer seller hsn (record { coefficient = pos n; places = 2 })
      ≡ ok g
    → ((g.taxable_amount ≡ n)
        × (100 * total_tax g ≤ 18 * n + 100)
        × (18 * n ≤ 100 * total_tax g + 100))
      × (IsInterstate g ⊎ IsIntrastate g)
unfolding generate_gst
gst-IsDue id now escrow buyer seller hsn n g h =
    let (b, e, h1) = built_ok (gstin buyer) _ g h in
    let (s, e1, h2) = built_ok (gstin seller) _ g h1 in
    let (taxable, e2, h3) =
      built_ok (inr_amount (quantize (record { coefficient = pos n; places = 2 }))) _ g h2 in
    let same : taxable ≡ n = cc (inr_amount_ok _ taxable e2, quantize-small n) in
    by_state id now escrow b s hsn n g (rw same at h3)
