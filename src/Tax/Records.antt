-- ===== src/Tax/Records.antt =====
-- `FEMARecord` and `GSTRecord` of backend/src/compliance/domain/fema_record.py and gst_record.py, with
-- their factories. The id and the reading of the clock of a new record are arguments.
use cadencia_a2a_platform.Prelude.{ℕ, ◌+◌, not, if◌then◌else◌}
use cadencia_a2a_platform.Prelude.Int.{ℤ, pos}
use cadencia_a2a_platform.Prelude.Texts.{Text, text_eq}
use cadencia_a2a_platform.Errors.{Result, ok, err}
use cadencia_a2a_platform.Tax.Values.{pan_number, gstin, state_code, hsn_code, purpose_code}
use cadencia_a2a_platform.Tax.Decimals.{
  whole, over_ten_to, times, at_least, quantize, inr_amount, Decimal,
}

pub data FormType : Type 0 where
  form_15ca form_15cb : FormType

pub record FemaRecord : Type 0 where
  pub id : ℕ
  pub generated_at : ℕ
  pub escrow_id : ℕ
  pub form_type : FormType
  pub purpose_code : Text
  pub buyer_pan : Text
  pub seller_pan : Text
  pub amount_inr : ℕ  -- paise
  pub amount_algo : Decimal
  pub fx_rate_inr_per_algo : Decimal
  pub merkle_root : Text

pub data TaxType : Type 0 where
  igst cgst_sgst : TaxType

-- Amounts are in paise.
pub record GstRecord : Type 0 where
  pub id : ℕ
  pub generated_at : ℕ
  pub escrow_id : ℕ
  pub hsn_code : Text
  pub buyer_gstin : Text
  pub seller_gstin : Text
  pub tax_type : TaxType
  pub taxable_amount : ℕ
  pub igst_amount : ℕ
  pub cgst_amount : ℕ
  pub sgst_amount : ℕ

-- A value object, or the exception of its constructor.
abbrev pub built : {A B : Type 0} → Result A → (A → Result B) → Result B
built (err x) k = err x
built (ok a) k = k a

abbrev pub amount_algo_of : ℤ → Decimal
amount_algo_of microalgo = over_ten_to 6 (whole microalgo)

abbrev pub form_of : Decimal → FormType
form_of amount_inr = if at_least 500_000 amount_inr then form_15cb else form_15ca

-- `FEMARecord.generate`
unfoldable pub generate_fema :
    ℕ → ℕ → ℕ → Text → Text → ℤ → Decimal → Text → Text → Result FemaRecord
unfolding purpose_code pan_number inr_amount quantize times
generate_fema id now escrow buyer seller microalgo rate root purpose =
    let algo = amount_algo_of microalgo in
    let amount = times algo rate in
    built (purpose_code purpose) (λ code. built (pan_number buyer) (λ buyer_pan.
      built (pan_number seller) (λ seller_pan. built (inr_amount (quantize amount)) (λ inr.
        ok (record {
          id = id;
          generated_at = now;
          escrow_id = escrow;
          form_type = form_of amount;
          purpose_code = code;
          buyer_pan = buyer_pan;
          seller_pan = seller_pan;
          amount_inr = inr;
          amount_algo = algo;
          fx_rate_inr_per_algo = rate;
          merkle_root = root;
        })))))

-- `(taxable * rate / 100).quantize(…)`, as an amount
unfoldable pub tax_of : ℕ → Decimal → Result ℕ
unfolding inr_amount quantize times
tax_of rate taxable = inr_amount (quantize (over_ten_to 2 (times taxable (whole (pos rate)))))

abbrev pub gst_record : ℕ → ℕ → ℕ → Text → Text → Text → TaxType → ℕ → ℕ → ℕ → ℕ → GstRecord
gst_record id now escrow hsn buyer seller kind taxable igst_due cgst_due sgst_due = record {
  id = id;
  generated_at = now;
  escrow_id = escrow;
  hsn_code = hsn;
  buyer_gstin = buyer;
  seller_gstin = seller;
  tax_type = kind;
  taxable_amount = taxable;
  igst_amount = igst_due;
  cgst_amount = cgst_due;
  sgst_amount = sgst_due;
}

abbrev pub interstate : ℕ → ℕ → ℕ → Text → Text → Text → ℕ → Decimal → Result GstRecord
interstate id now escrow buyer seller hsn taxable amount = built (tax_of 18 amount) (λ due.
    built (hsn_code hsn)
      (λ code. ok (gst_record id now escrow code buyer seller igst taxable due 0 0)))

abbrev pub intrastate : ℕ → ℕ → ℕ → Text → Text → Text → ℕ → Decimal → Result GstRecord
intrastate id now escrow buyer seller hsn taxable amount = built (tax_of 9 amount) (λ cgst_due.
    built (tax_of 9 amount) (λ sgst_due. built (hsn_code hsn) (λ code.
      ok (gst_record id now escrow code buyer seller cgst_sgst taxable 0 cgst_due sgst_due))))

-- `GSTRecord.generate`
unfoldable pub generate_gst : ℕ → ℕ → ℕ → Text → Text → Text → Decimal → Result GstRecord
unfolding gstin hsn_code inr_amount quantize tax_of state_code
generate_gst id now escrow buyer seller hsn amount = built (gstin buyer) (λ buyer_gstin.
    built (gstin seller) (λ seller_gstin. built (inr_amount (quantize amount)) (λ taxable.
      if not (text_eq (state_code buyer_gstin) (state_code seller_gstin))
      then interstate id now escrow buyer_gstin seller_gstin hsn taxable amount
      else intrastate id now escrow buyer_gstin seller_gstin hsn taxable amount)))

-- `GSTRecord.total_tax`
abbrev pub total_tax : GstRecord → ℕ
total_tax g = g.igst_amount + g.cgst_amount + g.sgst_amount
