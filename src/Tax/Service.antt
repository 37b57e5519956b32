-- ===== src/Tax/Service.antt =====
-- `generate_compliance_records` and the record queries of `ComplianceService`
-- (backend/src/compliance/application/services.py), on the two repositories' rows of one escrow. The
-- enterprises' snapshots are arguments.
use cadencia_a2a_platform.Prelude.{ℕ, ◌+◌, Option, none, some, List, [], ◌∷◌, ◌==◌, if◌then◌else◌}
use cadencia_a2a_platform.Prelude.Int.{pos_part, neg_part, ℤ, pos}
use cadencia_a2a_platform.Prelude.Texts.{Text, codes}
use cadencia_a2a_platform.Errors.{not_found, Result, ok, err}
use cadencia_a2a_platform.Tax.Decimals.{whole, times, quantize, Decimal}
use cadencia_a2a_platform.Tax.Records.{
  amount_algo_of, generate_fema, generate_gst, FemaRecord, GstRecord,
}

pub record Books : Type 0 where
  pub fema : Option FemaRecord
  pub gst : Option GstRecord

-- `EnterpriseSnapshot`, as far as it is read
pub record Snapshot : Type 0 where
  pub pan : Text
  pub gstin : Text

-- `GenerateComplianceRecordsCommand`, the snapshots that are found for its two enterprises, and the ids
-- and the reading of the clock of the records to be made.
pub record Order : Type 0 where
  pub escrow_id : ℕ
  pub amount_microalgo : ℤ
  pub merkle_root : Text
  pub buyer : Option Snapshot
  pub seller : Option Snapshot
  pub fx_rate_inr_per_algo : Option Decimal
  pub hsn_code : Text
  pub fema_id : ℕ
  pub gst_id : ℕ
  pub now : ℕ

-- `cmd.fx_rate_inr_per_algo or _STUB_FX_RATE_INR_PER_ALGO`: a rate of zero counts as none.
unfoldable pub fx_rate : Option Decimal → Decimal
fx_rate none = whole (pos 15)
fx_rate (some r) =
    if (pos_part r.coefficient + neg_part r.coefficient) == 0 then whole (pos 15) else r

abbrev pub pan_of : Text → Option Snapshot → Text
pan_of placeholder none = placeholder
pan_of placeholder (some s) = s.pan

abbrev pub gstin_of : Text → Option Snapshot → Text
gstin_of placeholder none = placeholder
gstin_of placeholder (some s) = s.gstin

unfoldable pub fema_for : Order → Result FemaRecord
unfolding generate_fema fx_rate
fema_for c =
    generate_fema c.fema_id c.now c.escrow_id (pan_of (codes "AAAAA0000A") c.buyer)
      (pan_of (codes "BBBBB0000B") c.seller) c.amount_microalgo (fx_rate c.fx_rate_inr_per_algo)
      c.merkle_root (codes "P0108")

-- The taxable amount, in paise
unfoldable pub taxable_inr : Order → Decimal
unfolding quantize times fx_rate
taxable_inr c = record {
  coefficient =
      quantize (times (amount_algo_of c.amount_microalgo) (fx_rate c.fx_rate_inr_per_algo));
  places = 2;
}

unfoldable pub gst_for : Order → Result GstRecord
unfolding generate_gst taxable_inr
gst_for c =
    generate_gst c.gst_id c.now c.escrow_id (gstin_of (codes "27AAAAA0000A1Z5") c.buyer)
      (gstin_of (codes "29BBBBB0000B1Z5") c.seller) c.hsn_code (taxable_inr c)

-- The record as the table gives it back: of its columns only that of the rate, Numeric(20, 6), may hold less
-- than was written. `column` is what PostgreSQL makes of a rate there; amounts are within their 20 digits.
abbrev pub stored : (Decimal → Decimal) → FemaRecord → FemaRecord
stored column f = record f { fx_rate_inr_per_algo = column f.fx_rate_inr_per_algo }

-- What is there already stays, and what is not is saved.
abbrev pub kept : {A : Type 0} → Option A → A → Option A
kept none new = some new
kept (some old) new = some old

abbrev pub Generated : Type 0
Generated = Result (FemaRecord × GstRecord) × Books

abbrev pub saved : (Decimal → Decimal) → Result FemaRecord → Result GstRecord → Books → Generated
saved column (err x) g b = (err x, b)
saved column (ok f) (err x) b = (err x, b)
saved column (ok f) (ok g) b =
    (ok (f, g), record { fema = kept b.fema (stored column f); gst = kept b.gst g })

abbrev pub generated :
    (Decimal → Decimal) → Option FemaRecord → Option GstRecord → Order → Books → Generated
generated column (some f) (some g) c b = (ok (f, g), b)
generated column (some f) none c b = saved column (fema_for c) (gst_for c) b
generated column none g c b = saved column (fema_for c) (gst_for c) b

unfoldable pub generate_compliance_records : (Decimal → Decimal) → Order → Books → Generated
unfolding fema_for gst_for
generate_compliance_records column c b = generated column b.fema b.gst c b

unfoldable pub get_fema_record : Books → Result FemaRecord
get_fema_record b = elim (b.fema) [ none ↦ err not_found | some f ↦ ok f ]

unfoldable pub get_gst_record : Books → Result GstRecord
get_gst_record b = elim (b.gst) [ none ↦ err not_found | some g ↦ ok g ]

-- Orders one after another.
unfoldable pub run : (Decimal → Decimal) → List Order → Books → Books
unfolding generate_compliance_records
run column [] b = b
run column (c ∷ cs) b = run column cs (generate_compliance_records column c b).1
