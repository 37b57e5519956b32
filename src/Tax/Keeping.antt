-- ===== src/Tax/Keeping.antt =====
-- The tax records of an escrow stay as they were first generated (`generate_compliance_records` of
-- backend/src/compliance/application/services.py).
use cadencia_a2a_platform.Prelude.{
  ◌≡◌, refl, sym, ap, ◌∙◌, Option, none, some, List, [], ◌∷◌, arith,
}
use cadencia_a2a_platform.Errors.{Result, ok, err}
use cadencia_a2a_platform.Tax.Records.{FemaRecord, GstRecord}
use cadencia_a2a_platform.Tax.Service.{
  stored, fema_for, gst_for, saved, generated, generate_compliance_records, get_fema_record,
  get_gst_record, run, Books, Order,
}
use cadencia_a2a_platform.Tax.Decimals.{Decimal}

saved_both :
    (column : Decimal → Decimal) (rf : Result FemaRecord) (rg : Result GstRecord) (b : Books)
    (f : FemaRecord) (g : GstRecord)
    → b.fema ≡ none
    → b.gst ≡ none
    → (saved column rf rg b).0 ≡ ok (f, g)
    → (saved column rf rg b).1 ≡ record { fema = some (stored column f); gst = some g }
saved_both column (err x) rg b f g p q h = absurd (cc)
saved_both column (ok f') (err x) b f g p q h = absurd (cc)
saved_both column (ok f') (ok g') b f g p q h = ground (arith, p, q, h)

both :
    (column : Decimal → Decimal) (o : Option FemaRecord) (q : Option GstRecord) (c : Order)
    (b : Books) (f : FemaRecord) (g : GstRecord)
    → o ≡ b.fema
    → q ≡ b.gst
    → o ≡ none
    → q ≡ none
    → (generated column o q c b).0 ≡ ok (f, g)
    → (generated column o q c b).1 ≡ record { fema = some (stored column f); gst = some g }
both column none none c b f g x y p r h =
    saved_both column (fema_for c) (gst_for c) b f g (sym x) (sym y) h
both column none (some g') c b f g x y p r h = absurd (cc)
both column (some f') q c b f g x y p r h = absurd (cc)

generated_both :
    (column : Decimal → Decimal) (c : Order) (b : Books) (f : FemaRecord) (g : GstRecord)
    → b.fema ≡ none
    → b.gst ≡ none
    → (generate_compliance_records column c b).0 ≡ ok (f, g)
    → (generate_compliance_records column c b).1
      ≡ record { fema = some (stored column f); gst = some g }
unfolding generate_compliance_records
generated_both column c b f g p q h = both column b.fema b.gst c b f g refl refl p q h

run_full :
    (column : Decimal → Decimal) (cs : List Order) (f : FemaRecord) (g : GstRecord)
    → run column cs (record { fema = some f; gst = some g })
      ≡ record { fema = some f; gst = some g }
unfolding run
run_full column [] f g = refl
run_full column (c ∷ cs) f g = run_full column cs f g

-- The records that the first successful order generates for an escrow, the exchange rate as its column
-- gives it back and all else as generated, are the ones that the queries give ever after, whatever
-- orders follow for it; such an order answers with them.
pub first_records_stay :
    (column : Decimal → Decimal) (c c' : Order) (cs : List Order) (b : Books) (f : FemaRecord)
    (g : GstRecord)
    → b.fema ≡ none
    → b.gst ≡ none
    → (generate_compliance_records column c b).0 ≡ ok (f, g)
    → (get_fema_record (run column (c ∷ cs) b) ≡ ok (stored column f))
      × (get_gst_record (run column (c ∷ cs) b) ≡ ok g)
      × ((generate_compliance_records column c' (run column (c ∷ cs) b)).0
          ≡ ok (stored column f, g))
unfolding run get_fema_record get_gst_record generate_compliance_records
first_records_stay column c c' cs b f g p q h =
    let full : run column cs (generate_compliance_records column c b).1
        ≡ record { fema = some (stored column f); gst = some g } =
      ap (run column cs) (generated_both column c b f g p q h)
      ∙ run_full column cs (stored column f) g in
    rw full (refl, refl, refl)
