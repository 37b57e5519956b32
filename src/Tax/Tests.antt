-- ===== src/Tax/Tests.antt =====
-- The theorems on the tax records at concrete inputs.
use cadencia_a2a_platform.Prelude.{ℕ, suc, ◌+◌, ◌*◌, ◌≤◌, ◌≡◌, refl, ◌↔◌, ◌⊎◌, none, some, [], ◌∷◌}
use cadencia_a2a_platform.Prelude.Int.{pos}
use cadencia_a2a_platform.Prelude.Texts.{Text, codes}
use cadencia_a2a_platform.Errors.{ok}
use cadencia_a2a_platform.Tax.Values.{cleaned, matches, pan_number}
use cadencia_a2a_platform.Tax.Decimals.{ten_to, times, Decimal}
use cadencia_a2a_platform.Tax.Records.{
  generate_fema, gst_record, generate_gst, total_tax, FemaRecord, GstRecord, form_15ca, form_15cb,
  igst,
}
use cadencia_a2a_platform.Tax.Service.{
  stored, generate_compliance_records, get_fema_record, get_gst_record, run, Books, Order,
}
use cadencia_a2a_platform.Tax.Amounts.{fema_amount-IsNear}
use cadencia_a2a_platform.Tax.Due.{IsInterstate, IsIntrastate, gst-IsDue}
use cadencia_a2a_platform.Tax.Keeping.{first_records_stay}
use cadencia_a2a_platform.Tax.Forms.{forms_are_normal, pan_id}

abbrev pan : Text
pan = codes "ABCDE1234F"

abbrev delhi : Text
delhi = codes "07ABCDE1234F1Z5"

abbrev pune : Text
pune = codes "27AABCP1234C1Z5"

abbrev root : Text
root = codes "00"

-- 1.234567 ALGO at 22.5 rupees: 27.7777575
abbrev rate : Decimal
rate = record { coefficient = pos 225; places = 1 }

abbrev fema : FemaRecord
fema = record {
  id = 1;
  generated_at = 9;
  escrow_id = 7;
  form_type = form_15ca;
  purpose_code = codes "P0108";
  buyer_pan = pan;
  seller_pan = pan;
  amount_inr = 2_778;
  amount_algo = record { coefficient = pos 1_234_567; places = 6 };
  fx_rate_inr_per_algo = rate;
  merkle_root = root;
}

fema_made :
    generate_fema 1 9 7 pan (codes " abcde1234f ") (pos 1_234_567) rate root (codes "p0108")
    ≡ ok fema
unfolding generate_fema cleaned matches
fema_made = refl

fema_amount-IsNear_example :
    let unit = ten_to (suc (3 + 1)) in
    (2 * (2_778 * unit) ≤ 2 * (1_234_567 * 225) + unit)
    × (2 * (1_234_567 * 225) ≤ 2 * (2_778 * unit) + unit)
    × ((form_15ca ≡ form_15cb) ↔ (500_000 * ten_to (3 + (3 + 1)) ≤ 1_234_567 * 225))
fema_amount-IsNear_example =
    fema_amount-IsNear 1 9 7 pan (codes " abcde1234f ") 1_234_567 225 1 root (codes "p0108") fema
      fema_made

-- 18 percent of 1,111.25 rupees is 200.025: half a paisa, which goes to the even 200.02.
abbrev due : GstRecord
due = gst_record 2 9 7 (codes "8471") delhi pune igst 111_125 20_002 0 0

due_made :
    generate_gst 2 9 7 delhi pune (codes "8471") (record { coefficient = pos 111_125; places = 2 })
    ≡ ok due
unfolding generate_gst cleaned matches
due_made = refl

gst-IsDue_example :
    ((◌≡◌ {A = ℕ} 111_125 111_125)
      × (100 * total_tax due ≤ 18 * 111_125 + 100)
      × (18 * 111_125 ≤ 100 * total_tax due + 100))
    × (IsInterstate due ⊎ IsIntrastate due)
gst-IsDue_example = gst-IsDue 2 9 7 delhi pune (codes "8471") 111_125 due due_made

abbrev order : Order
order = record {
  escrow_id = 7;
  amount_microalgo = pos 900_000;
  merkle_root = root;
  buyer = none;
  seller = some (record { pan = pan; gstin = delhi });
  fx_rate_inr_per_algo = none;
  hsn_code = codes "8471";
  fema_id = 1;
  gst_id = 2;
  now = 9;
}

abbrev empty_books : Books
empty_books = record { fema = none; gst = none }

abbrev order_fema : FemaRecord
order_fema = record {
  id = 1;
  generated_at = 9;
  escrow_id = 7;
  form_type = form_15ca;
  purpose_code = codes "P0108";
  buyer_pan = codes "AAAAA0000A";
  seller_pan = pan;
  amount_inr = 1_350;
  amount_algo = record { coefficient = pos 900_000; places = 6 };
  fx_rate_inr_per_algo = record { coefficient = pos 15; places = 0 };
  merkle_root = root;
}

abbrev order_gst : GstRecord
order_gst = gst_record 2 9 7 (codes "8471") (codes "27AAAAA0000A1Z5") delhi igst 1_350 243 0 0

-- A rate in whole rupees with the six places of its column.
abbrev six_places : Decimal → Decimal
six_places r = times r (record { coefficient = pos 1_000_000; places = 6 })

order_made :
    (generate_compliance_records six_places order empty_books).0 ≡ ok (order_fema, order_gst)
unfolding generate_compliance_records cleaned matches
order_made = refl

first_records_stay_example :
    (get_fema_record (run six_places (order ∷ order ∷ []) empty_books)
      ≡ ok (stored six_places order_fema))
    × (get_gst_record (run six_places (order ∷ order ∷ []) empty_books) ≡ ok order_gst)
    × ((generate_compliance_records six_places order
          (run six_places (order ∷ order ∷ []) empty_books)).0
        ≡ ok (stored six_places order_fema, order_gst))
first_records_stay_example =
    first_records_stay six_places order order (order ∷ []) empty_books order_fema order_gst refl
      refl order_made

pan_read : pan_number (codes " abcde1234f ") ≡ ok pan
unfolding pan_number cleaned matches
pan_read = refl

forms_are_normal_example : pan_number pan ≡ ok pan
forms_are_normal_example = forms_are_normal pan_id (codes " abcde1234f ") pan pan_read
