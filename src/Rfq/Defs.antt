-- ===== src/Rfq/Defs.antt =====
-- `RFQ` of backend/src/marketplace/domain/rfq.py, with the value objects of value_objects.py and
-- `Match` of match.py. Dates are numbers of days; a Decimal is an integer in its smallest unit.
use cadencia_a2a_platform.Prelude.{
  ℕ, Bool, true, false, not, ◌||◌, Option, none, some, List, [], ◌∷◌, ltb, ◌==◌, if◌then◌else◌,
}
use cadencia_a2a_platform.Prelude.Int.{ltb_ℤ, leb_ℤ, ℤ, pos}
use cadencia_a2a_platform.Prelude.Texts.{Text, text_eq}
use cadencia_a2a_platform.Errors.{validation_error, conflict_error, Result, ok, err}
use cadencia_a2a_platform.Rfq.Digits.{is_hsn_code}

pub data RfqStatus : Type 0 where
  draft parsed matched confirmed settled expired : RfqStatus

abbrev rank : RfqStatus → ℕ
rank draft = 0
rank parsed = 1
rank matched = 2
rank confirmed = 3
rank settled = 4
rank expired = 5

-- `==` of the enumeration
abbrev pub is : RfqStatus → RfqStatus → Bool
is s t = rank s == rank t

pub record BudgetRange : Type 0 where
  pub min_value : ℤ
  pub max_value : ℤ

-- `BudgetRange.__post_init__`, in the default currency
unfoldable pub budget_range : ℤ → ℤ → Result BudgetRange
budget_range low high =
    if ltb_ℤ low (pos 0)
    then err validation_error
    else if ltb_ℤ high (pos 0)
    then err validation_error
    else if ltb_ℤ high low
    then err validation_error
    else ok (record { min_value = low; max_value = high })

pub record DeliveryWindow : Type 0 where
  pub start_date : ℕ
  pub end_date : ℕ

-- `DeliveryWindow.__post_init__`
unfoldable pub delivery_window : ℕ → ℕ → Result DeliveryWindow
delivery_window start end' =
    if ltb end' start
    then err validation_error
    else ok (record { start_date = start; end_date = end' })

-- The fields that the parser extracted: absent or present, and present ones as `str` gives them, with
-- what `Decimal` and `date.fromisoformat` read in them, `none` where these raise.
pub record ParsedFields : Type 0 where
  pub product : Text
  pub hsn_code : Text
  pub budget_min : Option (Option ℤ)
  pub budget_max : Option (Option ℤ)
  pub delivery_window_start : Option (Option ℕ)
  pub delivery_window_end : Option (Option ℕ)
  pub geography : Text

pub record Rfq : Type 0 where
  pub id : ℕ
  pub created_at : ℕ
  pub updated_at : ℕ
  pub buyer_enterprise_id : ℕ
  pub raw_document : Option Text
  pub parsed_fields : Option ParsedFields
  pub hsn_code : Option Text
  pub budget : Option BudgetRange
  pub window : Option DeliveryWindow
  pub geography_pref : Text
  pub status : RfqStatus
  pub confirmed_match_id : Option ℕ
  pub expires_at : Option ℕ
  pub embedding : Option (List ℕ)  -- bit patterns of floats

-- The payloads that the methods return.
pub data RfqEvent : Type 0 where
  rfq_parsed :
      (rfq_id buyer_enterprise_id : ℕ) (hsn_code : Option Text)
      (has_budget has_delivery_window : Bool)
      → RfqEvent
  rfq_matched : (rfq_id buyer_enterprise_id : ℕ) (match_count : ℤ) → RfqEvent
  rfq_confirmed : (rfq_id match_id buyer_enterprise_id : ℕ) → RfqEvent
  rfq_settled : (rfq_id : ℕ) → RfqEvent
  rfq_expired : RfqEvent

abbrev pub Outcome : Type 0
Outcome = Result RfqEvent × Rfq

-- A value object, or `None` where its construction raised.
abbrev pub or_none {ℓ} : {A : Type ℓ} → Result A → Option A
or_none (ok a) = some a
or_none (err x) = none

-- The HSN code after parsing: kept if none was extracted, `None` if it is malformed.
abbrev pub next_hsn : Text → Option Text → Option Text
next_hsn [] old = old
next_hsn (c ∷ s) old = if is_hsn_code (c ∷ s) then some (c ∷ s) else none

abbrev pub next_budget :
    Option (Option ℤ) → Option (Option ℤ) → Option BudgetRange → Option BudgetRange
next_budget none high old = old
next_budget (some low) none old = old
next_budget (some none) (some high) old = none
next_budget (some (some low)) (some none) old = none
next_budget (some (some low)) (some (some high)) old = or_none (budget_range low high)

abbrev pub next_window :
    Option (Option ℕ) → Option (Option ℕ) → Option DeliveryWindow → Option DeliveryWindow
next_window none end' old = old
next_window (some start) none old = old
next_window (some none) (some end') old = none
next_window (some (some start)) (some none) old = none
next_window (some (some start)) (some (some end')) old = or_none (delivery_window start end')

abbrev pub next_geography : Text → Text → Text
next_geography [] old = old
next_geography (c ∷ s) old = c ∷ s

abbrev is_some {ℓ} : {A : Type ℓ} → Option A → Bool
is_some none = false
is_some (some a) = true

unfoldable pub mark_parsed : ParsedFields → ℕ → Rfq → Outcome
unfolding budget_range delivery_window is_hsn_code
mark_parsed fields now r =
    if not (is r.status draft)
    then (err conflict_error, r)
    else if text_eq fields.product []
    then (err validation_error, r)
    else (let hsn = next_hsn fields.hsn_code r.hsn_code in
        let budget' = next_budget fields.budget_min fields.budget_max r.budget in
        let window' =
          next_window fields.delivery_window_start fields.delivery_window_end r.window in
        (
          ok (rfq_parsed r.id r.buyer_enterprise_id hsn (is_some budget') (is_some window')),
          record r {
            parsed_fields = some fields;
            status = parsed;
            hsn_code = hsn;
            budget = budget';
            window = window';
            geography_pref = next_geography fields.geography r.geography_pref;
            updated_at = now;
          },
        ))

unfoldable pub mark_matched : ℤ → ℕ → Rfq → Outcome
mark_matched match_count now r =
    if not (is r.status parsed)
    then (err conflict_error, r)
    else if leb_ℤ match_count (pos 0)
    then (err validation_error, r)
    else (
      ok (rfq_matched r.id r.buyer_enterprise_id match_count),
      record r { status = matched; updated_at = now },
    )

unfoldable pub confirm : ℕ → ℕ → Rfq → Outcome
confirm selected_match_id now r = if not (is r.status matched) then (err conflict_error, r) else (
  ok (rfq_confirmed r.id selected_match_id r.buyer_enterprise_id),
  record r { status = confirmed; confirmed_match_id = some selected_match_id; updated_at = now },
)

unfoldable pub mark_settled : ℕ → Rfq → Outcome
mark_settled now r =
    if not (is r.status confirmed)
    then (err conflict_error, r)
    else (ok (rfq_settled r.id), record r { status = settled; updated_at = now })

unfoldable pub mark_expired : ℕ → Rfq → Outcome
mark_expired now r =
    if is r.status confirmed || is r.status settled
    then (err conflict_error, r)
    else (ok rfq_expired, record r { status = expired; updated_at = now })

pub data Command : Type 0 where
  parse : ParsedFields → Command
  match_up : ℤ → Command
  choose : ℕ → Command
  settle expire : Command

unfoldable pub apply : ℕ → Command → Rfq → Outcome
unfolding mark_parsed mark_matched confirm mark_settled mark_expired
apply now (parse fields) = mark_parsed fields now
apply now (match_up n) = mark_matched n now
apply now (choose m) = confirm m now
apply now settle = mark_settled now
apply now expire = mark_expired now

unfoldable pub run : List (ℕ × Command) → Rfq → Rfq
run [] r = r
run ((now, c) ∷ cs) r = run cs (apply now c r).1
