-- ===== src/Rfq/Lifecycle.antt =====
-- The life of a request for quotation (backend/src/marketplace/domain/rfq.py).
use cadencia_a2a_platform.Prelude.{
  ℕ, ◌≤◌, ◌≡◌, refl, ◌≢◌, ◌⊎◌, inl, inr, not, Option, none, some, List, [], ◌∷◌, arith, ltb,
  Bool-cases,
}
use cadencia_a2a_platform.Prelude.Int.{◌≤ℤ◌, ltb_ℤ, ℤ, pos}
use cadencia_a2a_platform.Prelude.Texts.{Text, text_eq}
use cadencia_a2a_platform.Errors.{conflict_error, err}
use cadencia_a2a_platform.Rfq.Defs.{
  is, budget_range, delivery_window, or_none, next_hsn, next_budget, next_window, mark_parsed,
  apply, run, BudgetRange, DeliveryWindow, ParsedFields, Rfq, draft, confirmed, settled, expired,
  Command, parse, match_up, choose, settle, expire,
}
use cadencia_a2a_platform.Rfq.Digits.{is_hsn_code, is_hsn_code-IsDigits, IsDigits}

-- A chosen match goes with the statuses CONFIRMED and SETTLED, and parsed fields with the statuses
-- from PARSED to SETTLED.
pub record IsConsistent (r : Rfq) : Type 0 where
  pub chosen : (r.status ≡ confirmed) ⊎ (r.status ≡ settled) → r.confirmed_match_id ≢ none
  pub not_chosen : r.confirmed_match_id ≢ none → (r.status ≡ confirmed) ⊎ (r.status ≡ settled)
  pub read : r.status ≢ draft → r.status ≢ expired → r.parsed_fields ≢ none
  pub unread : r.status ≡ draft → r.parsed_fields ≡ none

apply-IsConsistent :
    (now : ℕ) (c : Command) (r : Rfq) → IsConsistent r → IsConsistent (apply now c r).1
unfolding apply
apply-IsConsistent now (parse fields) r h = ground arith
apply-IsConsistent now (match_up n) r h = ground arith
apply-IsConsistent now (choose m) r h = ground arith
apply-IsConsistent now settle r h = ground arith
apply-IsConsistent now expire r h = ground arith

-- What was extracted is well formed, where it is present.
abbrev pub ValidHsn : Option Text → Type 0
ValidHsn none = Unit
ValidHsn (some s) = IsDigits 4 8 s

abbrev pub ValidBudget : Option BudgetRange → Type 0
ValidBudget none = Unit
ValidBudget (some b) = (pos 0 ≤ℤ b.min_value) × (b.min_value ≤ℤ b.max_value)

abbrev pub ValidWindow : Option DeliveryWindow → Type 0
ValidWindow none = Unit
ValidWindow (some w) = w.start_date ≤ w.end_date

abbrev pub HasValidFields : Rfq → Type 0
HasValidFields r = ValidHsn r.hsn_code × ValidBudget r.budget × ValidWindow r.window

next_hsn-ValidHsn : (s : Text) (old : Option Text) → ValidHsn old → ValidHsn (next_hsn s old)
next_hsn-ValidHsn [] old h = h
next_hsn-ValidHsn (c ∷ s) old h = elim (Bool-cases (is_hsn_code (c ∷ s))) [
  | inl e ↦ rw e (is_hsn_code-IsDigits (c ∷ s) e)
  | inr e ↦ rw e tt
]

budget_range-ValidBudget : (low high : ℤ) → ValidBudget (or_none (budget_range low high))
unfolding budget_range
budget_range-ValidBudget low high = elim (Bool-cases (ltb_ℤ low (pos 0))) [
  | inl a ↦ rw a tt
  | inr a ↦ elim (Bool-cases (ltb_ℤ high (pos 0))) [
    | inl b ↦ rw (a, b) tt
    | inr b ↦ elim (Bool-cases (ltb_ℤ high low)) [
      | inl c ↦ rw (a, b, c) tt
      | inr c ↦ rw (a, b, c) (ground arith, ground arith)
    ]
  ]
]

delivery_window-ValidWindow : (start end' : ℕ) → ValidWindow (or_none (delivery_window start end'))
unfolding delivery_window
delivery_window-ValidWindow start end' = elim (Bool-cases (ltb end' start)) [
  | inl a ↦ rw a tt
  | inr a ↦ rw a (ground arith)
]

next_budget-ValidBudget :
    (low high : Option (Option ℤ)) (old : Option BudgetRange)
    → ValidBudget old
    → ValidBudget (next_budget low high old)
next_budget-ValidBudget none high old h = h
next_budget-ValidBudget (some low) none old h = h
next_budget-ValidBudget (some none) (some high) old h = tt
next_budget-ValidBudget (some (some low)) (some none) old h = tt
next_budget-ValidBudget (some (some low)) (some (some high)) old h =
    budget_range-ValidBudget low high

next_window-ValidWindow :
    (start end' : Option (Option ℕ)) (old : Option DeliveryWindow)
    → ValidWindow old
    → ValidWindow (next_window start end' old)
next_window-ValidWindow none end' old h = h
next_window-ValidWindow (some start) none old h = h
next_window-ValidWindow (some none) (some end') old h = tt
next_window-ValidWindow (some (some start)) (some none) old h = tt
next_window-ValidWindow (some (some start)) (some (some end')) old h =
    delivery_window-ValidWindow start end'

mark_parsed-HasValidFields :
    (fields : ParsedFields) (now : ℕ) (r : Rfq)
    → HasValidFields r
    → HasValidFields (mark_parsed fields now r).1
unfolding mark_parsed
mark_parsed-HasValidFields fields now r h = elim (Bool-cases (not (is r.status draft))) [
  | inl a ↦ rw a h
  | inr a ↦ elim (Bool-cases (text_eq fields.product [])) [
    | inl b ↦ rw (a, b) h
    | inr b ↦
        rw (a, b)
          (
            next_hsn-ValidHsn fields.hsn_code r.hsn_code h.0,
            next_budget-ValidBudget fields.budget_min fields.budget_max r.budget h.1,
            next_window-ValidWindow fields.delivery_window_start fields.delivery_window_end r.window
                h.2,
          )
  ]
]

-- The other methods write none of these fields.
apply_keeps_fields :
    (now : ℕ) (c : Command) (r : Rfq)
    → ((fields : ParsedFields) → c ≢ parse fields)
    → ((apply now c r).1.hsn_code ≡ r.hsn_code)
      × ((apply now c r).1.budget ≡ r.budget)
      × ((apply now c r).1.window ≡ r.window)
unfolding apply
apply_keeps_fields now (parse fields) r h = absurd (h fields refl)
apply_keeps_fields now c r h = ground arith

apply-HasValidFields :
    (now : ℕ) (c : Command) (r : Rfq) → HasValidFields r → HasValidFields (apply now c r).1
apply-HasValidFields now (parse fields) r h =
    unfold apply in mark_parsed-HasValidFields fields now r h
apply-HasValidFields now c r h =
    let k = apply_keeps_fields now c r (λ fields. λ e. cc) in rw (k.0, k.1, k.2) h

run_keeps :
    (cs : List (ℕ × Command)) (r : Rfq)
    → IsConsistent r
    → HasValidFields r
    → IsConsistent (run cs r) × HasValidFields (run cs r)
unfolding run
run_keeps [] r h v = (h, v)
run_keeps ((now, c) ∷ cs) r h v =
    run_keeps cs (apply now c r).1 (apply-IsConsistent now c r h) (apply-HasValidFields now c r v)

-- From a draft with nothing extracted, any calls, refused ones included, lead to a request that has a
-- chosen match exactly in the statuses CONFIRMED and SETTLED and parsed fields in PARSED to SETTLED,
-- and whose HSN code, budget and delivery window, where present, are well formed: 4 to 8 decimal digits
-- of any script, after which one newline may stand, a budget of zero or more with its minimum not above its maximum, a window that does not end before it
-- starts.
pub draft_run-IsConsistent :
    (cs : List (ℕ × Command)) (r : Rfq)
    → r.status ≡ draft
    → r.parsed_fields ≡ none
    → r.hsn_code ≡ none
    → r.budget ≡ none
    → r.window ≡ none
    → r.confirmed_match_id ≡ none
    → IsConsistent (run cs r) × HasValidFields (run cs r)
draft_run-IsConsistent cs r s p h b w m = run_keeps cs r (ground arith) (rw h tt, rw b tt, rw w tt)

settled_step :
    (now : ℕ) (c : Command) (r : Rfq) → r.status ≡ settled → apply now c r ≡ (err conflict_error, r)
unfolding apply
settled_step now (parse fields) r h = ground arith
settled_step now c r h = ground arith

-- A settled request raises `ConflictError` at every call, and never changes again.
pub settled_stays : (cs : List (ℕ × Command)) (r : Rfq) → r.status ≡ settled → run cs r ≡ r
unfolding run
settled_stays [] r h = refl
settled_stays ((now, c) ∷ cs) r h = rw (settled_step now c r h) (settled_stays cs r h)
