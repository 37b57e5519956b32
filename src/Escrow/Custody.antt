-- ===== src/Escrow/Custody.antt =====
-- When an escrow counts as funded: the path through `record_funding`, and the path around it.
use cadencia_a2a_platform.Prelude.{
  ℕ, ◌≡◌, ◌≢◌, ◌↔◌, ◌⊎◌, Bool, true, false, none, List, [], ◌∷◌, arith, All,
}
use cadencia_a2a_platform.Prelude.Texts.{Text}
use cadencia_a2a_platform.Errors.{policy_violation, conflict_error, ok, err}
use cadencia_a2a_platform.Escrow.Defs.{
  new_escrow, record_approval, record_rejection, record_funding, record_release, record_refund,
  freeze, unfreeze, apply, Call, run, Escrow, EscrowStatus, deployed, funded, released, refunded,
  frozen_status, escrow_released, Command, approve, freeze_it,
}

-- No call of the sequence is `freeze`.
abbrev pub IsNotFreeze : Call → Type 0
IsNotFreeze (now, later, c) = c ≢ freeze_it

-- The statuses in which the money is, or was, in the contract.
abbrev pub holds_funds : EscrowStatus → Bool
holds_funds funded = true
holds_funds released = true
holds_funds refunded = true
holds_funds frozen_status = true
holds_funds _ = false

-- Never frozen, and funded only by a recorded transaction on a recorded application.
record IsPaidFor (e : Escrow) : Type 0 where
  thawed : e.frozen ≡ false
  in_order : e.status ≢ frozen_status
  by_payment : holds_funds e.status ≡ true → (e.fund_tx_id ≢ none) × (e.algo_app_id ≢ none)
  on_contract : e.status ≡ deployed → e.algo_app_id ≢ none

apply-IsPaidFor :
    (now later : ℕ) (c : Command) (e : Escrow)
    → c ≢ freeze_it
    → IsPaidFor e
    → IsPaidFor (apply now later c e).1
unfolding apply
apply-IsPaidFor now later approve e n h = ground arith
apply-IsPaidFor now later c e n h = ground arith

run_from-IsPaidFor :
    (cs : List Call) (e : Escrow) → All IsNotFreeze cs → IsPaidFor e → IsPaidFor (run cs e)
unfolding run
run_from-IsPaidFor [] e n h = h
run_from-IsPaidFor ((now, later, c) ∷ cs) e n h =
    run_from-IsPaidFor cs (apply now later c e).1 n.1 (apply-IsPaidFor now later c e n.0 h)

new_escrow-IsPaidFor :
    (id now session : ℕ) (buyer seller : Text) (amount : ℕ)
    → IsPaidFor (new_escrow id now session buyer seller amount)
unfolding new_escrow
new_escrow-IsPaidFor id now session buyer seller amount = ground arith

-- If no call is `freeze`, an escrow that counts as funded, released or refunded has a recorded
-- funding transaction and a recorded application.
pub funded_needs_payment :
    (cs : List Call) (id now session : ℕ) (buyer seller : Text) (amount : ℕ)
    → All IsNotFreeze cs
    → holds_funds (run cs (new_escrow id now session buyer seller amount)).status ≡ true
    → let e = run cs (new_escrow id now session buyer seller amount) in
      (e.fund_tx_id ≢ none) × (e.algo_app_id ≢ none)
funded_needs_payment cs id now session buyer seller amount n h =
    (run_from-IsPaidFor cs (new_escrow id now session buyer seller amount) n
        (new_escrow-IsPaidFor id now session buyer seller amount)).by_payment
      h

-- `freeze` and then `unfreeze` takes any escrow that is not frozen, released or refunded to FUNDED
-- and records no payment: one that was never funded, or was rejected, can then be released.
unfreeze_skips_funding :
    (e : Escrow) (t₀ t₁ t₂ t₃ : ℕ) (tx root : Text)
    → e.frozen ≡ false
    → e.status ≢ released
    → e.status ≢ refunded
    → let thawed = (unfreeze t₁ (freeze t₀ e).1).1 in
      let paid = record_release tx root t₂ t₃ thawed in
      (thawed.status ≡ funded)
      × (thawed.fund_tx_id ≡ e.fund_tx_id)
      × (paid.0 ≡ ok (escrow_released e.id e.session_id e.amount tx root))
      × (paid.1.status ≡ released)
unfolding freeze unfreeze record_release
unfreeze_skips_funding e t₀ t₁ t₂ t₃ tx root h n m = ground arith

-- While the flag is set on an escrow whose status is FROZEN or DEPLOYED, funding and release raise
-- `PolicyViolation`, approval, rejection and another freeze raise `ConflictError`, and a refund
-- succeeds exactly if the status is FROZEN.
pub frozen_halts :
    (e : Escrow) (now later : ℕ) (tx root reason : Text)
    → e.frozen ≡ true
    → (e.status ≡ frozen_status) ⊎ (e.status ≡ deployed)
    → (record_funding tx now e ≡ (err policy_violation, e))
      × (record_release tx root now later e ≡ (err policy_violation, e))
      × (record_approval now e ≡ (err conflict_error, e))
      × (record_rejection reason now e ≡ (err conflict_error, e))
      × (freeze now e ≡ (err conflict_error, e))
      × ((record_refund tx now later e).1.status ≡ refunded ↔ e.status ≡ frozen_status)
unfolding record_funding record_release record_approval record_rejection freeze record_refund
frozen_halts e now later tx root reason h s = ground arith
