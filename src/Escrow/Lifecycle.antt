-- ===== src/Escrow/Lifecycle.antt =====
-- What holds of an escrow between any two calls, and what an exception leaves behind.
use cadencia_a2a_platform.Prelude.{
  ℕ, ◌≡◌, refl, ap, ◌∙◌, ◌≢◌, ◌⊎◌, true, false, none, List, [], ◌∷◌, arith,
}
use cadencia_a2a_platform.Prelude.Texts.{Text}
use cadencia_a2a_platform.Errors.{DomainError, conflict_error, err}
use cadencia_a2a_platform.Escrow.Defs.{
  new_escrow, has_app, apply, Call, run, Escrow, deployed, released, refunded, frozen_status,
  Command, approve,
}

-- The records that a status implies.
pub record IsConsistent (e : Escrow) : Type 0 where
  pub released_recorded :
      e.status ≡ released
      → (e.release_tx_id ≢ none) × (e.merkle_root ≢ none) × (e.settled_at ≢ none)
  pub refunded_recorded : e.status ≡ refunded → (e.refund_tx_id ≢ none) × (e.settled_at ≢ none)
  pub deployed_recorded : e.status ≡ deployed → (e.algo_app_id ≢ none) × (e.deploy_tx_id ≢ none)
  pub frozen_flagged : e.status ≡ frozen_status → e.frozen ≡ true
  pub frozen_halted : e.frozen ≡ true → (e.status ≡ frozen_status) ⊎ (e.status ≡ deployed)

pub apply-IsConsistent :
    (now later : ℕ) (c : Command) (e : Escrow)
    → IsConsistent e
    → IsConsistent (apply now later c e).1
unfolding apply
apply-IsConsistent now later approve e h = ground arith
apply-IsConsistent now later c e h = ground arith

new_escrow-IsConsistent :
    (id now session : ℕ) (buyer seller : Text) (amount : ℕ)
    → IsConsistent (new_escrow id now session buyer seller amount)
unfolding new_escrow
new_escrow-IsConsistent id now session buyer seller amount = ground arith

run_from-IsConsistent : (cs : List Call) (e : Escrow) → IsConsistent e → IsConsistent (run cs e)
unfolding run
run_from-IsConsistent [] e h = h
run_from-IsConsistent ((now, later, c) ∷ cs) e h =
    run_from-IsConsistent cs (apply now later c e).1 (apply-IsConsistent now later c e h)

-- After any calls on a new escrow, refused ones included, a released escrow has its release
-- transaction, Merkle root and settlement time, a refunded one its refund transaction and settlement
-- time, a deployed one its application id and deployment transaction; the status FROZEN has the flag
-- set, and the flag is set only in the statuses FROZEN and DEPLOYED.
pub escrow_run-IsConsistent :
    (cs : List Call) (id now session : ℕ) (buyer seller : Text) (amount : ℕ)
    → IsConsistent (run cs (new_escrow id now session buyer seller amount))
escrow_run-IsConsistent cs id now session buyer seller amount =
    run_from-IsConsistent cs (new_escrow id now session buyer seller amount)
      (new_escrow-IsConsistent id now session buyer seller amount)

-- A lifecycle method that raises leaves the escrow exactly as it was.
pub escrow_raises_unchanged :
    (now later : ℕ) (c : Command) (e : Escrow) {x : DomainError}
    → (apply now later c e).0 ≡ err x
    → (apply now later c e).1 ≡ e
unfolding apply
escrow_raises_unchanged now later approve e h = ground arith
escrow_raises_unchanged now later c e h = ground arith

-- Funds have left the escrow, and a contract had been deployed for it.
pub record IsSettled (e : Escrow) : Type 0 where
  pub paid_out : (e.status ≡ released) ⊎ (e.status ≡ refunded)
  pub has_contract : has_app e.algo_app_id ≡ true
  pub thawed : e.frozen ≡ false

IsSettled-apply :
    (now later : ℕ) (c : Command) (e : Escrow)
    → IsSettled e
    → apply now later c e ≡ (err conflict_error, e)
unfolding apply
IsSettled-apply now later approve e h = ground arith
IsSettled-apply now later c e h = ground arith

run_stays : (cs : List Call) (e : Escrow) → IsSettled e → run cs e ≡ e
unfolding run
run_stays [] e h = refl
run_stays ((now, later, c) ∷ cs) e h = rw (IsSettled-apply now later c e h) (run_stays cs e h)

-- Once a deployed escrow is released or refunded, every further method raises `ConflictError`, and
-- any sequence of calls leaves the escrow as it is: it is settled at most once.
pub settled_absorbs :
    (e : Escrow) (now later : ℕ) (c : Command) (cs : List Call)
    → IsSettled e
    → (apply now later c e ≡ (err conflict_error, e)) × (run cs e ≡ e)
settled_absorbs e now later c cs h = (IsSettled-apply now later c e h, run_stays cs e h)

-- What no method writes: identity, parties and amount.
abbrev SameTerms : Escrow → Escrow → Type 0
SameTerms e f =
    (f.id ≡ e.id)
    × (f.session_id ≡ e.session_id)
    × (f.buyer_address ≡ e.buyer_address)
    × (f.seller_address ≡ e.seller_address)
    × (f.amount ≡ e.amount)

-- The record of the deployment.
abbrev pub SameContract : Escrow → Escrow → Type 0
SameContract e f =
    (f.algo_app_id ≡ e.algo_app_id)
    × (f.algo_app_address ≡ e.algo_app_address)
    × (f.deploy_tx_id ≡ e.deploy_tx_id)

apply-SameTerms : (now later : ℕ) (c : Command) (e : Escrow) → SameTerms e (apply now later c e).1
unfolding apply
apply-SameTerms now later approve e = ground arith
apply-SameTerms now later c e = ground arith

apply-SameContract :
    (now later : ℕ) (c : Command) (e : Escrow)
    → has_app e.algo_app_id ≡ true
    → SameContract e (apply now later c e).1
unfolding apply
apply-SameContract now later approve e h = ground arith
apply-SameContract now later c e h = ground arith

-- No sequence of calls changes an escrow's id, session, parties or amount.
run_keeps_terms : (cs : List Call) (e : Escrow) → SameTerms e (run cs e)
unfolding run
run_keeps_terms [] e = ground arith
run_keeps_terms ((now, later, c) ∷ cs) e =
    ground (arith, apply-SameTerms now later c e, run_keeps_terms cs (apply now later c e).1)

-- Once an application id other than 0 is recorded, no sequence of calls overwrites that id, its
-- address or its deployment transaction.
run_keeps_contract :
    (cs : List Call) (e : Escrow) → has_app e.algo_app_id ≡ true → SameContract e (run cs e)
unfolding run
run_keeps_contract [] e h = ground arith
run_keeps_contract ((now, later, c) ∷ cs) e h =
    let k = apply-SameContract now later c e h in
    ground (arith, k, run_keeps_contract cs (apply now later c e).1 (ap has_app k.0 ∙ h))
