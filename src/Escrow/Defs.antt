-- ===== src/Escrow/Defs.antt =====
-- `Escrow`, `EscrowStatus`, the domain events and the lifecycle methods of
-- backend/src/settlement/domain/escrow.py. UUIDs and times are numbers, strings are texts.
use cadencia_a2a_platform.Prelude.{
  ℕ, Bool, true, false, not, ◌&&◌, ◌||◌, Option, none, some, List, [], ◌∷◌, ◌==◌, if◌then◌else◌,
}
use cadencia_a2a_platform.Prelude.Texts.{Text}
use cadencia_a2a_platform.Errors.{Result, ok, err, policy_violation, conflict_error}

pub data EscrowStatus : Type 0 where
  pending_approval approved deployed funded released refunded rejected frozen_status : EscrowStatus

abbrev rank : EscrowStatus → ℕ
rank pending_approval = 0
rank approved = 1
rank deployed = 2
rank funded = 3
rank released = 4
rank refunded = 5
rank rejected = 6
rank frozen_status = 7

-- `==` of the enumeration
abbrev pub is : EscrowStatus → EscrowStatus → Bool
is s t = rank s == rank t

pub record Escrow : Type 0 where
  pub id : ℕ
  pub created_at : ℕ
  pub updated_at : ℕ
  pub session_id : ℕ
  pub buyer_address : Text
  pub seller_address : Text
  pub amount : ℕ  -- microALGO
  pub status : EscrowStatus
  pub algo_app_id : Option ℕ
  pub algo_app_address : Option Text
  pub deploy_tx_id : Option Text
  pub fund_tx_id : Option Text
  pub release_tx_id : Option Text
  pub refund_tx_id : Option Text
  pub merkle_root : Option Text
  pub frozen : Bool
  pub settled_at : Option ℕ

-- The domain events, with the fields that the methods fill in after the escrow's own id.
pub data EscrowEvent : Type 0 where
  escrow_approved : (escrow_id session_id : ℕ) → EscrowEvent
  escrow_rejected : (escrow_id session_id : ℕ) (reason : Text) → EscrowEvent
  escrow_deployed : (escrow_id session_id algo_app_id : ℕ) (deploy_tx_id : Text) → EscrowEvent
  escrow_funded : (escrow_id session_id amount_microalgo : ℕ) (fund_tx_id : Text) → EscrowEvent
  escrow_released :
      (escrow_id session_id amount_microalgo : ℕ) (release_tx_id merkle_root : Text) → EscrowEvent
  escrow_refunded :
      (escrow_id session_id amount_microalgo : ℕ) (refund_tx_id reason : Text) → EscrowEvent
  escrow_frozen : (escrow_id session_id : ℕ) → EscrowEvent
  escrow_unfrozen : (escrow_id session_id : ℕ) → EscrowEvent

-- `Escrow(session_id=…, buyer_address=…, seller_address=…, amount=…)`, all else by default
unfoldable pub new_escrow : ℕ → ℕ → ℕ → Text → Text → ℕ → Escrow
new_escrow id now session buyer seller amount = record {
  id = id;
  created_at = now;
  updated_at = now;
  session_id = session;
  buyer_address = buyer;
  seller_address = seller;
  amount = amount;
  status = pending_approval;
  algo_app_id = none;
  algo_app_address = none;
  deploy_tx_id = none;
  fund_tx_id = none;
  release_tx_id = none;
  refund_tx_id = none;
  merkle_root = none;
  frozen = false;
  settled_at = none;
}

-- What a method call gives: its event or exception, and the aggregate as it is left.
abbrev pub Outcome : Type 0
Outcome = Result EscrowEvent × Escrow

unfoldable pub record_approval : ℕ → Escrow → Outcome
record_approval now e =
    if not (is e.status pending_approval)
    then (err conflict_error, e)
    else (ok (escrow_approved e.id e.session_id), record e { status = approved; updated_at = now })

unfoldable pub record_rejection : Text → ℕ → Escrow → Outcome
record_rejection reason now e =
    if not (is e.status pending_approval) then (err conflict_error, e) else (
      ok (escrow_rejected e.id e.session_id reason),
      record e { status = rejected; updated_at = now },
    )

-- `self.algo_app_id is not None and self.algo_app_id.value != 0`
abbrev pub has_app : Option ℕ → Bool
has_app none = false
has_app (some app) = not (app == 0)

unfoldable pub record_deployment : ℕ → Text → Text → ℕ → Escrow → Outcome
record_deployment app address tx now e =
    if has_app e.algo_app_id then (err conflict_error, e) else (
      ok (escrow_deployed e.id e.session_id app tx),
      record e {
        algo_app_id = some app;
        algo_app_address = some address;
        deploy_tx_id = some tx;
        status = deployed;
        updated_at = now;
      },
    )

unfoldable pub record_funding : Text → ℕ → Escrow → Outcome
record_funding tx now e =
    if e.frozen
    then (err policy_violation, e)
    else if not (is e.status deployed)
    then (err conflict_error, e)
    else (
      ok (escrow_funded e.id e.session_id e.amount tx),
      record e { status = funded; fund_tx_id = some tx; updated_at = now },
    )

unfoldable pub record_release : Text → Text → ℕ → ℕ → Escrow → Outcome
record_release tx root now later e =
    if e.frozen
    then (err policy_violation, e)
    else if not (is e.status funded)
    then (err conflict_error, e)
    else (
      ok (escrow_released e.id e.session_id e.amount tx root),
      record e {
        status = released;
        release_tx_id = some tx;
        merkle_root = some root;
        settled_at = some now;
        updated_at = later;
      },
    )

unfoldable pub record_refund : Text → ℕ → ℕ → Escrow → Outcome
record_refund tx now later e =
    if not (is e.status funded) && not (is e.status frozen_status)
    then (err conflict_error, e)
    else (
      ok (escrow_refunded e.id e.session_id e.amount tx []),
      record e {
        status = refunded;
        frozen = false;
        refund_tx_id = some tx;
        settled_at = some now;
        updated_at = later;
      },
    )

unfoldable pub freeze : ℕ → Escrow → Outcome
freeze now e =
    if is e.status released || is e.status refunded
    then (err conflict_error, e)
    else if e.frozen
    then (err conflict_error, e)
    else (
      ok (escrow_frozen e.id e.session_id),
      record e { frozen = true; status = frozen_status; updated_at = now },
    )

unfoldable pub unfreeze : ℕ → Escrow → Outcome
unfreeze now e = if not e.frozen then (err conflict_error, e) else (
  ok (escrow_unfrozen e.id e.session_id),
  record e { frozen = false; status = funded; updated_at = now },
)

-- A call of one of the methods, with its arguments.
pub data Command : Type 0 where
  approve : Command
  reject : (reason : Text) → Command
  deploy : (app : ℕ) (address tx : Text) → Command
  fund : (tx : Text) → Command
  release : (tx root : Text) → Command
  refund : (tx : Text) → Command
  freeze_it unfreeze_it : Command

unfoldable pub apply : ℕ → ℕ → Command → Escrow → Outcome
unfolding record_approval record_rejection record_deployment record_funding record_release
    record_refund freeze unfreeze
apply now later approve = record_approval now
apply now later (reject reason) = record_rejection reason now
apply now later (deploy app address tx) = record_deployment app address tx now
apply now later (fund tx) = record_funding tx now
apply now later (release tx root) = record_release tx root now later
apply now later (refund tx) = record_refund tx now later
apply now later freeze_it = freeze now
apply now later unfreeze_it = unfreeze now

-- Calls one after another, each with its two clock readings; a raise is caught by the caller.
abbrev pub Call : Type 0
Call = ℕ × ℕ × Command

unfoldable pub run : List Call → Escrow → Escrow
run [] e = e
run ((now, later, c) ∷ cs) e = run cs (apply now later c e).1
