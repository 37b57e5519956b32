-- ===== src/Settlement/Service.antt =====
-- The operations of `SettlementService` (backend/src/settlement/application/services.py). The chain is
-- called first, and the row is written only if the aggregate's method then accepts. Logs and metrics are
-- left out. `now` and `later` are the clock readings of the aggregate's method.
use cadencia_a2a_platform.Prelude.{ℕ, Bool, not, Option, none, some, List, [], ◌∷◌, if◌then◌else◌}
use cadencia_a2a_platform.Prelude.Int.{ℤ, pos}
use cadencia_a2a_platform.Prelude.Texts.{Text}
use cadencia_a2a_platform.Errors.{policy_violation, Result}
use cadencia_a2a_platform.Escrow.{
  Outcome, is, new_escrow, record_approval, record_rejection, record_deployment, record_funding,
  record_release, record_refund, freeze, unfreeze, Escrow, EscrowStatus, pending_approval,
  EscrowEvent, escrow_refunded,
}
use cadencia_a2a_platform.Audit.{AuditEntry}
use cadencia_a2a_platform.Settlement.Values.{
  app_id, app_address, tx_id, micro_algo, escrow_amount, merkle_root,
}
use cadencia_a2a_platform.Settlement.Gateway.{fund_on_chain, send_app_noop, App, Deployment, Sent}
use cadencia_a2a_platform.Settlement.Pricing.{price_microalgo}
use cadencia_a2a_platform.Settlement.Roots.{real_entries}
use cadencia_a2a_platform.Settlement.Defs.{
  Served, found, deployed_app, built, signed, recorded, as_is, Settlement, Desk, answered, raised,
  broke,
}
use cadencia_a2a_platform.Merkle.{compute_root}
use cadencia_a2a_platform.Errors.{ok, err}
use cadencia_a2a_platform.Prelude.{true, false}

-- What the service calls outside: the digest, `str`, and Python's reading of a hexadecimal number.
pub record Outside : Type 0 where
  pub sha256 : Text → Text
  pub str : ℕ → Text
  pub reads_hex : Text → Bool

-- `create_pending_escrow`, at the price that `price_microalgo` gives
abbrev pub pending : Option Escrow → ℕ → ℕ → ℕ → ℕ → Desk → Served
pending (some e) id now session price d = (answered e, d)
pending none id now session price d = built (escrow_amount price) d (λ amount.
    let e = new_escrow id now session [] [] amount in (answered e, record d { row = some e }))

unfoldable pub create_pending_escrow : ℕ → ℕ → ℕ → Option ℤ → ℤ → Desk → Served
unfolding new_escrow escrow_amount price_microalgo
create_pending_escrow id now session in_micro fallback d =
    pending d.row id now session (price_microalgo in_micro fallback) d

-- The status test that the service makes before the aggregate's own.
abbrev pub awaiting : EscrowStatus → Desk → Served → Served
awaiting status d k = if not (is status pending_approval) then (raised policy_violation, d) else k

-- `checked` says whether the CHECK constraint of the table that is deployed lets the status APPROVED be
-- written: that of backend/src/settlement/infrastructure/models.py does not. Where it does not, the update
-- raises.
abbrev pub unless_refused : Bool → Outcome → Desk → Served
unless_refused checked (err x, e) d = recorded (err x, e) as_is [] d
unless_refused true (ok event, e) d = recorded (ok event, e) as_is [] d
unless_refused false (ok event, e) d = (broke, d)

unfoldable pub approve_escrow : Bool → ℕ → Desk → Served
unfolding record_approval
approve_escrow checked now d =
    found d.row d (λ e. awaiting e.status d (unless_refused checked (record_approval now e) d))

unfoldable pub reject_escrow : Text → ℕ → Desk → Served
unfolding record_rejection
reject_escrow reason now d =
    found d.row d (λ e. awaiting e.status d (recorded (record_rejection reason now e) as_is [] d))

-- What the gateway returned, recorded on the row that was saved before the call.
abbrev pub deployment_of : Option Deployment → Escrow → ℕ → Desk → Served
deployment_of none e now d = (broke, d)
deployment_of (some r) e now d = built (app_id (pos r.app_index)) d (λ index.
    built (app_address r.address) d (λ address.
      built (tx_id r.tx) d (λ tx. recorded (record_deployment index address tx now e) as_is [] d)))

abbrev pub after_gateway : Option Deployment × Option App → Escrow → ℕ → Desk → Served
after_gateway (r, app) e now d = deployment_of r e now (record d { app = app })

abbrev pub deploying :
    Option Escrow
    → ℕ
    → ℕ
    → ℕ
    → Text
    → Text
    → ℤ
    → (Option App → Option Deployment × Option App)
    → Desk
    → Served
deploying (some e) id now session buyer seller amount gateway d = (answered e, d)
deploying none id now session buyer seller amount gateway d = built (micro_algo amount) d (λ n.
    built (escrow_amount n) d (λ price.
      let e = new_escrow id now session buyer seller price in
      after_gateway (gateway d.app) e now (record d { row = some e })))

unfoldable pub deploy_escrow :
    ℕ → ℕ → ℕ → Text → Text → ℤ → (Option App → Option Deployment × Option App) → Desk → Served
unfolding new_escrow escrow_amount micro_algo app_id app_address tx_id record_deployment
deploy_escrow id now session buyer seller amount gateway d =
    deploying d.row id now session buyer seller amount gateway d

-- The gateway's call is over: its effect stays, and the rest goes by what it returned.
abbrev pub on_chain : Option Text × Option App → Desk → (Text → Desk → Served) → Served
on_chain (r, app) d k = signed r (record d { app = app }) (λ tx. k tx (record d { app = app }))

-- The gateway's call is over, and the id that it returned is not validated yet.
abbrev pub called : Option Text × Option App → Desk → (Text → Desk → Served) → Served
called (none, app) d k = (broke, record d { app = app })
called (some t, app) d k = k t (record d { app = app })

abbrev pub has_address : Option Text → Desk → Served → Served
has_address none d k = (raised policy_violation, d)
has_address (some address) d k = k

unfoldable pub fund_escrow : Sent → ℕ → Desk → Served
unfolding fund_on_chain tx_id record_funding
fund_escrow sent now d = found d.row d (λ e. deployed_app e.algo_app_id d (
    has_address e.algo_app_address d (
      on_chain (fund_on_chain e.amount sent d.app) d
        (λ tx d'. recorded (record_funding tx now e) as_is [] d'))))

-- The settlement record of a release, of milestone 0 and the whole amount.
abbrev pub settlement_of : Escrow → Text → Option ℕ → Settlement
settlement_of e tx at = record {
  escrow_id = e.id;
  milestone_index = 0;
  amount = e.amount;
  tx_id = tx;
  settled_at = at;
}

-- A root of the Merkle service as a `MerkleRoot`.
abbrev pub rooted : (Text → Bool) → Option (Result Text) → Desk → (Text → Served) → Served
rooted reads_hex none d k = (broke, d)
rooted reads_hex (some root) d k = built root d (λ text. built (merkle_root reads_hex text) d k)

-- The anchor transaction's id, whose own call may raise.
abbrev pub anchored : Option Text → Desk → Served → Served
anchored none d k = (broke, d)
anchored (some tx) d k = built (tx_id tx) d (λ anchor. k)

unfoldable pub release_escrow :
    Outside → Option (List AuditEntry) → Sent → Option Text → ℕ → ℕ → Desk → Served
unfolding send_app_noop tx_id merkle_root real_entries compute_root record_release
release_escrow o rows sent anchor now later d = found d.row d (λ e. deployed_app e.algo_app_id d (
    rooted o.reads_hex (compute_root o.sha256 (real_entries o.str e rows)) d (λ root.
      called (send_app_noop sent d.app) d (λ t d'. anchored anchor d' (
        built (tx_id t) d' (λ tx.
          recorded (record_release tx root now later e) as_is (settlement_of e tx (some now) ∷ [])
            d'))))))

-- `EscrowRefunded` with the reason of the command
abbrev pub with_reason : Text → EscrowEvent → EscrowEvent
with_reason reason (escrow_refunded id session amount tx old) =
    escrow_refunded id session amount tx reason
with_reason reason event = event

unfoldable pub refund_escrow : Text → Sent → ℕ → ℕ → Desk → Served
unfolding send_app_noop tx_id record_refund
refund_escrow reason sent now later d = found d.row d (λ e. deployed_app e.algo_app_id d (
    on_chain (send_app_noop sent d.app) d
      (λ tx d'. recorded (record_refund tx now later e) (with_reason reason) [] d')))

-- The result of the freeze and unfreeze transactions is not used.
abbrev pub ignoring : Option Text × Option App → Desk → (Desk → Served) → Served
ignoring (none, app) d k = (broke, record d { app = app })
ignoring (some tx, app) d k = k (record d { app = app })

unfoldable pub freeze_escrow : Sent → ℕ → Desk → Served
unfolding send_app_noop freeze
freeze_escrow sent now d = found d.row d (λ e.
    deployed_app e.algo_app_id d
      (ignoring (send_app_noop sent d.app) d (λ d'. recorded (freeze now e) as_is [] d')))

unfoldable pub unfreeze_escrow : Sent → ℕ → Desk → Served
unfolding send_app_noop unfreeze
unfreeze_escrow sent now d = found d.row d (λ e.
    deployed_app e.algo_app_id d
      (ignoring (send_app_noop sent d.app) d (λ d'. recorded (unfreeze now e) as_is [] d')))
