-- ===== src/Settlement/Ledger/Wallets.antt =====
-- Deployments and what a wallet signed keep the settlement records
-- (backend/src/settlement/application/services.py).
use cadencia_a2a_platform.Prelude.{
  ℕ, ◌≡◌, refl, sym, Bool, true, false, Option, none, some, List, [], arith, if◌then◌else◌,
}
use cadencia_a2a_platform.Prelude.Texts.{Text}
use cadencia_a2a_platform.Prelude.Int.{ℤ}
use cadencia_a2a_platform.Settlement.Rules.{Holds, Passes}
use cadencia_a2a_platform.Settlement.Ledger.{Recorded, IsLedger, Kept, of_row, ledger_rules}
use cadencia_a2a_platform.Escrow.{new_escrow, has_app, record_deployment, Escrow, deployed}
use cadencia_a2a_platform.Audit.{AuditEntry}
use cadencia_a2a_platform.Settlement.Gateway.{App, Deployment}
use cadencia_a2a_platform.Settlement.Defs.{built, stored, Settlement, Desk, answered}
use cadencia_a2a_platform.Settlement.Service.{deployment_of, deploying, deploy_escrow, Outside}
use cadencia_a2a_platform.Settlement.Pera.{
  recording, record_pera_deploy, record_pera_fund, record_pera_release, record_pera_refund,
}
use cadencia_a2a_platform.Settlement.Values.{app_id, app_address, tx_id}

-- A row that was just made, with no record beside it.
new-Recorded :
    (id now session : ℕ) (buyer seller : Text) (amount : ℕ) (ss : List Settlement)
    → ss ≡ []
    → Recorded (new_escrow id now session buyer seller amount) ss
unfolding new_escrow
new-Recorded id now session buyer seller amount ss h = ground arith

made-Kept :
    (r : Deployment) (e : Escrow) (now : ℕ) (d : Desk)
    → IsLedger d.row d.settlements
    → Recorded e d.settlements
    → Kept (deployment_of (some r) e now d)
made-Kept r e now d h p = search ledger_rules depth 14

deployment_of-Kept :
    (r : Option Deployment) (e : Escrow) (now : ℕ) (d : Desk)
    → IsLedger d.row d.settlements
    → Recorded e d.settlements
    → Kept (deployment_of r e now d)
unfolding Holds
deployment_of-Kept none e now d h p = h
deployment_of-Kept (some r) e now d h p = made-Kept r e now d h p

first-Kept :
    (id now session : ℕ) (buyer seller : Text) (amount : ℤ)
    (gateway : Option App → Option Deployment × Option App) (d : Desk)
    → IsLedger d.row d.settlements
    → d.settlements ≡ []
    → Kept (deploying none id now session buyer seller amount gateway d)
first-Kept id now session buyer seller amount gateway d h p =
    search (ledger_rules, deployment_of-Kept, new-Recorded) depth 14

deploying-Kept :
    (r : Option Escrow) (id now session : ℕ) (buyer seller : Text) (amount : ℤ)
    (gateway : Option App → Option Deployment × Option App) (d : Desk)
    → r ≡ d.row
    → IsLedger d.row d.settlements
    → Kept (deploying r id now session buyer seller amount gateway d)
unfolding Holds
deploying-Kept (some e) id now session buyer seller amount gateway d p h = h
deploying-Kept none id now session buyer seller amount gateway d p h =
    first-Kept id now session buyer seller amount gateway d h (ground (arith, p, h))

pub deploy-Kept :
    (id now session : ℕ) (buyer seller : Text) (amount : ℤ)
    (gateway : Option App → Option Deployment × Option App) (d : Desk)
    → IsLedger d.row d.settlements
    → Kept (deploy_escrow id now session buyer seller amount gateway d)
unfolding deploy_escrow
deploy-Kept id now session buyer seller amount gateway d =
    deploying-Kept d.row id now session buyer seller amount gateway d refl

pub pera_fund-Kept :
    (tx : Text) (now : ℕ) (d : Desk)
    → IsLedger d.row d.settlements
    → Kept (record_pera_fund tx now d)
unfolding record_pera_fund
pera_fund-Kept tx now d h = search ledger_rules depth 14

pub pera_release-Kept :
    (o : Outside) (rows : Option (List AuditEntry)) (tx : Text) (now later at : ℕ) (d : Desk)
    → IsLedger d.row d.settlements
    → Kept (record_pera_release o rows tx now later at d)
unfolding record_pera_release
pera_release-Kept o rows tx now later at d h = search ledger_rules depth 14

pub pera_refund-Kept :
    (tx : Text) (now later : ℕ) (d : Desk)
    → IsLedger d.row d.settlements
    → Kept (record_pera_refund tx now later d)
unfolding record_pera_refund
pera_refund-Kept tx now later d h = search ledger_rules depth 14

-- The row that `record_pera_deploy` makes stands as DEPLOYED before it has its application.
placed-Passes :
    (id now session app : ℕ) (address tx : Text) (ss : List Settlement)
    → has_app (some app) ≡ true
    → ss ≡ []
    → Passes
        (λ event e'. Recorded e' ss)
        (record_deployment app address tx now
          (record (new_escrow id now session [] [] 1) { status = deployed }))
unfolding new_escrow record_deployment
placed-Passes id now session app address tx ss p h = ground arith

placed-Kept :
    (id session now : ℕ) (index : ℤ) (address tx : Text) (app : App) (d : Desk)
    → IsLedger d.row d.settlements
    → d.settlements ≡ []
    → Kept (recording none id session now index address tx app d)
placed-Kept id session now index address tx app d h p =
    search (ledger_rules, placed-Passes) depth 14

pera_deployed-Kept :
    (e : Escrow) (b : Bool) (now : ℕ) (index : ℤ) (address tx : Text) (app : App) (d : Desk)
    → IsLedger d.row d.settlements
    → Recorded e d.settlements
    → Kept (
        if b
        then (answered e, d)
        else built (app_id index) d (λ n. built (app_address address) d (λ place.
          built
            (tx_id tx)
            d
            (λ t. stored (record_deployment n place t now e) (record d { app = some app })))))
pera_deployed-Kept e true now index address tx app d h p = unfold Holds in h
pera_deployed-Kept e false now index address tx app d h p = search ledger_rules depth 14

recording-Kept :
    (r : Option Escrow) (id session now : ℕ) (index : ℤ) (address tx : Text) (app : App) (d : Desk)
    → r ≡ d.row
    → IsLedger d.row d.settlements
    → Kept (recording r id session now index address tx app d)
recording-Kept (some e) id session now index address tx app d p h =
    pera_deployed-Kept e (has_app e.algo_app_id) now index address tx app d h (of_row d e (sym p) h)
recording-Kept none id session now index address tx app d p h =
    placed-Kept id session now index address tx app d h (ground (arith, p, h))

pub pera_deploy-Kept :
    (id session now : ℕ) (index : ℤ) (address tx : Text) (app : App) (d : Desk)
    → IsLedger d.row d.settlements
    → Kept (record_pera_deploy id session now index address tx app d)
unfolding record_pera_deploy
pera_deploy-Kept id session now index address tx app d =
    recording-Kept d.row id session now index address tx app d refl
