-- ===== src/Settlement/Requests.antt =====
-- The requests to the settlement service as data, and sequences of them.
use cadencia_a2a_platform.Prelude.{ℕ, Bool, Option, List, [], ◌∷◌}
use cadencia_a2a_platform.Prelude.Int.{ℤ}
use cadencia_a2a_platform.Prelude.Texts.{Text}
use cadencia_a2a_platform.Audit.{AuditEntry}
use cadencia_a2a_platform.Settlement.Service.{
  create_pending_escrow, approve_escrow, reject_escrow, deploy_escrow, fund_escrow, release_escrow,
  refund_escrow, freeze_escrow, unfreeze_escrow, Outside,
}
use cadencia_a2a_platform.Settlement.Pera.{
  record_pera_deploy, record_pera_fund, record_pera_release, record_pera_refund,
}
use cadencia_a2a_platform.Settlement.Gateway.{deploy_on_chain, App, Sent}
use cadencia_a2a_platform.Settlement.Defs.{Served, Desk}

pub data Request : Type 0 where
  create_pending : (id session : ℕ) (in_micro : Option ℤ) (fallback : ℤ) → Request
  approve_it : (checked : Bool) → Request
  reject_it : (reason : Text) → Request
  deploy_it :
      (id session : ℕ) (buyer seller : Text) (amount : ℤ) (creator index : ℕ) (address : Text)
      (creation payment : Sent)
      → Request
  fund_it : (sent : Sent) → Request
  release_it : (rows : Option (List AuditEntry)) (sent : Sent) (anchor : Option Text) → Request
  refund_it : (reason : Text) (sent : Sent) → Request
  freeze_row unfreeze_row : (sent : Sent) → Request
  pera_deploy : (id session : ℕ) (index : ℤ) (address tx : Text) (app : App) → Request
  pera_fund : (tx : Text) → Request
  pera_release : (rows : Option (List AuditEntry)) (tx : Text) (at : ℕ) → Request
  pera_refund : (tx : Text) → Request

unfoldable pub serve : Outside → ℕ → ℕ → Request → Desk → Served
unfolding create_pending_escrow approve_escrow reject_escrow deploy_escrow deploy_on_chain
    fund_escrow release_escrow refund_escrow freeze_escrow unfreeze_escrow record_pera_deploy
    record_pera_fund record_pera_release record_pera_refund
serve o now later (create_pending id session in_micro fallback) =
    create_pending_escrow id now session in_micro fallback
serve o now later (approve_it checked) = approve_escrow checked now
serve o now later (reject_it reason) = reject_escrow reason now
serve o now later
      (deploy_it id session buyer seller amount creator index address creation payment) =
    deploy_escrow id now session buyer seller amount
      (deploy_on_chain creator index address creation payment)
serve o now later (fund_it sent) = fund_escrow sent now
serve o now later (release_it rows sent anchor) = release_escrow o rows sent anchor now later
serve o now later (refund_it reason sent) = refund_escrow reason sent now later
serve o now later (freeze_row sent) = freeze_escrow sent now
serve o now later (unfreeze_row sent) = unfreeze_escrow sent now
serve o now later (pera_deploy id session index address tx app) =
    record_pera_deploy id session now index address tx app
serve o now later (pera_fund tx) = record_pera_fund tx now
serve o now later (pera_release rows tx at) = record_pera_release o rows tx now later at
serve o now later (pera_refund tx) = record_pera_refund tx now later

-- Requests one after another, each with its two clock readings.
unfoldable pub run : Outside → List (ℕ × ℕ × Request) → Desk → Desk
run o [] d = d
run o ((now, later, r) ∷ rs) d = run o rs (serve o now later r d).1
