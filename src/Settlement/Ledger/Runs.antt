-- ===== src/Settlement/Ledger/Runs.antt =====
-- Sequences of requests to the settlement service keep its settlement records
-- (backend/src/settlement/application/services.py).
use cadencia_a2a_platform.Prelude.{ℕ, List, [], ◌∷◌}
use cadencia_a2a_platform.Settlement.Rules.{Holds}
use cadencia_a2a_platform.Settlement.Ledger.{IsLedger, Kept}
use cadencia_a2a_platform.Settlement.Gateway.{deploy_on_chain}
use cadencia_a2a_platform.Settlement.Defs.{Desk}
use cadencia_a2a_platform.Settlement.Service.{Outside}
use cadencia_a2a_platform.Settlement.Requests.{
  serve, run, Request, create_pending, approve_it, reject_it, deploy_it, fund_it, release_it,
  refund_it, freeze_row, unfreeze_row, pera_deploy, pera_fund, pera_release, pera_refund,
}
use cadencia_a2a_platform.Settlement.Ledger.Escrows.{
  create-Kept, approve-Kept, reject-Kept, fund-Kept, release-Kept, refund-Kept, freeze-Kept,
  unfreeze-Kept,
}
use cadencia_a2a_platform.Settlement.Ledger.Wallets.{
  deploy-Kept, pera_fund-Kept, pera_release-Kept, pera_refund-Kept, pera_deploy-Kept,
}

serve-Kept :
    (o : Outside) (now later : ℕ) (r : Request) (d : Desk)
    → IsLedger d.row d.settlements
    → Kept (serve o now later r d)
unfolding serve
serve-Kept o now later (create_pending id session in_micro fallback) =
    create-Kept id now session in_micro fallback
serve-Kept o now later (approve_it checked) = approve-Kept checked now
serve-Kept o now later (reject_it reason) = reject-Kept reason now
serve-Kept o now later
      (deploy_it id session buyer seller amount creator index address creation payment) =
    deploy-Kept id now session buyer seller amount
      (deploy_on_chain creator index address creation payment)
serve-Kept o now later (fund_it sent) = fund-Kept sent now
serve-Kept o now later (release_it rows sent anchor) = release-Kept o rows sent anchor now later
serve-Kept o now later (refund_it reason sent) = refund-Kept reason sent now later
serve-Kept o now later (freeze_row sent) = freeze-Kept sent now
serve-Kept o now later (unfreeze_row sent) = unfreeze-Kept sent now
serve-Kept o now later (pera_deploy id session index address tx app) =
    pera_deploy-Kept id session now index address tx app
serve-Kept o now later (pera_fund tx) = pera_fund-Kept tx now
serve-Kept o now later (pera_release rows tx at) = pera_release-Kept o rows tx now later at
serve-Kept o now later (pera_refund tx) = pera_refund-Kept tx now later

-- Whatever requests are served one after another, where every call of the chain, of the anchor and of the
-- audit log may fail, an escrow that is RELEASED has exactly one settlement record, with the escrow's id,
-- its whole amount and its release transaction, and is not frozen; an escrow that is not RELEASED has
-- none; and from DEPLOYED on an escrow has a non-zero application id, frozen and settled ones included.
pub run-IsLedger :
    (o : Outside) (rs : List (ℕ × ℕ × Request)) (d : Desk)
    → IsLedger d.row d.settlements
    → IsLedger (run o rs d).row (run o rs d).settlements
unfolding run
run-IsLedger o [] d h = h
run-IsLedger o ((now, later, r) ∷ rs) d h =
    run-IsLedger o rs (serve o now later r d).1 (unfold Holds in serve-Kept o now later r d h)
