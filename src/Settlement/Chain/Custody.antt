-- ===== src/Settlement/Chain/Custody.antt =====
-- What becomes of an escrow's application and of its money
-- (backend/src/settlement/application/services.py,
-- backend/src/settlement/infrastructure/algorand_gateway.py).
use cadencia_a2a_platform.Prelude.{
  ℕ, ◌+◌, ◌≤◌, ◌<◌, ◌≡◌, refl, true, false, Option, none, some, List, [], ◌∷◌, arith,
}
use cadencia_a2a_platform.Prelude.Texts.{Text}
use cadencia_a2a_platform.Errors.{ok}
use cadencia_a2a_platform.Settlement.Chain.{held, Row}
use cadencia_a2a_platform.Settlement.Rules.{Holds}
use cadencia_a2a_platform.Settlement.Ledger.{on_app, IsLedger}
use cadencia_a2a_platform.Settlement.Ledger.Runs.{run-IsLedger}
use cadencia_a2a_platform.Escrow.{has_app, Escrow, deployed, funded}
use cadencia_a2a_platform.Settlement.Defs.{Settlement, Desk}
use cadencia_a2a_platform.Settlement.Service.{fund_escrow, Outside}
use cadencia_a2a_platform.Settlement.Requests.{serve, run, Request}
use cadencia_a2a_platform.Settlement.Chain.Runs.{is_pera_deploy, serve-Row, serve-Held}
use cadencia_a2a_platform.Settlement.Gateway.{fund_amount, App, confirmed}
use cadencia_a2a_platform.Settlement.Values.{tx_id}

-- Once an escrow's row has an application, it keeps that application whatever requests follow, and the
-- balance of the application's account is at no time lower than it was, releases and refunds included:
-- no request pays anybody out of it. What wallets sign on their own is outside.
pub run_keeps_funds :
    (o : Outside) (rs : List (ℕ × ℕ × Request)) (d : Desk) (x : Option ℕ)
    → Row x d.row
    → has_app x ≡ true
    → Row x (run o rs d).row × (held d.app ≤ held (run o rs d).app)
unfolding run
run_keeps_funds o [] d x h p = (h, omega arith)
run_keeps_funds o ((now, later, r) ∷ rs) d x h p =
    let row : Row x (serve o now later r d).1.row =
      unfold Holds in serve-Row o now later r d x (λ w. p) h in
    let kept : held d.app ≤ held (serve o now later r d).1.app =
      unfold Holds in serve-Held o now later r d x (held d.app) (λ w. p) h (omega arith) in
    let rest = run_keeps_funds o rs (serve o now later r d).1 x row p in
    (rest.0, omega (arith, kept, rest.1))

abbrev pub NoWallet : List (ℕ × ℕ × Request) → Type 0
NoWallet [] = Unit
NoWallet ((now, later, r) ∷ rs) = (is_pera_deploy r ≡ false) × NoWallet rs

run_keeps_bare :
    (o : Outside) (rs : List (ℕ × ℕ × Request)) (d : Desk)
    → Row none d.row
    → NoWallet rs
    → Row none (run o rs d).row
unfolding run
run_keeps_bare o [] d h p = h
run_keeps_bare o ((now, later, r) ∷ rs) d h p =
    run_keeps_bare o rs (serve o now later r d).1
      (unfold Holds in serve-Row o now later r d none (λ w. cc (p.0, w)) h) p.1

bare_off_app :
    (row : Option Escrow) (ss : List Settlement) (e : Escrow)
    → row ≡ some e
    → Row none row
    → IsLedger row ss
    → (e.algo_app_id ≡ none) × (on_app e.status ≡ false)
unfolding Row
bare_off_app row ss e p h k = ground arith

-- An escrow whose row is there without an application, as `create_pending_escrow` makes it and as a
-- deployment leaves it whose gateway raised, gets none from any request but `record_pera_deploy`: the
-- approval and the deployment included. It never is DEPLOYED, FUNDED, FROZEN, RELEASED or REFUNDED.
pub undeployed_stays :
    (o : Outside) (rs : List (ℕ × ℕ × Request)) (d : Desk) (e : Escrow)
    → Row none d.row
    → IsLedger d.row d.settlements
    → NoWallet rs
    → (run o rs d).row ≡ some e
    → (e.algo_app_id ≡ none) × (on_app e.status ≡ false)
undeployed_stays o rs d e h k p q =
    bare_off_app (run o rs d).row (run o rs d).settlements e q (run_keeps_bare o rs d h p)
      (run-IsLedger o rs d k)

capped_amount : (n : ℕ) → 500_000 < n → fund_amount n ≡ 500_000
unfolding fund_amount
capped_amount n h = ground arith

-- Funding an escrow of more than 500,000 microALGO that is DEPLOYED records it as FUNDED with its whole
-- amount, and pays 500,000 into the account of its application, once the payment is confirmed.
pub funded_with_less :
    (tx : Text) (now : ℕ) (d : Desk) (e : Escrow) (a : App) (k : ℕ) (p : Text)
    → d.row ≡ some e
    → d.app ≡ some a
    → e.algo_app_id ≡ some k
    → e.algo_app_address ≡ some p
    → e.frozen ≡ false
    → e.status ≡ deployed
    → tx_id tx ≡ ok tx
    → 500_000 < e.amount
    → ((fund_escrow (confirmed tx) now d).1.row
        ≡ some (record e { status = funded; fund_tx_id = some tx; updated_at = now }))
      × (held (fund_escrow (confirmed tx) now d).1.app ≡ a.balance + 500_000)
unfolding fund_escrow held
funded_with_less tx now d e a k p h1 h2 h3 h4 h5 h6 h7 h8 =
    rw (h1, h2, h3, h4, h5, h6, h7, capped_amount e.amount h8) (refl, refl)
