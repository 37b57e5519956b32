-- ===== src/Settlement/Chain.antt =====
-- What stays with an escrow once it has its row: the application, or the lack of one, and the application's
-- money (backend/src/settlement/application/services.py,
-- backend/src/settlement/infrastructure/algorand_gateway.py).
pub mod Rows
pub mod Accounts
pub mod Runs
pub mod Custody
use cadencia_a2a_platform.Prelude.{ℕ, ◌≤◌, ◌≡◌, Option, none, some, arith}
use cadencia_a2a_platform.Prelude.Texts.{Text}
use cadencia_a2a_platform.Errors.{ok, err}
use cadencia_a2a_platform.Settlement.Rules.{Passes, desk_rules}
use cadencia_a2a_platform.Escrow.{
  Outcome, record_approval, record_rejection, record_funding, record_release, record_refund, freeze,
  unfreeze, Escrow,
}
use cadencia_a2a_platform.Settlement.Gateway.{fund_on_chain, send_app_noop, App, Sent}
use cadencia_a2a_platform.Settlement.Defs.{Desk}

-- What the application's account holds.
unfoldable pub held : Option App → ℕ
held none = 0
held (some a) = a.balance

unfoldable pub Row : Option ℕ → Option Escrow → Type 0
Row x none = ⊥
Row x (some e) = e.algo_app_id ≡ x

pub fund_on_chain-held :
    (amount : ℕ) (sent : Sent) (app : Option App) (b : ℕ)
    → b ≤ held app
    → b ≤ held (fund_on_chain amount sent app).1
unfolding fund_on_chain held
fund_on_chain-held amount sent app b h = ground arith

pub send_app_noop-held :
    (sent : Sent) (app : Option App) (b : ℕ) → b ≤ held app → b ≤ held (send_app_noop sent app).1
unfolding send_app_noop held
send_app_noop-held sent app b h = ground arith

-- No method but `record_deployment` touches the application of the row.
pub approval-Stands :
    (e : Escrow) (now : ℕ) (x : Option ℕ)
    → e.algo_app_id ≡ x
    → Passes (λ event e'. Row x (some e')) (record_approval now e)
unfolding record_approval Row
approval-Stands e now x p = ground arith

pub rejection-Stands :
    (e : Escrow) (reason : Text) (now : ℕ) (x : Option ℕ)
    → e.algo_app_id ≡ x
    → Passes (λ event e'. Row x (some e')) (record_rejection reason now e)
unfolding record_rejection Row
rejection-Stands e reason now x p = ground arith

pub funding-Stands :
    (e : Escrow) (tx : Text) (now : ℕ) (x : Option ℕ)
    → e.algo_app_id ≡ x
    → Passes (λ event e'. Row x (some e')) (record_funding tx now e)
unfolding record_funding Row
funding-Stands e tx now x p = ground arith

pub release-Stands :
    (e : Escrow) (tx root : Text) (now later : ℕ) (x : Option ℕ)
    → e.algo_app_id ≡ x
    → Passes (λ event e'. Row x (some e')) (record_release tx root now later e)
unfolding record_release Row
release-Stands e tx root now later x p = ground arith

pub refund-Stands :
    (e : Escrow) (tx : Text) (now later : ℕ) (x : Option ℕ)
    → e.algo_app_id ≡ x
    → Passes (λ event e'. Row x (some e')) (record_refund tx now later e)
unfolding record_refund Row
refund-Stands e tx now later x p = ground arith

pub freeze-Stands :
    (e : Escrow) (now : ℕ) (x : Option ℕ)
    → e.algo_app_id ≡ x
    → Passes (λ event e'. Row x (some e')) (freeze now e)
unfolding freeze Row
freeze-Stands e now x p = ground arith

pub unfreeze-Stands :
    (e : Escrow) (now : ℕ) (x : Option ℕ)
    → e.algo_app_id ≡ x
    → Passes (λ event e'. Row x (some e')) (unfreeze now e)
unfolding unfreeze Row
unfreeze-Stands e now x p = ground arith

-- The row that was found.
pub row_stands :
    (d : Desk) (e : Escrow) (x : Option ℕ) → d.row ≡ some e → Row x d.row → e.algo_app_id ≡ x
unfolding Row
row_stands d e x p h = ground (arith, p, h)

pub any-Stands : (o : Outcome) (b n : ℕ) → b ≤ n → Passes (λ event e. b ≤ n) o
any-Stands (err x, e) b n h = search
any-Stands (ok event, e) b n h = h

pub ruleset row_rules = (
  desk_rules, approval-Stands, rejection-Stands, funding-Stands, release-Stands, refund-Stands,
  freeze-Stands, unfreeze-Stands,
)

pub ruleset held_rules = (desk_rules, any-Stands, fund_on_chain-held, send_app_noop-held)
