-- ===== src/Settlement/Ledger.antt =====
-- The settlement records over any requests (backend/src/settlement/application/services.py).
pub mod Escrows
pub mod Wallets
pub mod Runs
use cadencia_a2a_platform.Prelude.{
  ℕ, zero, suc, ◌≡◌, ◌≢◌, ◌⊎◌, Bool, true, false, Option, none, some, List, [], ◌∷◌, arith,
}
use cadencia_a2a_platform.Prelude.Texts.{Text}
use cadencia_a2a_platform.Prelude.Int.{ℤ, pos, negsuc}
use cadencia_a2a_platform.Errors.{ok}
use cadencia_a2a_platform.Settlement.Rules.{Holds, built-Holds, Passes, desk_rules}
use cadencia_a2a_platform.Escrow.{
  has_app, record_deployment, record_funding, record_release, record_refund, freeze, unfreeze,
  Escrow, EscrowStatus, deployed, funded, released, refunded, frozen_status,
}
use cadencia_a2a_platform.Settlement.Values.{app_id, tx_id}
use cadencia_a2a_platform.Settlement.Defs.{Served, built, Settlement, Desk}
use cadencia_a2a_platform.Settlement.Service.{settlement_of}

-- The statuses from the deployment on.
abbrev pub on_app : EscrowStatus → Bool
on_app deployed = true
on_app funded = true
on_app released = true
on_app refunded = true
on_app frozen_status = true
on_app _ = false

-- One record, of the escrow's id, its whole amount and its release transaction.
abbrev pub SettledOnce : Escrow → List Settlement → Type 0
SettledOnce e [] = ⊥
SettledOnce e (s ∷ []) =
    (s.escrow_id ≡ e.id) × (s.amount ≡ e.amount) × (some s.tx_id ≡ e.release_tx_id)
SettledOnce e (s ∷ t ∷ ss) = ⊥

abbrev pub Recorded : Escrow → List Settlement → Type 0
Recorded e ss =
    (has_app e.algo_app_id ≡ true ⊎ e.algo_app_id ≡ none)
    × (on_app e.status ≡ true → has_app e.algo_app_id ≡ true)
    × (e.status ≡ released → SettledOnce e ss × (e.frozen ≡ false))
    × (e.status ≢ released → ss ≡ [])

-- From the deployment on there is an application; there is a settlement record exactly of a release.
abbrev pub IsLedger : Option Escrow → List Settlement → Type 0
IsLedger none ss = ss ≡ []
IsLedger (some e) ss = Recorded e ss

abbrev pub Kept : Served → Type 0
Kept = Holds (λ d. IsLedger d.row d.settlements)

app_id-IsPositive : (z : ℤ) (n : ℕ) → app_id z ≡ ok n → has_app (some n) ≡ true
unfolding app_id
app_id-IsPositive (pos zero) n h = cc
app_id-IsPositive (pos (suc k)) n h = ground arith
app_id-IsPositive (negsuc k) n h = cc

pub app_id-Holds :
    (P : Desk → Type 0) (z : ℤ) (d : Desk) (k : ℕ → Served)
    → P d
    → ((n : ℕ) → has_app (some n) ≡ true → Holds P (k n))
    → Holds P (built (app_id z) d k)
app_id-Holds P z d k h f = built-Holds P (app_id z) d k h (λ n e. f n (app_id-IsPositive z n e))

-- What the methods of the aggregate keep of a row that is recorded.
pub deployment-Passes :
    (e : Escrow) (ss : List Settlement) (app : ℕ) (address tx : Text) (now : ℕ)
    → has_app (some app) ≡ true
    → Recorded e ss
    → Passes (λ event e'. Recorded e' ss) (record_deployment app address tx now e)
unfolding record_deployment
deployment-Passes e ss app address tx now p h = ground arith

pub funding-Passes :
    (e : Escrow) (ss : List Settlement) (tx : Text) (now : ℕ)
    → Recorded e ss
    → Passes (λ event e'. Recorded e' ss) (record_funding tx now e)
unfolding record_funding
funding-Passes e ss tx now h = ground arith

pub refund-Passes :
    (e : Escrow) (ss : List Settlement) (tx : Text) (now later : ℕ)
    → Recorded e ss
    → Passes (λ event e'. Recorded e' ss) (record_refund tx now later e)
unfolding record_refund
refund-Passes e ss tx now later h = ground arith

pub freeze-Passes :
    (e : Escrow) (ss : List Settlement) (now : ℕ)
    → e.algo_app_id ≢ none
    → Recorded e ss
    → Passes (λ event e'. Recorded e' ss) (freeze now e)
unfolding freeze
freeze-Passes e ss now p h = ground arith

pub unfreeze-Passes :
    (e : Escrow) (ss : List Settlement) (now : ℕ)
    → e.algo_app_id ≢ none
    → Recorded e ss
    → Passes (λ event e'. Recorded e' ss) (unfreeze now e)
unfolding unfreeze
unfreeze-Passes e ss now p h = ground arith

pub release-Passes :
    (e : Escrow) (ss : List Settlement) (tx root : Text) (now later : ℕ) (at : Option ℕ)
    → Recorded e ss
    → Passes
        (λ event e'. Recorded e' (settlement_of e tx at ∷ ss))
        (record_release tx root now later e)
unfolding record_release
release-Passes e ss tx root now later at h = ground arith

-- The row that was found is recorded.
pub of_row :
    (d : Desk) (e : Escrow)
    → d.row ≡ some e
    → IsLedger d.row d.settlements
    → Recorded e d.settlements
of_row d e p h = ground (arith, p, h)

pub ruleset ledger_rules = (
  desk_rules, of_row, deployment-Passes, funding-Passes, refund-Passes, freeze-Passes,
  unfreeze-Passes, release-Passes, app_id-Holds,
)
