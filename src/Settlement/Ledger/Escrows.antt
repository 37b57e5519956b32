-- ===== src/Settlement/Ledger/Escrows.antt =====
-- Every request keeps the settlement records (backend/src/settlement/application/services.py).
use cadencia_a2a_platform.Prelude.{ℕ, ◌≡◌, refl, Option, none, some, List, arith}
use cadencia_a2a_platform.Prelude.Texts.{Text}
use cadencia_a2a_platform.Prelude.Int.{ℤ}
use cadencia_a2a_platform.Settlement.Rules.{Holds, built-Holds}
use cadencia_a2a_platform.Settlement.Ledger.{IsLedger, Kept, ledger_rules}
use cadencia_a2a_platform.Escrow.{new_escrow, record_approval, record_rejection, Escrow}
use cadencia_a2a_platform.Settlement.Gateway.{Sent}
use cadencia_a2a_platform.Settlement.Pricing.{price_microalgo}
use cadencia_a2a_platform.Settlement.Values.{escrow_amount}
use cadencia_a2a_platform.Settlement.Defs.{Desk}
use cadencia_a2a_platform.Settlement.Service.{
  pending, create_pending_escrow, approve_escrow, reject_escrow, fund_escrow, release_escrow,
  refund_escrow, freeze_escrow, unfreeze_escrow, Outside,
}
use cadencia_a2a_platform.Audit.{AuditEntry}
use cadencia_a2a_platform.Prelude.{Bool}

pending-Kept :
    (r : Option Escrow) (id now session price : ℕ) (d : Desk)
    → r ≡ d.row
    → IsLedger d.row d.settlements
    → Kept (pending r id now session price d)
unfolding new_escrow Holds
pending-Kept (some e) id now session price d p h = h
pending-Kept none id now session price d p h =
    built-Holds (λ d'. IsLedger d'.row d'.settlements) (escrow_amount price) d _ h
      (λ amount q. ground (arith, p, h))

pub create-Kept :
    (id now session : ℕ) (in_micro : Option ℤ) (fallback : ℤ) (d : Desk)
    → IsLedger d.row d.settlements
    → Kept (create_pending_escrow id now session in_micro fallback d)
unfolding create_pending_escrow Holds
create-Kept id now session in_micro fallback d =
    pending-Kept d.row id now session (price_microalgo in_micro fallback) d refl

pub approve-Kept :
    (checked : Bool) (now : ℕ) (d : Desk)
    → IsLedger d.row d.settlements
    → Kept (approve_escrow checked now d)
unfolding approve_escrow record_approval Holds
approve-Kept checked now d h = ground arith

pub reject-Kept :
    (reason : Text) (now : ℕ) (d : Desk)
    → IsLedger d.row d.settlements
    → Kept (reject_escrow reason now d)
unfolding reject_escrow record_rejection Holds
reject-Kept reason now d h = ground arith

pub fund-Kept :
    (sent : Sent) (now : ℕ) (d : Desk)
    → IsLedger d.row d.settlements
    → Kept (fund_escrow sent now d)
unfolding fund_escrow
fund-Kept sent now d h = search ledger_rules depth 14

pub release-Kept :
    (o : Outside) (rows : Option (List AuditEntry)) (sent : Sent) (anchor : Option Text)
    (now later : ℕ) (d : Desk)
    → IsLedger d.row d.settlements
    → Kept (release_escrow o rows sent anchor now later d)
unfolding release_escrow
release-Kept o rows sent anchor now later d h = search ledger_rules depth 14

pub refund-Kept :
    (reason : Text) (sent : Sent) (now later : ℕ) (d : Desk)
    → IsLedger d.row d.settlements
    → Kept (refund_escrow reason sent now later d)
unfolding refund_escrow
refund-Kept reason sent now later d h = search ledger_rules depth 14

pub freeze-Kept :
    (sent : Sent) (now : ℕ) (d : Desk)
    → IsLedger d.row d.settlements
    → Kept (freeze_escrow sent now d)
unfolding freeze_escrow
freeze-Kept sent now d h = search ledger_rules depth 14

pub unfreeze-Kept :
    (sent : Sent) (now : ℕ) (d : Desk)
    → IsLedger d.row d.settlements
    → Kept (unfreeze_escrow sent now d)
unfolding unfreeze_escrow
unfreeze-Kept sent now d h = search ledger_rules depth 14
