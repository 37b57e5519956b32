-- ===== src/Settlement/Chain/Rows.antt =====
-- No request but a deployment touches the application of a row (backend/src/settlement/application/services.py).
use cadencia_a2a_platform.Prelude.{ℕ, Option, List}
use cadencia_a2a_platform.Prelude.Texts.{Text}
use cadencia_a2a_platform.Settlement.Chain.{Row, row_stands, row_rules}
use cadencia_a2a_platform.Settlement.Rules.{Holds}
use cadencia_a2a_platform.Audit.{AuditEntry}
use cadencia_a2a_platform.Settlement.Gateway.{Sent}
use cadencia_a2a_platform.Settlement.Defs.{Desk}
use cadencia_a2a_platform.Settlement.Service.{
  approve_escrow, reject_escrow, fund_escrow, release_escrow, refund_escrow, freeze_escrow,
  unfreeze_escrow, Outside,
}
use cadencia_a2a_platform.Settlement.Pera.{
  record_pera_fund, record_pera_release, record_pera_refund,
}
use cadencia_a2a_platform.Prelude.{Bool}

pub fund-Row :
    (sent : Sent) (now : ℕ) (d : Desk) (x : Option ℕ)
    → Row x d.row
    → Holds (λ d'. Row x d'.row) (fund_escrow sent now d)
unfolding fund_escrow
fund-Row sent now d x h = search (row_rules, row_stands d) depth 16

pub release-Row :
    (o : Outside) (rows : Option (List AuditEntry)) (sent : Sent) (anchor : Option Text)
    (now later : ℕ) (d : Desk) (x : Option ℕ)
    → Row x d.row
    → Holds (λ d'. Row x d'.row) (release_escrow o rows sent anchor now later d)
unfolding release_escrow
release-Row o rows sent anchor now later d x h = search (row_rules, row_stands d) depth 16

pub refund-Row :
    (reason : Text) (sent : Sent) (now later : ℕ) (d : Desk) (x : Option ℕ)
    → Row x d.row
    → Holds (λ d'. Row x d'.row) (refund_escrow reason sent now later d)
unfolding refund_escrow
refund-Row reason sent now later d x h = search (row_rules, row_stands d) depth 16

pub freeze-Row :
    (sent : Sent) (now : ℕ) (d : Desk) (x : Option ℕ)
    → Row x d.row
    → Holds (λ d'. Row x d'.row) (freeze_escrow sent now d)
unfolding freeze_escrow
freeze-Row sent now d x h = search (row_rules, row_stands d) depth 16

pub unfreeze-Row :
    (sent : Sent) (now : ℕ) (d : Desk) (x : Option ℕ)
    → Row x d.row
    → Holds (λ d'. Row x d'.row) (unfreeze_escrow sent now d)
unfolding unfreeze_escrow
unfreeze-Row sent now d x h = search (row_rules, row_stands d) depth 16

pub pera_fund-Row :
    (tx : Text) (now : ℕ) (d : Desk) (x : Option ℕ)
    → Row x d.row
    → Holds (λ d'. Row x d'.row) (record_pera_fund tx now d)
unfolding record_pera_fund
pera_fund-Row tx now d x h = search (row_rules, row_stands d) depth 16

pub pera_release-Row :
    (o : Outside) (rows : Option (List AuditEntry)) (tx : Text) (now later at : ℕ) (d : Desk)
    (x : Option ℕ)
    → Row x d.row
    → Holds (λ d'. Row x d'.row) (record_pera_release o rows tx now later at d)
unfolding record_pera_release
pera_release-Row o rows tx now later at d x h = search (row_rules, row_stands d) depth 16

pub pera_refund-Row :
    (tx : Text) (now later : ℕ) (d : Desk) (x : Option ℕ)
    → Row x d.row
    → Holds (λ d'. Row x d'.row) (record_pera_refund tx now later d)
unfolding record_pera_refund
pera_refund-Row tx now later d x h = search (row_rules, row_stands d) depth 16

pub approve-Row :
    (checked : Bool) (now : ℕ) (d : Desk) (x : Option ℕ)
    → Row x d.row
    → Holds (λ d'. Row x d'.row) (approve_escrow checked now d)
unfolding approve_escrow
approve-Row checked now d x h = search (row_rules, row_stands d) depth 16

pub reject-Row :
    (reason : Text) (now : ℕ) (d : Desk) (x : Option ℕ)
    → Row x d.row
    → Holds (λ d'. Row x d'.row) (reject_escrow reason now d)
unfolding reject_escrow
reject-Row reason now d x h = search (row_rules, row_stands d) depth 16
