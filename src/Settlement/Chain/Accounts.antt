-- ===== src/Settlement/Chain/Accounts.antt =====
-- No request but a deployment lowers what the account of the application holds (backend/src/settlement/application/services.py).
use cadencia_a2a_platform.Prelude.{ℕ, ◌≤◌, Option, List}
use cadencia_a2a_platform.Prelude.Texts.{Text}
use cadencia_a2a_platform.Settlement.Chain.{held, held_rules}
use cadencia_a2a_platform.Settlement.Rules.{Holds}
use cadencia_a2a_platform.Audit.{AuditEntry}
use cadencia_a2a_platform.Settlement.Gateway.{Sent}
use cadencia_a2a_platform.Settlement.Defs.{Desk}
use cadencia_a2a_platform.Settlement.Service.{
  approve_escrow, reject_escrow, fund_escrow, release_escrow, refund_escrow, freeze_escrow,
  unfreeze_escrow, Outside,
}
use cadencia_a2a_platform.Settlement.Pera.{
  record_pera_fund, record_pera_release, record_pera_refund,
}
use cadencia_a2a_platform.Prelude.{Bool}

pub fund-Held :
    (sent : Sent) (now : ℕ) (d : Desk) (b : ℕ)
    → b ≤ held d.app
    → Holds (λ d'. b ≤ held d'.app) (fund_escrow sent now d)
unfolding fund_escrow
fund-Held sent now d b h = search held_rules depth 16

pub release-Held :
    (o : Outside) (rows : Option (List AuditEntry)) (sent : Sent) (anchor : Option Text)
    (now later : ℕ) (d : Desk) (b : ℕ)
    → b ≤ held d.app
    → Holds (λ d'. b ≤ held d'.app) (release_escrow o rows sent anchor now later d)
unfolding release_escrow
release-Held o rows sent anchor now later d b h = search held_rules depth 16

pub refund-Held :
    (reason : Text) (sent : Sent) (now later : ℕ) (d : Desk) (b : ℕ)
    → b ≤ held d.app
    → Holds (λ d'. b ≤ held d'.app) (refund_escrow reason sent now later d)
unfolding refund_escrow
refund-Held reason sent now later d b h = search held_rules depth 16

pub freeze-Held :
    (sent : Sent) (now : ℕ) (d : Desk) (b : ℕ)
    → b ≤ held d.app
    → Holds (λ d'. b ≤ held d'.app) (freeze_escrow sent now d)
unfolding freeze_escrow
freeze-Held sent now d b h = search held_rules depth 16

pub unfreeze-Held :
    (sent : Sent) (now : ℕ) (d : Desk) (b : ℕ)
    → b ≤ held d.app
    → Holds (λ d'. b ≤ held d'.app) (unfreeze_escrow sent now d)
unfolding unfreeze_escrow
unfreeze-Held sent now d b h = search held_rules depth 16

pub pera_fund-Held :
    (tx : Text) (now : ℕ) (d : Desk) (b : ℕ)
    → b ≤ held d.app
    → Holds (λ d'. b ≤ held d'.app) (record_pera_fund tx now d)
unfolding record_pera_fund
pera_fund-Held tx now d b h = search held_rules depth 16

pub pera_release-Held :
    (o : Outside) (rows : Option (List AuditEntry)) (tx : Text) (now later at : ℕ) (d : Desk)
    (b : ℕ)
    → b ≤ held d.app
    → Holds (λ d'. b ≤ held d'.app) (record_pera_release o rows tx now later at d)
unfolding record_pera_release
pera_release-Held o rows tx now later at d b h = search held_rules depth 16

pub pera_refund-Held :
    (tx : Text) (now later : ℕ) (d : Desk) (b : ℕ)
    → b ≤ held d.app
    → Holds (λ d'. b ≤ held d'.app) (record_pera_refund tx now later d)
unfolding record_pera_refund
pera_refund-Held tx now later d b h = search held_rules depth 16

pub approve-Held :
    (checked : Bool) (now : ℕ) (d : Desk) (b : ℕ)
    → b ≤ held d.app
    → Holds (λ d'. b ≤ held d'.app) (approve_escrow checked now d)
unfolding approve_escrow
approve-Held checked now d b h = search held_rules depth 16

pub reject-Held :
    (reason : Text) (now : ℕ) (d : Desk) (b : ℕ)
    → b ≤ held d.app
    → Holds (λ d'. b ≤ held d'.app) (reject_escrow reason now d)
unfolding reject_escrow
reject-Held reason now d b h = search held_rules depth 16
