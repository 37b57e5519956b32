-- ===== src/Settlement/Chain/Runs.antt =====
-- What requests to the settlement service leave as it is, once the escrow has its row
-- (backend/src/settlement/application/services.py).
use cadencia_a2a_platform.Prelude.{ℕ, ◌≤◌, ◌≡◌, refl, Bool, true, false, Option, none, some}
use cadencia_a2a_platform.Prelude.Texts.{Text}
use cadencia_a2a_platform.Prelude.Int.{ℤ}
use cadencia_a2a_platform.Settlement.Chain.{held, Row}
use cadencia_a2a_platform.Settlement.Rules.{Holds}
use cadencia_a2a_platform.Settlement.Chain.Rows.{
  fund-Row, release-Row, refund-Row, freeze-Row, unfreeze-Row, pera_fund-Row, pera_release-Row,
  pera_refund-Row, approve-Row, reject-Row,
}
use cadencia_a2a_platform.Settlement.Chain.Accounts.{
  fund-Held, release-Held, refund-Held, freeze-Held, unfreeze-Held, pera_fund-Held,
  pera_release-Held, pera_refund-Held, approve-Held, reject-Held,
}
use cadencia_a2a_platform.Escrow.{has_app, Escrow}
use cadencia_a2a_platform.Settlement.Gateway.{deploy_on_chain, App, Deployment}
use cadencia_a2a_platform.Settlement.Pricing.{price_microalgo}
use cadencia_a2a_platform.Settlement.Defs.{Served, Desk}
use cadencia_a2a_platform.Settlement.Service.{
  pending, create_pending_escrow, deploying, deploy_escrow, Outside,
}
use cadencia_a2a_platform.Settlement.Pera.{recording, record_pera_deploy}
use cadencia_a2a_platform.Settlement.Requests.{
  serve, Request, create_pending, approve_it, reject_it, deploy_it, fund_it, release_it, refund_it,
  freeze_row, unfreeze_row, pera_deploy, pera_fund, pera_release, pera_refund,
}

abbrev pub is_pera_deploy : Request → Bool
is_pera_deploy (pera_deploy id session index address tx app) = true
is_pera_deploy _ = false

-- The requests that make a row leave one that is there.
pending_again :
    (r : Option Escrow) (id now session price : ℕ) (d : Desk) (x : Option ℕ)
    → Row x r
    → (pending r id now session price d).1 ≡ d
unfolding Row
pending_again (some e) id now session price d x h = refl
pending_again none id now session price d x h = elim h [ ]

deploying_again :
    (r : Option Escrow) (id now session : ℕ) (buyer seller : Text) (amount : ℤ)
    (gateway : Option App → Option Deployment × Option App) (d : Desk) (x : Option ℕ)
    → Row x r
    → (deploying r id now session buyer seller amount gateway d).1 ≡ d
unfolding Row
deploying_again (some e) id now session buyer seller amount gateway d x h = refl
deploying_again none id now session buyer seller amount gateway d x h = elim h [ ]

recording_again :
    (r : Option Escrow) (id session now : ℕ) (index : ℤ) (address tx : Text) (app : App) (d : Desk)
    (x : Option ℕ)
    → Row x r
    → has_app x ≡ true
    → (recording r id session now index address tx app d).1 ≡ d
unfolding Row
recording_again (some e) id session now index address tx app d x h p = rw (h, p) refl
recording_again none id session now index address tx app d x h p = elim h [ ]

-- A predicate that holds before holds after where the desk is the same.
same-Holds : (P : Desk → Type 0) (s : Served) (d : Desk) → s.1 ≡ d → P d → Holds P s
unfolding Holds
same-Holds P s d e h = rw e h

created :
    (id now session : ℕ) (in_micro : Option ℤ) (fallback : ℤ) (d : Desk) (x : Option ℕ)
    → Row x d.row
    → (create_pending_escrow id now session in_micro fallback d).1 ≡ d
unfolding create_pending_escrow
created id now session in_micro fallback d x =
    pending_again d.row id now session (price_microalgo in_micro fallback) d x

redeployed :
    (id now session : ℕ) (buyer seller : Text) (amount : ℤ)
    (gateway : Option App → Option Deployment × Option App) (d : Desk) (x : Option ℕ)
    → Row x d.row
    → (deploy_escrow id now session buyer seller amount gateway d).1 ≡ d
unfolding deploy_escrow
redeployed id now session buyer seller amount gateway d x =
    deploying_again d.row id now session buyer seller amount gateway d x

rerecorded :
    (id session now : ℕ) (index : ℤ) (address tx : Text) (app : App) (d : Desk) (x : Option ℕ)
    → Row x d.row
    → has_app x ≡ true
    → (record_pera_deploy id session now index address tx app d).1 ≡ d
unfolding record_pera_deploy
rerecorded id session now index address tx app d x =
    recording_again d.row id session now index address tx app d x

pub serve-Row :
    (o : Outside) (now later : ℕ) (r : Request) (d : Desk) (x : Option ℕ)
    → (is_pera_deploy r ≡ true → has_app x ≡ true)
    → Row x d.row
    → Holds (λ d'. Row x d'.row) (serve o now later r d)
unfolding serve
serve-Row o now later (create_pending id session in_micro fallback) d x w h =
    same-Holds (λ d'. Row x d'.row) (create_pending_escrow id now session in_micro fallback d) d
      (created id now session in_micro fallback d x h) h
serve-Row o now later
      (deploy_it id session buyer seller amount creator index address creation payment) d x w h =
    same-Holds (λ d'. Row x d'.row)
      (deploy_escrow id now session buyer seller amount
        (deploy_on_chain creator index address creation payment) d)
      d
      (redeployed id now session buyer seller amount
        (deploy_on_chain creator index address creation payment) d x h)
      h
serve-Row o now later (pera_deploy id session index address tx app) d x w h =
    same-Holds (λ d'. Row x d'.row) (record_pera_deploy id session now index address tx app d) d
      (rerecorded id session now index address tx app d x h (w refl)) h
serve-Row o now later (fund_it sent) d x w h = fund-Row sent now d x h
serve-Row o now later (release_it rows sent anchor) d x w h =
    release-Row o rows sent anchor now later d x h
serve-Row o now later (refund_it reason sent) d x w h = refund-Row reason sent now later d x h
serve-Row o now later (freeze_row sent) d x w h = freeze-Row sent now d x h
serve-Row o now later (unfreeze_row sent) d x w h = unfreeze-Row sent now d x h
serve-Row o now later (approve_it checked) d x w h = approve-Row checked now d x h
serve-Row o now later (reject_it reason) d x w h = reject-Row reason now d x h
serve-Row o now later (pera_fund tx) d x w h = pera_fund-Row tx now d x h
serve-Row o now later (pera_release rows tx at) d x w h =
    pera_release-Row o rows tx now later at d x h
serve-Row o now later (pera_refund tx) d x w h = pera_refund-Row tx now later d x h

pub serve-Held :
    (o : Outside) (now later : ℕ) (r : Request) (d : Desk) (x : Option ℕ) (b : ℕ)
    → (is_pera_deploy r ≡ true → has_app x ≡ true)
    → Row x d.row
    → b ≤ held d.app
    → Holds (λ d'. b ≤ held d'.app) (serve o now later r d)
unfolding serve
serve-Held o now later (create_pending id session in_micro fallback) d x b w h k =
    same-Holds (λ d'. b ≤ held d'.app) (create_pending_escrow id now session in_micro fallback d) d
      (created id now session in_micro fallback d x h) k
serve-Held o now later
      (deploy_it id session buyer seller amount creator index address creation payment) d x b w h
      k =
    same-Holds (λ d'. b ≤ held d'.app)
      (deploy_escrow id now session buyer seller amount
        (deploy_on_chain creator index address creation payment) d)
      d
      (redeployed id now session buyer seller amount
        (deploy_on_chain creator index address creation payment) d x h)
      k
serve-Held o now later (pera_deploy id session index address tx app) d x b w h k =
    same-Holds (λ d'. b ≤ held d'.app) (record_pera_deploy id session now index address tx app d) d
      (rerecorded id session now index address tx app d x h (w refl)) k
serve-Held o now later (fund_it sent) d x b w h k = fund-Held sent now d b k
serve-Held o now later (release_it rows sent anchor) d x b w h k =
    release-Held o rows sent anchor now later d b k
serve-Held o now later (refund_it reason sent) d x b w h k = refund-Held reason sent now later d b k
serve-Held o now later (freeze_row sent) d x b w h k = freeze-Held sent now d b k
serve-Held o now later (unfreeze_row sent) d x b w h k = unfreeze-Held sent now d b k
serve-Held o now later (approve_it checked) d x b w h k = approve-Held checked now d b k
serve-Held o now later (reject_it reason) d x b w h k = reject-Held reason now d b k
serve-Held o now later (pera_fund tx) d x b w h k = pera_fund-Held tx now d b k
serve-Held o now later (pera_release rows tx at) d x b w h k =
    pera_release-Held o rows tx now later at d b k
serve-Held o now later (pera_refund tx) d x b w h k = pera_refund-Held tx now later d b k
