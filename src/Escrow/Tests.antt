-- ===== src/Escrow/Tests.antt =====
-- The escrow's theorems at concrete escrows, and runs of its methods.
use cadencia_a2a_platform.Prelude.{◌≡◌, refl, ◌≢◌, inl, true, false, none, some, List, [], ◌∷◌, All}
use cadencia_a2a_platform.Prelude.Texts.{Text, codes}
use cadencia_a2a_platform.Errors.{conflict_error, err}
use cadencia_a2a_platform.Escrow.Defs.{
  new_escrow, record_release, apply, Call, run, Escrow, released, rejected, approve, deploy, fund,
  release, refund, freeze_it,
}
use cadencia_a2a_platform.Escrow.Lifecycle.{
  escrow_run-IsConsistent, settled_absorbs, IsConsistent, IsSettled,
}
use cadencia_a2a_platform.Escrow.Custody.{IsNotFreeze, holds_funds, funded_needs_payment}

abbrev buyer : Text
buyer = codes "BUYER"

abbrev seller : Text
seller = codes "SELLER"

-- The calls of a deal that goes well, with a release that comes too early.
abbrev deal : List Call
deal =
    (101, 101, approve)
    ∷ (102, 102, deploy 55 (codes "APP") (codes "D1"))
    ∷ (103, 103, release (codes "R0") (codes "ROOT"))
    ∷ (104, 104, fund (codes "F1"))
    ∷ (105, 106, release (codes "R1") (codes "ROOT"))
    ∷ (107, 107, freeze_it)
    ∷ []

abbrev paid : Escrow
paid = record {
  id = 1;
  created_at = 100;
  updated_at = 106;
  session_id = 7;
  buyer_address = buyer;
  seller_address = seller;
  amount = 5000;
  status = released;
  algo_app_id = some 55;
  algo_app_address = some (codes "APP");
  deploy_tx_id = some (codes "D1");
  fund_tx_id = some (codes "F1");
  release_tx_id = some (codes "R1");
  refund_tx_id = none;
  merkle_root = some (codes "ROOT");
  frozen = false;
  settled_at = some 105;
}

run-deal : run deal (new_escrow 1 100 7 buyer seller 5000) ≡ paid
unfolding run apply new_escrow
run-deal = refl

early_release :
    (record_release (codes "R0") (codes "ROOT") 5 5 (new_escrow 1 100 7 buyer seller 5000)).0
    ≡ err conflict_error
unfolding record_release new_escrow
early_release = refl

escrow_run-IsConsistent_example : IsConsistent (run deal (new_escrow 1 100 7 buyer seller 5000))
escrow_run-IsConsistent_example = escrow_run-IsConsistent deal 1 100 7 buyer seller 5000

paid-IsSettled : IsSettled paid
paid-IsSettled = record { paid_out = inl refl; has_contract = refl; thawed = refl }

settled_absorbs_example :
    (apply 200 200 (refund (codes "X")) paid ≡ (err conflict_error, paid)) × (run deal paid ≡ paid)
settled_absorbs_example = settled_absorbs paid 200 200 (refund (codes "X")) deal paid-IsSettled

abbrev funding : List Call
funding =
    (101, 101, approve)
    ∷ (102, 102, deploy 55 (codes "APP") (codes "D1"))
    ∷ (104, 104, fund (codes "F1"))
    ∷ []

funding-AllNotFreeze : All IsNotFreeze funding
funding-AllNotFreeze = ((λ p. cc), ((λ p. cc), ((λ p. cc), tt)))

funding_funds : holds_funds (run funding (new_escrow 1 100 7 buyer seller 5000)).status ≡ true
unfolding run apply new_escrow
funding_funds = refl

funded_needs_payment_example :
    let e = run funding (new_escrow 1 100 7 buyer seller 5000) in
    (e.fund_tx_id ≢ none) × (e.algo_app_id ≢ none)
funded_needs_payment_example =
    funded_needs_payment funding 1 100 7 buyer seller 5000 funding-AllNotFreeze funding_funds

-- A rejected escrow.
abbrev refusal : Escrow
refusal = record paid {
  status = rejected;
  algo_app_id = none;
  algo_app_address = none;
  deploy_tx_id = none;
  fund_tx_id = none;
  release_tx_id = none;
  merkle_root = none;
  settled_at = none;
}
