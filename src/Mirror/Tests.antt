-- ===== src/Mirror/Tests.antt =====
-- The theorems on the record and the contract at a concrete pair of them.
use cadencia_a2a_platform.Prelude.{◌≡◌, ◌↔◌, refl, true, false, none, some, [], arith}
use cadencia_a2a_platform.Prelude.Texts.{codes}
use cadencia_a2a_platform.Mirror.{
  Move, funds, Follows, IsTimely, accepted_is_recorded, Reach-Mirrors, Mirrors, here, next,
}
use cadencia_a2a_platform.Escrow
use cadencia_a2a_platform.Contract

abbrev contract : Contract.CadenciaEscrow
contract = record {
  creator_address = 1;
  application_address = 9;
  buyer = 2;
  seller = 3;
  amount = 5000;
  session_id = codes "S";
  status = 0;
  frozen = 0;
}

abbrev aggregate : Escrow.Escrow
aggregate = record {
  id = 1;
  created_at = 100;
  updated_at = 102;
  session_id = 7;
  buyer_address = codes "BUYER";
  seller_address = codes "SELLER";
  amount = 5000;
  status = Escrow.deployed;
  algo_app_id = some 55;
  algo_app_address = some (codes "APP");
  deploy_tx_id = some (codes "D1");
  fund_tx_id = none;
  release_tx_id = none;
  refund_tx_id = none;
  merkle_root = none;
  frozen = false;
  settled_at = none;
}

aggregate-Mirrors : Mirrors aggregate contract
aggregate-Mirrors = ground arith

abbrev payment : Contract.Payment
payment = record { receiver = 9; amount = 5000; note = [] }

fund_accepted : Contract.fund payment contract ≡ some (record contract { status = 1 }, [])
unfolding Contract.fund
fund_accepted = refl

funding-Move :
    Move aggregate contract
      (Escrow.record_funding (codes "F1") 103 aggregate)
      (record contract { status = 1 })
funding-Move = funds payment (codes "F1") 103 [] fund_accepted refl

accepted_is_recorded_example :
    Follows (Escrow.record_funding (codes "F1") 103 aggregate) (record contract { status = 1 })
    ↔ IsTimely aggregate contract
        (Escrow.record_funding (codes "F1") 103 aggregate)
        (record contract { status = 1 })
        funding-Move
accepted_is_recorded_example =
    accepted_is_recorded aggregate contract (record contract { status = 1 })
      (Escrow.record_funding (codes "F1") 103 aggregate) aggregate-Mirrors funding-Move

Reach-Mirrors_example :
    Mirrors (Escrow.record_funding (codes "F1") 103 aggregate).1 (record contract { status = 1 })
Reach-Mirrors_example = Reach-Mirrors aggregate-Mirrors (
    next (Escrow.record_funding (codes "F1") 103 aggregate) here
      (funds payment (codes "F1") 103 [] fund_accepted refl) tt)

-- An approved escrow before its deployment.
abbrev approval : Escrow.Escrow
approval = record aggregate {
  status = Escrow.approved;
  algo_app_id = none;
  algo_app_address = none;
  deploy_tx_id = none;
}

initialize_accepted : Contract.initialize 1 1 9 2 3 5000 (codes "S") ≡ some contract
unfolding Contract.initialize
initialize_accepted = refl

abbrev halted : Escrow.Escrow
halted = record aggregate { status = Escrow.frozen_status; frozen = true }

abbrev halted_contract : Contract.CadenciaEscrow
halted_contract = record contract { status = 1; frozen = 1 }

halted-Mirrors : Mirrors halted halted_contract
halted-Mirrors = ground arith
