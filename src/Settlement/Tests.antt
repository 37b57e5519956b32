-- ===== src/Settlement/Tests.antt =====
-- The theorems on the settlement service at concrete inputs.
use cadencia_a2a_platform.Prelude.{
  ℕ, ◌+◌, ◌≤◌, ◌≡◌, refl, ◌⊎◌, true, false, Option, none, some, List, [], ◌∷◌, arith,
}
use cadencia_a2a_platform.Prelude.Int.{pos, negsuc}
use cadencia_a2a_platform.Prelude.Texts.{Text, codes}
use cadencia_a2a_platform.Errors.{validation_error, ok, err}
use cadencia_a2a_platform.Escrow.{Escrow, pending_approval, deployed, funded}
use cadencia_a2a_platform.Settlement.Gateway.{App, lost, confirmed}
use cadencia_a2a_platform.Settlement.Defs.{Desk}
use cadencia_a2a_platform.Settlement.Service.{fund_escrow, Outside}
use cadencia_a2a_platform.Settlement.Requests.{serve, run, Request, deploy_it, fund_it, release_it}
use cadencia_a2a_platform.Settlement.Ledger.{on_app, IsLedger}
use cadencia_a2a_platform.Settlement.Ledger.Runs.{run-IsLedger}
use cadencia_a2a_platform.Settlement.Values.{app_address, tx_id, escrow_amount}
use cadencia_a2a_platform.Settlement.Pricing.{price_microalgo}
use cadencia_a2a_platform.Settlement.Formats.{IsBase32, ids_accepted_iff, price-IsBounded}
use cadencia_a2a_platform.Settlement.Chain.{held, Row}
use cadencia_a2a_platform.Settlement.Chain.Custody.{
  run_keeps_funds, undeployed_stays, funded_with_less,
}
use cadencia_a2a_platform.Merkle.{pad, hash_pair, pair_up, climb}

abbrev zeros : Text
zeros = codes "0000000000000000000000000000000000000000000000000000000000000000"

-- A digest, a printer and a reader that take no account of their input.
abbrev outside : Outside
outside = record { sha256 = λ s. zeros; str = λ n. codes "7"; reads_hex = λ s. true }

abbrev tx : Text
tx = codes "ABCDEFGHIJKLMNOPQRSTUVWXYZ234567ABCDEFGHIJKLMNOPQRST"

abbrev place : Text
place = codes "ABCDEFGHIJKLMNOPQRSTUVWXYZ234567ABCDEFGHIJKLMNOPQRSTUVWXYZ"

abbrev empty_desk : Desk
empty_desk = record { row = none; app = none; settlements = []; published = [] }

-- An escrow that is deployed, funded with 900,000 and released.
abbrev deployment : ℕ × ℕ × Request
deployment = (1, 1, deploy_it 7 8 [] [] (pos 900_000) 3 42 place (confirmed tx) (confirmed tx))

abbrev life : List (ℕ × ℕ × Request)
life =
    deployment
    ∷ (2, 2, fund_it (confirmed tx))
    ∷ (3, 4, release_it none (confirmed tx) (some tx))
    ∷ []

life_settles :
    (run outside life empty_desk).settlements
    ≡ record {
      escrow_id = 7;
      milestone_index = 0;
      amount = 900_000;
      tx_id = tx;
      settled_at = some 3;
    }
      ∷ []
unfolding run serve climb pair_up pad hash_pair
life_settles = refl

life_pays : held (run outside life empty_desk).app ≡ 600_000
unfolding run serve held climb pair_up pad hash_pair
life_pays = refl

run-IsLedger_example :
    IsLedger (run outside life empty_desk).row (run outside life empty_desk).settlements
run-IsLedger_example = run-IsLedger outside life empty_desk refl

-- The row of a deployment, and the account behind it.
abbrev row : Escrow
row = record {
  id = 7;
  created_at = 1;
  updated_at = 1;
  session_id = 8;
  buyer_address = [];
  seller_address = [];
  amount = 900_000;
  status = deployed;
  algo_app_id = some 42;
  algo_app_address = some place;
  deploy_tx_id = some tx;
  fund_tx_id = none;
  release_tx_id = none;
  refund_tx_id = none;
  merkle_root = none;
  frozen = false;
  settled_at = none;
}

abbrev account : App
account = record { creator_address = 3; balance = 100_000 }

abbrev row_desk : Desk
row_desk = record { row = some row; app = some account; settlements = []; published = [] }

row_desk_stands : Row (some 42) row_desk.row
unfolding Row
row_desk_stands = refl

run_keeps_funds_example :
    Row (some 42) (run outside life row_desk).row
    × (held row_desk.app ≤ held (run outside life row_desk).app)
run_keeps_funds_example = run_keeps_funds outside life row_desk (some 42) row_desk_stands refl

tx_id_lem : tx_id tx ≡ ok tx
unfolding tx_id
tx_id_lem = refl

funded_with_less_example :
    ((fund_escrow (confirmed tx) 2 row_desk).1.row
      ≡ some (record row { status = funded; fund_tx_id = some tx; updated_at = 2 }))
    × (held (fund_escrow (confirmed tx) 2 row_desk).1.app ≡ 100_000 + 500_000)
funded_with_less_example =
    funded_with_less tx 2 row_desk row account 42 place refl refl refl refl refl refl tx_id_lem
      (omega arith)

-- A deployment whose payment of the minimum balance was lost, tried again after it.
abbrev failed : ℕ × ℕ × Request
failed = (1, 1, deploy_it 7 8 [] [] (pos 900_000) 3 42 place (confirmed tx) lost)

abbrev bare : Desk
bare = record {
  row = some (record row {
    status = pending_approval;
    algo_app_id = none;
    algo_app_address = none;
    deploy_tx_id = none;
  });
  app = some (record { creator_address = 3; balance = 0 });
  settlements = [];
  published = [];
}

failed_leaves_bare : run outside (failed ∷ []) empty_desk ≡ bare
unfolding run serve
failed_leaves_bare = refl

bare-IsLedger : IsLedger bare.row bare.settlements
bare-IsLedger = ground arith

bare_stands : Row none bare.row
unfolding Row
bare_stands = refl

bare_again : (run outside (deployment ∷ []) bare).row ≡ bare.row
unfolding run serve
bare_again = refl

undeployed_stays_example : (◌≡◌ {A = Option ℕ} none none) × (on_app pending_approval ≡ false)
undeployed_stays_example =
    undeployed_stays outside (deployment ∷ []) bare
      (record row {
        status = pending_approval;
        algo_app_id = none;
        algo_app_address = none;
        deploy_tx_id = none;
      })
      bare_stands (bare-IsLedger) (refl, search) bare_again

ids_accepted_iff_example :
    (((tx_id tx ≡ ok tx) × IsBase32 52 tx) ⊎ ((tx_id tx ≡ err validation_error) × ¬ IsBase32 52 tx))
    × (((app_address tx ≡ ok tx) × IsBase32 58 tx)
        ⊎ ((app_address tx ≡ err validation_error) × ¬ IsBase32 58 tx))
ids_accepted_iff_example = ids_accepted_iff tx

price-IsBounded_example :
    (1_000 ≤ price_microalgo (some (negsuc 5)) (pos 3))
    × (price_microalgo (some (negsuc 5)) (pos 3) ≤ 999_000)
    × (escrow_amount (price_microalgo (some (negsuc 5)) (pos 3))
        ≡ ok (price_microalgo (some (negsuc 5)) (pos 3)))
price-IsBounded_example = price-IsBounded (some (negsuc 5)) (pos 3)
