-- ===== src/Contract/Tests.antt =====
-- The contract's theorems at concrete contracts, and runs of its methods.
use cadencia_a2a_platform.Prelude.{ℕ, ◌≡◌, refl, ◌≢◌, ◌↔◌, true, none, some, List, [], ◌∷◌}
use cadencia_a2a_platform.Prelude.Texts.{codes}
use cadencia_a2a_platform.Contract.Defs.{
  initialize, execute, run, CadenciaEscrow, Payment, Chain, AppCall, call_fund, call_release,
  call_refund,
}
use cadencia_a2a_platform.Contract.Access.{Permits, accepted_iff_permitted}
use cadencia_a2a_platform.Contract.Funds.{fresh, run-IsSolvent, IsSolvent}

-- Creator 1, application 9, buyer 2, seller 3.
abbrev deployed : CadenciaEscrow
deployed = record {
  creator_address = 1;
  application_address = 9;
  buyer = 2;
  seller = 3;
  amount = 5000;
  session_id = codes "S";
  status = 0;
  frozen = 0;
}

abbrev funded : Chain
funded = record { app = record deployed { status = 1; frozen = 1 }; taken_in = 5000; paid_out = [] }

abbrev payment : ℕ → Payment
payment amount = record { receiver = 9; amount = amount; note = [] }

-- A payment short of the amount and a release by the buyer are rejected.
abbrev calls : List AppCall
calls =
    call_fund 2 (payment 4999)
    ∷ call_fund 2 (payment 5000)
    ∷ call_release 2 true (codes "ROOT")
    ∷ call_release 1 true (codes "ROOT")
    ∷ call_refund 1 true (codes "LATE")
    ∷ []

run-calls : run calls (fresh deployed) ≡ record {
  app = record deployed { status = 2 };
  taken_in = 5000;
  paid_out = record { receiver = 3; amount = 5000; note = codes "ROOT" } ∷ [];
}
unfolding run execute
run-calls = refl

initialize-deployed : initialize 1 1 9 2 3 5000 (codes "S") ≡ some deployed
unfolding initialize
initialize-deployed = refl

run-IsSolvent_example : IsSolvent (run calls (fresh deployed))
run-IsSolvent_example = run-IsSolvent calls 1 1 9 2 3 5000 (codes "S") deployed initialize-deployed

accepted_iff_permitted_example :
    (execute (call_release 1 true (codes "ROOT")) deployed ≢ none)
    ↔ Permits (call_release 1 true (codes "ROOT")) deployed
accepted_iff_permitted_example =
    accepted_iff_permitted (call_release 1 true (codes "ROOT")) deployed

abbrev finished : Chain
finished = record {
  app = record deployed { status = 3 };
  taken_in = 5000;
  paid_out = record { receiver = 2; amount = 5000; note = [] } ∷ [];
}
