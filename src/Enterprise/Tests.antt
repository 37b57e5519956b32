-- ===== src/Enterprise/Tests.antt =====
-- The enterprise's theorems at a concrete enterprise.
use cadencia_a2a_platform.Prelude.{ℕ, ◌≤◌, ◌≡◌, refl, true, none, some, List, [], ◌∷◌, arith}
use cadencia_a2a_platform.Prelude.Int.{pos}
use cadencia_a2a_platform.Prelude.Texts.{codes}
use cadencia_a2a_platform.Errors.{validation_error, err}
use cadencia_a2a_platform.Enterprise.Defs.{
  rank, update_agent_config, apply, run, Enterprise, AgentConfig, pending, verified, both, Command,
  submit, verify, make_active,
}
use cadencia_a2a_platform.Enterprise.Lifecycle.{refused_config_writes_bounds}

abbrev company : Enterprise
company = record {
  id = 1;
  created_at = 0;
  updated_at = 0;
  legal_name = codes "ACME";
  pan = codes "ABCDE1234F";
  gstin = codes "27ABCDE1234F1Z5";
  kyc_status = pending;
  trade_role = both;
  algorand_wallet = none;
  industry_vertical = none;
  geography = codes "IN";
  min_order_value = none;
  max_order_value = none;
  commodities = [];
  listing_active = true;
  kyc_documents = none;
  agent_config = none;
}

-- The activation before the verification raises.
abbrev steps : List (ℕ × Command)
steps = (1, submit (codes "{}")) ∷ (2, make_active) ∷ (3, verify) ∷ []

run-steps :
    run steps company
    ≡ record company { kyc_status = verified; kyc_documents = some (codes "{}"); updated_at = 3 }
unfolding run apply
run-steps = refl

verified_reached : 2 ≤ rank (run steps company).kyc_status
unfolding run apply
verified_reached = omega arith

abbrev config : AgentConfig
config = record {
  min_order_value = some (pos 9);
  max_order_value = some (pos 3);
  industry_vertical = none;
  commodities = none;
  geography = some (codes "EU");
}

refused_config_writes_bounds_example : update_agent_config config 5 company ≡ (
  err validation_error,
  record company { min_order_value = some (pos 9); max_order_value = some (pos 3) },
)
refused_config_writes_bounds_example =
    refused_config_writes_bounds config 5 company (pos 9) (pos 3) refl refl (λ h. omega arith)
