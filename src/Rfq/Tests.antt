-- ===== src/Rfq/Tests.antt =====
-- The request's theorem at a concrete draft, and a run of its methods.
use cadencia_a2a_platform.Prelude.{ℕ, ◌≡◌, refl, none, some, List, [], ◌∷◌}
use cadencia_a2a_platform.Prelude.Int.{pos}
use cadencia_a2a_platform.Prelude.Texts.{codes}
use cadencia_a2a_platform.Rfq.Defs.{
  apply, run, ParsedFields, Rfq, draft, confirmed, Command, parse, match_up, choose,
}
use cadencia_a2a_platform.Rfq.Lifecycle.{HasValidFields, draft_run-IsConsistent, IsConsistent}

abbrev request : Rfq
request = record {
  id = 1;
  created_at = 0;
  updated_at = 0;
  buyer_enterprise_id = 2;
  raw_document = none;
  parsed_fields = none;
  hsn_code = none;
  budget = none;
  window = none;
  geography_pref = codes "IN";
  status = draft;
  confirmed_match_id = none;
  expires_at = none;
  embedding = none;
}

-- A budget with its minimum above its maximum is dropped.
abbrev extracted : ParsedFields
extracted = record {
  product = codes "steel";
  hsn_code = codes "7208";
  budget_min = some (some (pos 900));
  budget_max = some (some (pos 500));
  delivery_window_start = some (some 10);
  delivery_window_end = some (some 40);
  geography = [];
}

abbrev calls : List (ℕ × Command)
calls = (1, parse extracted) ∷ (2, choose 8) ∷ (3, match_up (pos 4)) ∷ (4, choose 9) ∷ []

run-calls : run calls request ≡ record request {
  updated_at = 4;
  parsed_fields = some extracted;
  hsn_code = some (codes "7208");
  window = some (record { start_date = 10; end_date = 40 });
  status = confirmed;
  confirmed_match_id = some 9;
}
unfolding run apply
run-calls = refl

draft_run-IsConsistent_example :
    IsConsistent (run calls request) × HasValidFields (run calls request)
draft_run-IsConsistent_example = draft_run-IsConsistent calls request refl refl refl refl refl refl
