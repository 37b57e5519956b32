-- ===== src/Market/Tests.antt =====
-- The theorem on the matches at a concrete request.
use cadencia_a2a_platform.Prelude.{
  Option, map, ℕ, ◌+◌, ◌≡◌, refl, true, false, none, some, List, [], ◌∷◌, ltb,
}
use cadencia_a2a_platform.Prelude.Texts.{codes}
use cadencia_a2a_platform.Rfq.{BudgetRange, ParsedFields, Rfq, draft}
use cadencia_a2a_platform.Market.Defs.{
  serve, run, Listing, Answers, Request, parse_it, confirm_it, settle_it, expire_it, to_match,
  pending,
}
use cadencia_a2a_platform.Market.Choosing.{is_final, HasMatch, Keeps}
use cadencia_a2a_platform.Market.Confirming.{decided_once}

abbrev request : Rfq
request = record {
  id = 1;
  created_at = 0;
  updated_at = 0;
  buyer_enterprise_id = 2;
  raw_document = none;
  parsed_fields = none;
  hsn_code = none;
  budget = none;
  window = none;
  geography_pref = codes "IN";
  status = draft;
  confirmed_match_id = none;
  expires_at = none;
  embedding = none;
}

abbrev fields : ParsedFields
fields = record {
  product = codes "steel";
  hsn_code = codes "7208";
  budget_min = none;
  budget_max = none;
  delivery_window_start = none;
  delivery_window_end = none;
  geography = [];
}

-- Two sellers are found, and the buyer confirms the second.
abbrev answers : Answers
answers = record {
  fields = some (some fields);
  embedding = some [];
  found = some ((5, 9) ∷ (6, 8) ∷ []);
  keywords = [];
  low = λ score. ltb score 3;
  in_range = λ score. ltb score 11;
  id = λ rank. 100 + rank;
}

abbrev requests : List (ℕ × Request)
requests =
    (1, parse_it answers)
    ∷ (2, confirm_it false 2 6)
    ∷ (3, confirm_it true 2 6)
    ∷ (4, confirm_it true 2 5)
    ∷ []

abbrev listing : Listing
listing = record { rfq = request; matches = [] }

-- The bounds of the budget come back as they were written.
abbrev exactly : Option BudgetRange → Option BudgetRange
exactly budget = budget

second_chosen : (run exactly requests listing).rfq.confirmed_match_id ≡ some 102
unfolding run serve
second_chosen = refl

-- The chosen match was selected, but is read again as PENDING.
read_pending :
    map (to_match 5) (run exactly requests listing).matches
    ≡ record {
      id = 101;
      updated_at = 5;
      seller_enterprise_id = 5;
      similarity_score = 9;
      rank = 1;
      status = pending;
    }
      ∷ record {
        id = 102;
        updated_at = 5;
        seller_enterprise_id = 6;
        similarity_score = 8;
        rank = 2;
        status = pending;
      }
      ∷ []
unfolding run serve
read_pending = refl

abbrev afterwards : List (ℕ × Request)
afterwards = (6, settle_it) ∷ (7, confirm_it true 2 5) ∷ (8, expire_it) ∷ (9, parse_it answers) ∷ []

confirmed_then : is_final (run exactly requests listing).rfq.status ≡ true
unfolding run serve
confirmed_then = refl

decided_once_example :
    HasMatch
      (run exactly requests listing).rfq.confirmed_match_id
      (run exactly requests listing).matches
    × Keeps (run exactly requests listing) (run exactly afterwards (run exactly requests listing))
decided_once_example = decided_once exactly requests afterwards listing refl confirmed_then
