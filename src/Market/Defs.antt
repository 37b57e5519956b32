-- ===== src/Market/Defs.antt =====
-- `Match` of backend/src/marketplace/domain/match.py, and the two operations of `MarketplaceService` that
-- change matches (backend/src/marketplace/application/services.py), on the rows of one request as
-- backend/src/marketplace/infrastructure/repositories.py writes and reads them. What an operation has not
-- committed when it raises is undone.
use cadencia_a2a_platform.Prelude.{
  ℕ, ◌+◌, Bool, true, false, not, ◌&&◌, Option, none, some, List, [], ◌∷◌, ◌++◌, map, ◌==◌,
  if◌then◌else◌, length,
}
use cadencia_a2a_platform.Prelude.Int.{pos}
use cadencia_a2a_platform.Errors.{
  DomainError, not_found, conflict_error, authorization_error, Result, ok, err,
}
use cadencia_a2a_platform.Rfq.{
  Outcome, mark_parsed, mark_matched, confirm, mark_settled, mark_expired, ParsedFields, Rfq,
  BudgetRange,
}
use cadencia_a2a_platform.Rfq.Digits.{is_hsn_code}
use cadencia_a2a_platform.Prelude.Texts.{Text, codes}

pub data MatchStatus : Type 0 where
  pending selected rejected lapsed : MatchStatus

-- Scores are bit patterns of floats.
pub record Match : Type 0 where
  pub id : ℕ
  pub updated_at : ℕ
  pub seller_enterprise_id : ℕ
  pub similarity_score : ℕ
  pub rank : ℕ
  pub status : MatchStatus

abbrev pub is_pending : MatchStatus → Bool
is_pending pending = true
is_pending _ = false

unfoldable pub select : ℕ → Match → Result (Unit {0}) × Match
select now m =
    if not (is_pending m.status)
    then (err conflict_error, m)
    else (ok tt, record m { status = selected; updated_at = now })

unfoldable pub reject : ℕ → Match → Result (Unit {0}) × Match
reject now m =
    if not (is_pending m.status)
    then (err conflict_error, m)
    else (ok tt, record m { status = rejected; updated_at = now })

-- The columns of `matches`: the status is not among them.
pub record MatchRow : Type 0 where
  pub id : ℕ
  pub seller_enterprise_id : ℕ
  pub similarity_score : ℕ
  pub rank : ℕ

abbrev pub to_row : Match → MatchRow
to_row m = record {
  id = m.id;
  seller_enterprise_id = m.seller_enterprise_id;
  similarity_score = m.similarity_score;
  rank = m.rank;
}

-- `_match_model_to_domain`: every match that is read is PENDING.
abbrev pub to_match : ℕ → MatchRow → Match
to_match now r = record {
  id = r.id;
  updated_at = now;
  seller_enterprise_id = r.seller_enterprise_id;
  similarity_score = r.similarity_score;
  rank = r.rank;
  status = pending;
}

-- `update` writes the rank.
abbrev pub reranked : Match → MatchRow → MatchRow
reranked m r = if r.id == m.id then record r { rank = m.rank } else r

pub record Listing : Type 0 where
  pub rfq : Rfq
  pub matches : List MatchRow

abbrev pub valid_hsn : Option Text → Option Text
valid_hsn none = none
valid_hsn (some s) = if is_hsn_code s then some s else none

abbrev pub or_india : Text → Text
or_india [] = codes "IN"
or_india (c ∷ s) = c ∷ s

-- `_rfq_model_to_domain`: the window, the expiry and the embedding are not read, and the bounds of the
-- budget come back from floats, by `reread`.
abbrev pub read_rfq : (Option BudgetRange → Option BudgetRange) → ℕ → Rfq → Rfq
read_rfq reread now r = record r {
  updated_at = now;
  hsn_code = valid_hsn r.hsn_code;
  budget = reread r.budget;
  window = none;
  geography_pref = or_india r.geography_pref;
  expires_at = none;
  embedding = none;
}

pub data Reply : Type 0 where
  done broke : Reply
  raised : DomainError → Reply

-- `get_match_by_seller`: `scalar_one_or_none` raises where there are two.
unfoldable pub of_seller : ℕ → List MatchRow → List MatchRow
of_seller seller [] = []
of_seller seller (r ∷ rs) =
    let rest = of_seller seller rs in if r.seller_enterprise_id == seller then r ∷ rest else rest

-- The loop over `list_by_rfq` in `confirm_rfq`: every match but `chosen` that is pending is rejected and
-- updated.
abbrev pub rejecting : ℕ → ℕ → MatchRow → List MatchRow → List MatchRow
rejecting now chosen r rows =
    let m = to_match now r in
    if not (r.id == chosen) && is_pending m.status
    then map (reranked (reject now m).1) rows
    else rows

unfoldable pub reject_others : ℕ → ℕ → List MatchRow → List MatchRow → List MatchRow
unfolding reject
reject_others now chosen [] rows = rows
reject_others now chosen (r ∷ rs) rows = reject_others now chosen rs (rejecting now chosen r rows)

-- `_create_negotiation_session_sync` returns (`true`) or raises, and then nothing is committed.
abbrev pub selecting : Bool → ℕ → Rfq → Result (Unit {0}) × Match → Listing → Reply × Listing
selecting session now r (err x, m) l = (raised x, l)
selecting false now r (ok u, m) l = (broke, l)
selecting true now r (ok u, m) l = (
  done,
  record { rfq = r; matches = map (reranked m) (reject_others now m.id l.matches l.matches) },
)

abbrev pub confirming : Bool → ℕ → Outcome → Match → Listing → Reply × Listing
confirming session now (err x, r) m l = (raised x, l)
confirming session now (ok event, r) m l = selecting session now r (select now m) l

abbrev pub choosing : Bool → ℕ → List MatchRow → Listing → Reply × Listing
choosing session now [] l = (raised not_found, l)
choosing session now (r ∷ []) l = confirming session now (confirm r.id now l.rfq) (to_match now r) l
choosing session now (r ∷ t ∷ rs) l = (broke, l)

unfoldable pub confirm_rfq : Bool → ℕ → ℕ → ℕ → Listing → Reply × Listing
unfolding confirm select reject_others of_seller
confirm_rfq session now buyer seller l =
    if not (l.rfq.buyer_enterprise_id == buyer)
    then (raised authorization_error, l)
    else choosing session now (of_seller seller l.matches) l

-- What the matchmaker found, or the keyword matchmaker where that is nothing or all below 0.3.
abbrev pub all_low : (ℕ → Bool) → List (ℕ × ℕ) → Bool
all_low low [] = true
all_low low ((seller, score) ∷ rs) = low score && all_low low rs

abbrev pub or_keywords : List (ℕ × ℕ) → List (ℕ × ℕ) → List (ℕ × ℕ)
or_keywords [] found = found
or_keywords (k ∷ ks) found = k ∷ ks

unfoldable pub raw_matches : (ℕ → Bool) → List (ℕ × ℕ) → List (ℕ × ℕ) → List (ℕ × ℕ)
raw_matches low found keywords = if all_low low found then or_keywords keywords found else found

-- The new rows, or the exception of a score outside of [0, 1].
unfoldable pub new_matches : (ℕ → Bool) → (ℕ → ℕ) → ℕ → ℕ → List (ℕ × ℕ) → Option (List Match)
new_matches in_range id now rank [] = some []
new_matches in_range id now rank ((seller, score) ∷ rs) =
    let rest = new_matches in_range id now (rank + 1) rs in
    if not (in_range score) then none else elim rest [
      | none ↦ none
      | some ms ↦ some (
          record {
            id = id rank;
            updated_at = now;
            seller_enterprise_id = seller;
            similarity_score = score;
            rank = rank;
            status = pending;
          }
          ∷ ms)
    ]

abbrev pub matching : Outcome → List Match → Listing → Listing
matching (err x, r) ms l = l
matching (ok event, r) ms l = record { rfq = r; matches = l.matches ++ map to_row ms }

abbrev pub saving : ℕ → Option (List Match) → List ℕ → Listing → Listing
saving now none embedding l = l
saving now (some []) embedding l = record l { rfq = record l.rfq { embedding = some embedding } }
saving now (some (m ∷ ms)) embedding l =
    matching
      (mark_matched (pos (length (m ∷ ms))) now (record l.rfq { embedding = some embedding }))
      (m ∷ ms) l

-- What the services outside answer in the background task; absent where they raise.
pub record Answers : Type 0 where
  pub fields : Option (Option ParsedFields)
  pub embedding : Option (List ℕ)
  pub found : Option (List (ℕ × ℕ))
  pub keywords : List (ℕ × ℕ)
  pub low : ℕ → Bool
  pub in_range : ℕ → Bool
  pub id : ℕ → ℕ

abbrev pub embedded : Answers → ℕ → Option (List ℕ) → Option (List (ℕ × ℕ)) → Listing → Listing
embedded a now none found l = l
embedded a now (some e) none l = l
embedded a now (some e) (some found) l =
    saving now (new_matches a.in_range a.id now 1 (raw_matches a.low found a.keywords)) e l

abbrev pub parsing : Answers → ℕ → Outcome → Listing → Listing
parsing a now (err x, r) l = l
parsing a now (ok event, r) l = embedded a now a.embedding a.found (record l { rfq = r })

abbrev pub extracted : Answers → ℕ → Option (Option ParsedFields) → Listing → Listing
extracted a now none l = l
extracted a now (some none) l = l
extracted a now (some (some fields)) l = parsing a now (mark_parsed fields now l.rfq) l

-- `_parse_and_match_standalone`, for a request that it finds
unfoldable pub parse_and_match : Answers → ℕ → Listing → Listing
unfolding mark_parsed mark_matched raw_matches new_matches
parse_and_match a now l = extracted a now a.fields l

pub data Request : Type 0 where
  parse_it : (answers : Answers) → Request
  confirm_it : (session : Bool) (buyer seller : ℕ) → Request
  settle_it expire_it : Request

-- Each request reads the rows first.
unfoldable pub serve : (Option BudgetRange → Option BudgetRange) → ℕ → Request → Listing → Listing
unfolding parse_and_match confirm_rfq mark_settled mark_expired is_hsn_code
serve reread now q l =
    let read = record l { rfq = read_rfq reread now l.rfq } in
    elim q [
      | parse_it a ↦ parse_and_match a now read
      | confirm_it session buyer seller ↦ (confirm_rfq session now buyer seller read).1
      | settle_it ↦ record read { rfq = (mark_settled now read.rfq).1 }
      | expire_it ↦ record read { rfq = (mark_expired now read.rfq).1 }
    ]

unfoldable pub run :
    (Option BudgetRange → Option BudgetRange) → List (ℕ × Request) → Listing → Listing
unfolding serve
run reread [] l = l
run reread ((now, r) ∷ rs) l = run reread rs (serve reread now r l)
