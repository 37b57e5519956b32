-- ===== src/Market/Choosing.antt =====
-- The match that a request is confirmed with, and the task that parses and matches
-- (backend/src/marketplace/application/services.py).
use cadencia_a2a_platform.Prelude.{
  ℕ, ◌≡◌, refl, ◌⊎◌, Bool, true, false, Option, none, some, List, [], ◌∷◌, arith, length,
}
use cadencia_a2a_platform.Errors.{ok, err}
use cadencia_a2a_platform.Market.Defs.{
  raw_matches, new_matches, matching, saving, embedded, parsing, extracted, Match, MatchRow,
  Listing, Answers,
}
use cadencia_a2a_platform.Rfq.{
  Outcome, mark_parsed, mark_matched, ParsedFields, Rfq, RfqStatus, confirmed, settled,
}
use cadencia_a2a_platform.Prelude.Int.{ℤ, pos}

abbrev pub is_final : RfqStatus → Bool
is_final confirmed = true
is_final settled = true
is_final _ = false

abbrev pub HasMatch : Option ℕ → List MatchRow → Type 0
HasMatch c [] = ⊥
HasMatch c (r ∷ rs) = (some r.id ≡ c) ⊎ HasMatch c rs

-- A request that is confirmed names one of its matches.
abbrev pub IsDecided : Listing → Type 0
IsDecided l = is_final l.rfq.status ≡ true → HasMatch l.rfq.confirmed_match_id l.matches

-- Still confirmed or settled, with the same choice, and with the same matches in the same order.
abbrev pub Keeps : Listing → Listing → Type 0
Keeps l k =
    (is_final k.rfq.status ≡ true)
    × (k.rfq.confirmed_match_id ≡ l.rfq.confirmed_match_id)
    × (k.matches ≡ l.matches)

pub open-IsDecided : (l : Listing) → is_final l.rfq.status ≡ false → IsDecided l
open-IsDecided l h = λ e. absurd (cc (h, e))

-- An outcome that accepts only a request that is not confirmed, and leaves it so.
abbrev Reopens : RfqStatus → Outcome → Type 0
Reopens s (err x, r) = Unit
Reopens s (ok event, r) = (is_final s ≡ false) × (is_final r.status ≡ false)

parsed-Reopens :
    (fields : ParsedFields) (now : ℕ) (r : Rfq) → Reopens r.status (mark_parsed fields now r)
unfolding mark_parsed
parsed-Reopens fields now r = ground arith

matched-Reopens : (n : ℤ) (now : ℕ) (r : Rfq) → Reopens r.status (mark_matched n now r)
unfolding mark_matched
matched-Reopens n now r = ground arith

matching-IsDecided :
    (o : Outcome) (ms : List Match) (l : Listing)
    → Reopens l.rfq.status o
    → IsDecided l
    → IsDecided (matching o ms l)
matching-IsDecided (err x, r) ms l p h = h
matching-IsDecided (ok event, r) ms l p h = λ e. absurd (cc (p.1, e))

saving-IsDecided :
    (now : ℕ) (o : Option (List Match)) (e : List ℕ) (l : Listing)
    → is_final l.rfq.status ≡ false
    → IsDecided (saving now o e l)
saving-IsDecided now none e l p = open-IsDecided l p
saving-IsDecided now (some []) e l p = λ q. absurd (cc (p, q))
saving-IsDecided now (some (m ∷ ms)) e l p =
    matching-IsDecided
      (mark_matched (pos (length (m ∷ ms))) now (record l.rfq { embedding = some e })) (m ∷ ms) l
      (matched-Reopens (pos (length (m ∷ ms))) now (record l.rfq { embedding = some e }))
      (open-IsDecided l p)

embedded-IsDecided :
    (a : Answers) (now : ℕ) (e : Option (List ℕ)) (found : Option (List (ℕ × ℕ))) (l : Listing)
    → is_final l.rfq.status ≡ false
    → IsDecided (embedded a now e found l)
embedded-IsDecided a now none found l p = open-IsDecided l p
embedded-IsDecided a now (some e) none l p = open-IsDecided l p
embedded-IsDecided a now (some e) (some found) l p =
    saving-IsDecided now (new_matches a.in_range a.id now 1 (raw_matches a.low found a.keywords)) e
      l p

parsing-IsDecided :
    (a : Answers) (now : ℕ) (o : Outcome) (l : Listing)
    → Reopens l.rfq.status o
    → IsDecided l
    → IsDecided (parsing a now o l)
parsing-IsDecided a now (err x, r) l p h = h
parsing-IsDecided a now (ok event, r) l p h =
    embedded-IsDecided a now a.embedding a.found (record l { rfq = r }) p.1

pub extracted-IsDecided :
    (a : Answers) (now : ℕ) (f : Option (Option ParsedFields)) (l : Listing)
    → IsDecided l
    → IsDecided (extracted a now f l)
extracted-IsDecided a now none l h = h
extracted-IsDecided a now (some none) l h = h
extracted-IsDecided a now (some (some fields)) l h =
    parsing-IsDecided a now (mark_parsed fields now l.rfq) l (parsed-Reopens fields now l.rfq) h

parsing-Keeps :
    (a : Answers) (now : ℕ) (o : Outcome) (l : Listing)
    → Reopens l.rfq.status o
    → is_final l.rfq.status ≡ true
    → Keeps l (parsing a now o l)
parsing-Keeps a now (err x, r) l p h = (h, refl, refl)
parsing-Keeps a now (ok event, r) l p h = absurd (cc (p.0, h))

pub extracted-Keeps :
    (a : Answers) (now : ℕ) (f : Option (Option ParsedFields)) (l : Listing)
    → is_final l.rfq.status ≡ true
    → Keeps l (extracted a now f l)
extracted-Keeps a now none l h = (h, refl, refl)
extracted-Keeps a now (some none) l h = (h, refl, refl)
extracted-Keeps a now (some (some fields)) l h =
    parsing-Keeps a now (mark_parsed fields now l.rfq) l (parsed-Reopens fields now l.rfq) h
