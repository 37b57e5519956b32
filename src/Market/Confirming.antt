-- ===== src/Market/Confirming.antt =====
-- A request and its matches over any operations (backend/src/marketplace/application/services.py).
use cadencia_a2a_platform.Prelude.{
  ℕ, ◌≡◌, refl, sym, ap, ◌∙◌, inl, inr, Bool, true, false, Option, some, List, [], ◌∷◌, map, arith,
  ◌==◌, Bool-cases,
}
use cadencia_a2a_platform.Errors.{Result, ok, err}
use cadencia_a2a_platform.Market.Defs.{
  select, reject, to_match, reranked, read_rfq, of_seller, rejecting, reject_others, selecting,
  confirming, choosing, confirm_rfq, parse_and_match, serve, run, Match, MatchRow, Listing, Request,
  parse_it, confirm_it, settle_it, expire_it,
}
use cadencia_a2a_platform.Rfq.{
  Outcome, confirm, mark_settled, mark_expired, BudgetRange, Rfq, RfqStatus,
}
use cadencia_a2a_platform.Market.Choosing.{
  is_final, HasMatch, IsDecided, Keeps, open-IsDecided, extracted-IsDecided, extracted-Keeps,
}

of_seller-HasMatch :
    (seller : ℕ) (m : MatchRow) (rs ts : List MatchRow)
    → of_seller seller rs ≡ m ∷ ts
    → HasMatch (some m.id) rs
unfolding of_seller
of_seller-HasMatch seller m [] ts h = absurd (cc)
of_seller-HasMatch seller m (x ∷ rs) ts h = elim (Bool-cases (x.seller_enterprise_id == seller)) [
  | inl e ↦ inl (cc (rw e at h))
  | inr e ↦ inr (of_seller-HasMatch seller m rs ts (rw e at h))
]

reranked_id : (m : Match) (r : MatchRow) → (reranked m r).id ≡ r.id
reranked_id m r = ground arith

reranked-HasMatch :
    (c : Option ℕ) (m : Match) (rs : List MatchRow)
    → HasMatch c rs
    → HasMatch c (map (reranked m) rs)
reranked-HasMatch c m [] h = h
reranked-HasMatch c m (r ∷ rs) (inl e) = inl (ap some (reranked_id m r) ∙ e)
reranked-HasMatch c m (r ∷ rs) (inr e) = inr (reranked-HasMatch c m rs e)

rejecting-HasMatch :
    (c : Option ℕ) (now k : ℕ) (r : MatchRow) (rows : List MatchRow)
    → HasMatch c rows
    → HasMatch c (rejecting now k r rows)
rejecting-HasMatch c now k r rows h = elim (Bool-cases (r.id == k)) [
  | inl e ↦ rw e h
  | inr e ↦ rw e (reranked-HasMatch c (reject now (to_match now r)).1 rows h)
]

others-HasMatch :
    (c : Option ℕ) (now k : ℕ) (rs rows : List MatchRow)
    → HasMatch c rows
    → HasMatch c (reject_others now k rs rows)
unfolding reject_others
others-HasMatch c now k [] rows h = h
others-HasMatch c now k (r ∷ rs) rows h =
    others-HasMatch c now k rs (rejecting now k r rows) (rejecting-HasMatch c now k r rows h)

-- `confirm` accepts only a request that is not confirmed, and confirms it with the match.
abbrev Confirms : ℕ → RfqStatus → Outcome → Type 0
Confirms k s (err x, r) = Unit
Confirms k s (ok event, r) = (is_final s ≡ false) × (r.confirmed_match_id ≡ some k)

confirm-Confirms : (k now : ℕ) (r : Rfq) → Confirms k r.status (confirm k now r)
unfolding confirm
confirm-Confirms k now r = ground arith

selecting-IsDecided :
    (session : Bool) (now k : ℕ) (r : Rfq) (o : Result (Unit {0}) × Match) (l : Listing)
    → r.confirmed_match_id ≡ some k
    → HasMatch (some k) l.matches
    → IsDecided l
    → IsDecided (selecting session now r o l).1
selecting-IsDecided session now k r (err x, m) l c p h = h
selecting-IsDecided false now k r (ok u, m) l c p h = h
selecting-IsDecided true now k r (ok u, m) l c p h = λ e. rw c (
    reranked-HasMatch (some k) m (reject_others now m.id l.matches l.matches)
      (others-HasMatch (some k) now m.id l.matches l.matches p))

confirming-IsDecided :
    (session : Bool) (now k : ℕ) (o : Outcome) (m : Match) (l : Listing)
    → Confirms k l.rfq.status o
    → HasMatch (some k) l.matches
    → IsDecided l
    → IsDecided (confirming session now o m l).1
confirming-IsDecided session now k (err x, r) m l c p h = h
confirming-IsDecided session now k (ok event, r) m l c p h =
    selecting-IsDecided session now k r (select now m) l c.1 p h

choosing-IsDecided :
    (session : Bool) (now seller : ℕ) (rs : List MatchRow) (l : Listing)
    → of_seller seller l.matches ≡ rs
    → IsDecided l
    → IsDecided (choosing session now rs l).1
choosing-IsDecided session now seller [] l e h = h
choosing-IsDecided session now seller (r ∷ []) l e h =
    confirming-IsDecided session now r.id (confirm r.id now l.rfq) (to_match now r) l
      (confirm-Confirms r.id now l.rfq) (of_seller-HasMatch seller r l.matches [] e) h
choosing-IsDecided session now seller (r ∷ t ∷ rs) l e h = h

confirming-Keeps :
    (session : Bool) (now k : ℕ) (o : Outcome) (m : Match) (l : Listing)
    → Confirms k l.rfq.status o
    → is_final l.rfq.status ≡ true
    → Keeps l (confirming session now o m l).1
confirming-Keeps session now k (err x, r) m l c h = (h, refl, refl)
confirming-Keeps session now k (ok event, r) m l c h = absurd (cc (c.0, h))

choosing-Keeps :
    (session : Bool) (now : ℕ) (rs : List MatchRow) (l : Listing)
    → is_final l.rfq.status ≡ true
    → Keeps l (choosing session now rs l).1
choosing-Keeps session now [] l h = (h, refl, refl)
choosing-Keeps session now (r ∷ []) l h =
    confirming-Keeps session now r.id (confirm r.id now l.rfq) (to_match now r) l
      (confirm-Confirms r.id now l.rfq) h
choosing-Keeps session now (r ∷ t ∷ rs) l h = (h, refl, refl)

confirm_rfq-IsDecided :
    (session : Bool) (now buyer seller : ℕ) (l : Listing)
    → IsDecided l
    → IsDecided (confirm_rfq session now buyer seller l).1
unfolding confirm_rfq
confirm_rfq-IsDecided session now buyer seller l h =
    elim (Bool-cases (l.rfq.buyer_enterprise_id == buyer)) [
      | inl e ↦ rw e (choosing-IsDecided session now seller (of_seller seller l.matches) l refl h)
      | inr e ↦ rw e h
    ]

confirm_rfq-Keeps :
    (session : Bool) (now buyer seller : ℕ) (l : Listing)
    → is_final l.rfq.status ≡ true
    → Keeps l (confirm_rfq session now buyer seller l).1
unfolding confirm_rfq
confirm_rfq-Keeps session now buyer seller l h =
    elim (Bool-cases (l.rfq.buyer_enterprise_id == buyer)) [
      | inl e ↦ rw e (choosing-Keeps session now (of_seller seller l.matches) l h)
      | inr e ↦ rw e (h, refl, refl)
    ]

-- Settling keeps the decision, expiring is of a request that is not confirmed.
settled_status :
    (now : ℕ) (r : Rfq)
    → (is_final (mark_settled now r).1.status ≡ is_final r.status)
      × ((mark_settled now r).1.confirmed_match_id ≡ r.confirmed_match_id)
unfolding mark_settled
settled_status now r = ground arith

expired_status :
    (now : ℕ) (r : Rfq)
    → (is_final (mark_expired now r).1.status ≡ is_final r.status)
      × ((mark_expired now r).1.confirmed_match_id ≡ r.confirmed_match_id)
unfolding mark_expired
expired_status now r = ground arith

restated-IsDecided :
    (l : Listing) (r : Rfq)
    → is_final r.status ≡ is_final l.rfq.status
    → r.confirmed_match_id ≡ l.rfq.confirmed_match_id
    → IsDecided l
    → IsDecided (record l { rfq = r })
restated-IsDecided l r p q h = λ e. rw q (h (sym p ∙ e))

serve-IsDecided :
    (reread : Option BudgetRange → Option BudgetRange) (now : ℕ) (q : Request) (l : Listing)
    → IsDecided l
    → IsDecided (serve reread now q l)
unfolding serve
serve-IsDecided reread now (parse_it a) l h =
    unfold parse_and_match in
    extracted-IsDecided a now a.fields (record l { rfq = read_rfq reread now l.rfq }) h
serve-IsDecided reread now (confirm_it session buyer seller) l h =
    confirm_rfq-IsDecided session now buyer seller (record l { rfq = read_rfq reread now l.rfq }) h
serve-IsDecided reread now settle_it l h =
    let s = settled_status now (read_rfq reread now l.rfq) in
    restated-IsDecided l (mark_settled now (read_rfq reread now l.rfq)).1 s.0 s.1 h
serve-IsDecided reread now expire_it l h =
    let s = expired_status now (read_rfq reread now l.rfq) in
    restated-IsDecided l (mark_expired now (read_rfq reread now l.rfq)).1 s.0 s.1 h

serve-Keeps :
    (reread : Option BudgetRange → Option BudgetRange) (now : ℕ) (q : Request) (l : Listing)
    → is_final l.rfq.status ≡ true
    → Keeps l (serve reread now q l)
unfolding serve
serve-Keeps reread now (parse_it a) l h =
    unfold parse_and_match in
    extracted-Keeps a now a.fields (record l { rfq = read_rfq reread now l.rfq }) h
serve-Keeps reread now (confirm_it session buyer seller) l h =
    confirm_rfq-Keeps session now buyer seller (record l { rfq = read_rfq reread now l.rfq }) h
serve-Keeps reread now settle_it l h =
    let s = settled_status now (read_rfq reread now l.rfq) in (s.0 ∙ h, s.1, refl)
serve-Keeps reread now expire_it l h =
    let s = expired_status now (read_rfq reread now l.rfq) in (s.0 ∙ h, s.1, refl)

run-IsDecided :
    (reread : Option BudgetRange → Option BudgetRange) (qs : List (ℕ × Request)) (l : Listing)
    → IsDecided l
    → IsDecided (run reread qs l)
unfolding run
run-IsDecided reread [] l h = h
run-IsDecided reread ((now, q) ∷ qs) l h =
    run-IsDecided reread qs (serve reread now q l) (serve-IsDecided reread now q l h)

run-Keeps :
    (reread : Option BudgetRange → Option BudgetRange) (qs : List (ℕ × Request)) (l : Listing)
    → is_final l.rfq.status ≡ true
    → Keeps l (run reread qs l)
unfolding run
run-Keeps reread [] l h = (h, refl, refl)
run-Keeps reread ((now, q) ∷ qs) l h =
    let first = serve-Keeps reread now q l h in
    let rest = run-Keeps reread qs (serve reread now q l) first.0 in
    (rest.0, rest.1 ∙ first.1, rest.2 ∙ first.2)

-- From a request that is not confirmed, whatever is asked of it and its matches, in any order, with any
-- answers of the services outside and where any of them may raise: once it is confirmed, it names one of
-- its matches, and whatever is asked from then on, it stays confirmed or settled with that match and with
-- the same rows of matches.
pub decided_once :
    (reread : Option BudgetRange → Option BudgetRange) (before after : List (ℕ × Request))
    (l : Listing)
    → is_final l.rfq.status ≡ false
    → is_final (run reread before l).rfq.status ≡ true
    → HasMatch (run reread before l).rfq.confirmed_match_id (run reread before l).matches
      × Keeps (run reread before l) (run reread after (run reread before l))
decided_once reread before after l p q = (
  run-IsDecided reread before l (open-IsDecided l p) q,
  run-Keeps reread after (run reread before l) q,
)
