-- ===== src/Session/Diagram.antt =====
-- The transition diagram of the session's statuses, and the ways through it
-- (backend/src/negotiation/domain/session.py).
use cadencia_a2a_platform.Prelude.{
  ℕ, ◌≤◌, ◌<◌, ◌≡◌, ◌≢◌, ◌⊎◌, false, none, some, List, [], ◌∷◌, arith, length,
}
use cadencia_a2a_platform.Errors.{DomainError}
use cadencia_a2a_platform.Prelude.Texts.{Text}
use cadencia_a2a_platform.Session.Defs.{
  max_rounds, is_terminal, OfferValue, Offer, buyer, seller, NegotiationSession, SessionStatus,
  init, buyer_anchor, seller_response, round_loop, agreed, walk_away, stalled, timeout,
  policy_breach, active, failed, expired, human_review,
}
use cadencia_a2a_platform.Session.Commands.{
  apply, Call, run, Command, Ending, do_activate, do_offer, do_agree, do_walk_away, do_fail,
  do_stall, do_escalate, do_resume, do_timeout, do_expire, do_breach, do_schema_failure,
  do_no_concession, do_reset_stall,
}

-- The statuses that `_ACTIVE_STATES` lists.
pub data Accepts : SessionStatus → Type 0 where
  at_init : Accepts init
  at_anchor : Accepts buyer_anchor
  at_response : Accepts seller_response
  at_loop : Accepts round_loop
  at_active : Accepts active

-- The statuses before an end.
pub data IsOpen : SessionStatus → Type 0 where
  accepting : {s : SessionStatus} → Accepts s → IsOpen s
  at_stalled : IsOpen stalled
  at_review : IsOpen human_review

-- Which calls take the session from one status to another, where they are not refused, by the diagram.
-- An offer moves on by who makes it and by how many there are; the counters move nothing.
pub data Edge : Command → NegotiationSession → SessionStatus → Type 0 where
  open_init : {s : NegotiationSession} → s.status ≡ init → Edge do_activate s buyer_anchor
  open_active : {s : NegotiationSession} → s.status ≡ active → Edge do_activate s buyer_anchor
  anchor :
      {s : NegotiationSession} {o : Offer}
      → s.status ≡ buyer_anchor
      → o.proposer_role ≡ buyer
      → Edge (do_offer o) s seller_response
  respond :
      {s : NegotiationSession} {o : Offer}
      → s.status ≡ seller_response
      → o.proposer_role ≡ seller
      → Edge (do_offer o) s round_loop
  catch_up :
      {s : NegotiationSession} {o : Offer}
      → s.status ≡ active
      → length s.offers ≡ 0
      → Edge (do_offer o) s seller_response
  rejoin :
      {s : NegotiationSession} {o : Offer}
      → s.status ≡ active
      → 1 ≤ length s.offers
      → Edge (do_offer o) s round_loop
  agree :
      {s : NegotiationSession} {price : OfferValue} {terms : Text}
      → Accepts s.status
      → Edge (do_agree price terms) s agreed
  quit :
      {s : NegotiationSession} {reason : Text}
      → Accepts s.status
      → Edge (do_walk_away reason) s walk_away
  quit_review :
      {s : NegotiationSession} {reason : Text}
      → s.status ≡ human_review
      → Edge (do_walk_away reason) s walk_away
  fail :
      {s : NegotiationSession} {reason : Text} → Accepts s.status → Edge (do_fail reason) s failed
  fail_review :
      {s : NegotiationSession} {reason : Text}
      → s.status ≡ human_review
      → Edge (do_fail reason) s failed
  stall : {s : NegotiationSession} → Accepts s.status → Edge do_stall s stalled
  escalate :
      {s : NegotiationSession}
      → Accepts s.status
      → s.status ≢ init
      → Edge do_escalate s human_review
  escalate_stall : {s : NegotiationSession} → s.status ≡ stalled → Edge do_escalate s human_review
  resume :
      {s : NegotiationSession}
      → s.status ≡ human_review
      → 2 ≤ length s.offers
      → Edge do_resume s round_loop
  resume_early :
      {s : NegotiationSession}
      → s.status ≡ human_review
      → length s.offers < 2
      → Edge do_resume s active
  time_out : {s : NegotiationSession} → IsOpen s.status → Edge do_timeout s timeout
  expire : {s : NegotiationSession} → IsOpen s.status → Edge do_expire s expired
  breach :
      {s : NegotiationSession} {reason : Text}
      → IsOpen s.status
      → Edge (do_breach reason) s policy_breach

pub data IsCounter : Command → Type 0 where
  schema_failure : IsCounter do_schema_failure
  no_concession : IsCounter do_no_concession
  reset_stall : IsCounter do_reset_stall

-- The statuses at an end.
pub data IsOver : SessionStatus → Type 0 where
  is_agreed : IsOver agreed
  has_walked : IsOver walk_away
  has_timed_out : IsOver timeout
  is_breached : IsOver policy_breach
  has_failed : IsOver failed
  has_expired : IsOver expired

-- Why a call is refused: by the status, and an offer also by the rounds or by its session.
pub data Bars : Command → NegotiationSession → Type 0 where
  bar_activate : {s : NegotiationSession} → s.status ≢ init → s.status ≢ active → Bars do_activate s
  bar_offer :
      {s : NegotiationSession} {o : Offer}
      → IsOver s.status ⊎ (s.status ≡ stalled)
      → Bars (do_offer o) s
  bar_round :
      {s : NegotiationSession} {o : Offer} → max_rounds ≤ s.round_count → Bars (do_offer o) s
  bar_foreign : {s : NegotiationSession} {o : Offer} → o.session_id ≢ s.id → Bars (do_offer o) s
  bar_agree :
      {s : NegotiationSession} {price : OfferValue} {terms : Text}
      → IsOver s.status ⊎ ((s.status ≡ stalled) ⊎ (s.status ≡ human_review))
      → Bars (do_agree price terms) s
  bar_quit :
      {s : NegotiationSession} {reason : Text}
      → IsOver s.status ⊎ (s.status ≡ stalled)
      → Bars (do_walk_away reason) s
  bar_fail :
      {s : NegotiationSession} {reason : Text}
      → IsOver s.status ⊎ (s.status ≡ stalled)
      → Bars (do_fail reason) s
  bar_stall :
      {s : NegotiationSession}
      → IsOver s.status ⊎ ((s.status ≡ stalled) ⊎ (s.status ≡ human_review))
      → Bars do_stall s
  bar_escalate :
      {s : NegotiationSession}
      → IsOver s.status ⊎ ((s.status ≡ init) ⊎ (s.status ≡ human_review))
      → Bars do_escalate s
  bar_resume : {s : NegotiationSession} → s.status ≢ human_review → Bars do_resume s
  bar_timeout : {s : NegotiationSession} → IsOver s.status → Bars do_timeout s
  bar_expire : {s : NegotiationSession} → IsOver s.status → Bars do_expire s
  bar_breach :
      {s : NegotiationSession} {reason : Text} → IsOver s.status → Bars (do_breach reason) s

-- One call: it follows an edge, or it counts, or it is an offer that leaves the status, or it is barred,
-- raises, and leaves the session as it is.
pub data Step : Command → NegotiationSession → Ending → Type 0 where
  moves : {c : Command} {s t : NegotiationSession} → Edge c s t.status → Step c s (none, t)
  counts :
      {c : Command} {s t : NegotiationSession}
      → IsCounter c
      → t.status ≡ s.status
      → Step c s (none, t)
  waits :
      {o : Offer} {s t : NegotiationSession}
      → (Accepts s.status) ⊎ (s.status ≡ human_review)
      → t.status ≡ s.status
      → Step (do_offer o) s (none, t)
  refuses :
      {c : Command} {s : NegotiationSession} {x : DomainError} → Bars c s → Step c s (some x, s)

-- Such steps for a sequence of calls, from one session to another.
pub data Trace : List Call → NegotiationSession → NegotiationSession → Type 0 where
  done : {s : NegotiationSession} → Trace [] s s
  then :
      {now later : ℕ} {c : Command} {cs : List Call} {s u : NegotiationSession} {e : Ending}
      → Step c s e
      → Trace cs e.1 u
      → Trace ((now, later, c) ∷ cs) s u

ruleset statuses =
    (at_init, at_anchor, at_response, at_loop, at_active, accepting, at_stalled, at_review)

ruleset edges = (
  open_init, open_active, anchor, respond, catch_up, rejoin, agree, quit, quit_review, fail,
  fail_review, stall, escalate, escalate_stall, resume, resume_early, time_out, expire, breach,
)

ruleset bars = (
  bar_activate, bar_offer, bar_round, bar_foreign, bar_agree, bar_quit, bar_fail, bar_stall,
  bar_escalate, bar_resume, bar_timeout, bar_expire, bar_breach, is_agreed, has_walked,
  has_timed_out, is_breached, has_failed, has_expired,
)

ruleset steps = (moves, counts, waits, refuses, schema_failure, no_concession, reset_stall)

-- A chain of calls that ends in an agreement: escalate if stalled, then resume if under review.
pub way_to_agreed : ℕ → SessionStatus → OfferValue → Text → List Call
way_to_agreed now stalled price terms =
    (now, now, do_escalate) ∷ (now, now, do_resume) ∷ (now, now, do_agree price terms) ∷ []
way_to_agreed now human_review price terms =
    (now, now, do_resume) ∷ (now, now, do_agree price terms) ∷ []
way_to_agreed now status price terms = (now, now, do_agree price terms) ∷ []

-- From every status that is not terminal some calls lead to AGREED at the given price: agreement at
-- once in the active statuses, even with no offer made, after an escalation and a resumption if the
-- session is stalled, and after a resumption if it is under review.
open_reaches_agreed :
    (s : NegotiationSession) (price : OfferValue) (terms : Text) (now : ℕ)
    → is_terminal s.status ≡ false
    → let r = run (way_to_agreed now s.status price terms) s in
      (r.status ≡ agreed) × (r.agreed_price ≡ some price) × (r.offers ≡ s.offers)
unfolding run apply way_to_agreed
open_reaches_agreed s price terms now h = ground arith
