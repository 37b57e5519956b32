-- ===== src/Session/Methods.antt =====
-- The methods of `NegotiationSession` that change it, backend/src/negotiation/domain/session.py. Each
-- takes the clock readings that it makes, and gives its result or the exception that it raises, with
-- the session as it is left.
use cadencia_a2a_platform.Prelude.{
  ℕ, ◌+◌, Bool, true, false, not, ◌&&◌, some, [], ◌∷◌, ◌++◌, leb, ◌==◌, if◌then◌else◌, length,
}
use cadencia_a2a_platform.Prelude.Texts.{Text, codes}
use cadencia_a2a_platform.Errors.{conflict_error, Result, ok, err}
use cadencia_a2a_platform.Session.Defs.{
  max_rounds, stall_rounds, max_schema_failures, is_active, is_terminal, is_human_review,
  OfferValue, Offer, NegotiationSession, SessionStatus, init, buyer_anchor, seller_response,
  round_loop, agreed, walk_away, stalled, timeout, policy_breach, active, failed, expired,
  human_review, ProposerRole, buyer, seller, SessionEvent, session_created, offer_submitted,
  session_agreed, session_failed, session_escalated, session_expired,
}

-- What a call gives: its value or exception, and the session as it is left.
abbrev pub Outcome : Type 0 → Type 0
Outcome A = Result A × NegotiationSession

abbrev can_activate : SessionStatus → Bool
can_activate init = true
can_activate active = true
can_activate _ = false

unfoldable pub activate : ℕ → NegotiationSession → Outcome SessionEvent
activate now s = if not (can_activate s.status) then (err conflict_error, s) else (
  ok (session_created s.id s.rfq_id s.match_id s.buyer_enterprise_id s.seller_enterprise_id),
  record s { status = buyer_anchor; updated_at = now },
)

-- The status after an offer by `role`, with `n` offers in the session.
abbrev next_status : SessionStatus → ProposerRole → ℕ → SessionStatus
next_status buyer_anchor buyer n = seller_response
next_status seller_response seller n = round_loop
next_status active role n =
    if leb 2 n
    then round_loop
    else if n == 0
    then buyer_anchor
    else if n == 1
    then seller_response
    else active
next_status status role n = status

unfoldable pub transition : Offer → ℕ → NegotiationSession → SessionStatus × NegotiationSession
transition offer now s =
    let status' = next_status s.status offer.proposer_role (length s.offers) in
    (status', record s { status = status'; updated_at = now })

unfoldable pub add_offer : Offer → ℕ → ℕ → NegotiationSession → Outcome SessionEvent
unfolding transition
add_offer offer now later s =
    if not (is_active s.status) && not (is_human_review s.status)
    then (err conflict_error, s)
    else if leb max_rounds s.round_count
    then (err conflict_error, s)
    else if not (offer.session_id == s.id)
    then (err conflict_error, s)
    else (let longer = record s {
      offers = s.offers ++ (offer ∷ []);
      round_count = s.round_count + 1;
    } in
        let advanced = (transition offer now longer).1 in
        (
          ok (
              offer_submitted s.id offer.id advanced.round_count offer.proposer_role
                offer.price.amount offer.is_human_override),
          record advanced { updated_at = later },
        ))

unfoldable pub mark_agreed : OfferValue → Text → ℕ → ℕ → NegotiationSession → Outcome SessionEvent
mark_agreed price terms now later s =
    if not (is_active s.status) then (err conflict_error, s) else (
      ok (
          session_agreed s.id s.rfq_id s.match_id s.buyer_enterprise_id s.seller_enterprise_id price
            terms),
      record s {
        status = agreed;
        agreed_price = some price;
        agreed_terms = some terms;
        completed_at = some now;
        updated_at = later;
      },
    )

-- f"WALK_AWAY: {reason}"
abbrev walk_away_prefix : Text
walk_away_prefix = codes "WALK_AWAY: "

unfoldable pub mark_walk_away : Text → ℕ → ℕ → NegotiationSession → Outcome SessionEvent
mark_walk_away reason now later s =
    if not (is_active s.status) && not (is_human_review s.status)
    then (err conflict_error, s)
    else (
      ok (session_failed s.id (walk_away_prefix ++ reason) s.round_count),
      record s { status = walk_away; completed_at = some now; updated_at = later },
    )

unfoldable pub mark_failed : Text → ℕ → ℕ → NegotiationSession → Outcome SessionEvent
mark_failed reason now later s =
    if not (is_active s.status) && not (is_human_review s.status)
    then (err conflict_error, s)
    else (
      ok (session_failed s.id reason s.round_count),
      record s { status = failed; completed_at = some now; updated_at = later },
    )

unfoldable pub mark_stalled : ℕ → NegotiationSession → Outcome SessionEvent
mark_stalled now s = if not (is_active s.status) then (err conflict_error, s) else (
  ok (session_escalated s.id s.round_count),
  record s { status = stalled; updated_at = now },
)

abbrev can_escalate : SessionStatus → Bool
can_escalate stalled = true
can_escalate active = true
can_escalate round_loop = true
can_escalate buyer_anchor = true
can_escalate seller_response = true
can_escalate _ = false

unfoldable pub escalate_to_human_review : ℕ → NegotiationSession → Outcome SessionEvent
escalate_to_human_review now s = if not (can_escalate s.status) then (err conflict_error, s) else (
  ok (session_escalated s.id s.round_count),
  record s { status = human_review; updated_at = now },
)

unfoldable pub resume_from_human_review : ℕ → NegotiationSession → Outcome (Unit {0})
resume_from_human_review now s =
    if not (is_human_review s.status) then (err conflict_error, s) else (
      ok tt,
      record s {
        status = if leb 2 (length s.offers) then round_loop else active;
        updated_at = now;
      },
    )

unfoldable pub mark_timeout : ℕ → ℕ → NegotiationSession → Outcome SessionEvent
mark_timeout now later s = if is_terminal s.status then (err conflict_error, s) else (
  ok (session_expired s.id),
  record s { status = timeout; completed_at = some now; updated_at = later },
)

unfoldable pub mark_expired : ℕ → ℕ → NegotiationSession → Outcome SessionEvent
mark_expired now later s = if is_terminal s.status then (err conflict_error, s) else (
  ok (session_expired s.id),
  record s { status = expired; completed_at = some now; updated_at = later },
)

-- f"POLICY_BREACH: {reason}"
abbrev policy_breach_prefix : Text
policy_breach_prefix = codes "POLICY_BREACH: "

unfoldable pub mark_policy_breach : Text → ℕ → ℕ → NegotiationSession → Outcome SessionEvent
mark_policy_breach reason now later s = if is_terminal s.status then (err conflict_error, s) else (
  ok (session_failed s.id (policy_breach_prefix ++ reason) s.round_count),
  record s { status = policy_breach; completed_at = some now; updated_at = later },
)

-- The counters return whether their limit is reached.
unfoldable pub record_schema_failure : ℕ → NegotiationSession → Bool × NegotiationSession
record_schema_failure now s = (
  leb max_schema_failures (s.schema_failure_count + 1),
  record s { schema_failure_count = s.schema_failure_count + 1; updated_at = now },
)

unfoldable pub record_no_concession : ℕ → NegotiationSession → Bool × NegotiationSession
record_no_concession now s = (
  leb stall_rounds (s.stall_counter + 1),
  record s { stall_counter = s.stall_counter + 1; updated_at = now },
)

unfoldable pub reset_stall_counter : ℕ → NegotiationSession → NegotiationSession
reset_stall_counter now s = record s { stall_counter = 0; updated_at = now }
