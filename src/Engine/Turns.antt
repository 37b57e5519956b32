-- ===== src/Engine/Turns.antt =====
-- What a whole turn does to the session (`run_agent_turn` of
-- backend/src/negotiation/application/services.py over the neutral engine).
use cadencia_a2a_platform.Prelude.{ℕ, Bool, true, false, not, arith, if◌then◌else◌}
use cadencia_a2a_platform.Prelude.Int.{ℤ}
use cadencia_a2a_platform.Errors.{ok, err}
use cadencia_a2a_platform.Engine.Keeping.{process_turn_keeps}
use cadencia_a2a_platform.Session.{
  is_active, Offer, NegotiationSession, SessionEvent, Outcome, add_offer, mark_agreed,
  mark_walk_away, mark_stalled, escalate_to_human_review, mark_timeout, mark_policy_breach,
  record_schema_failure, record_no_concession, reset_stall_counter, is_expired,
}
use cadencia_a2a_platform.Session.Invariant.{add_offer-IsValid, IsValid}
use cadencia_a2a_platform.Engine.Guardrails.{Python}
use cadencia_a2a_platform.Engine.Defs.{Stamps}
use cadencia_a2a_platform.Engine.Service.{
  Turn, process_turn, closed, handle_stall, reasoning_of, handler_of, handle, end_turn, enter,
  after_turn, run_agent_turn, Agents, Handler, by_walk_away, by_policy_breach, by_timeout, by_stall,
  by_agreement,
}

counted-IsValid :
    (now : ℕ) (s : NegotiationSession) → IsValid s → IsValid (record_schema_failure now s).1
unfolding record_schema_failure
counted-IsValid now s h = ground arith

no_concession-IsValid :
    (now : ℕ) (s : NegotiationSession) → IsValid s → IsValid (record_no_concession now s).1
unfolding record_no_concession
no_concession-IsValid now s h = ground arith

reset-IsValid : (now : ℕ) (s : NegotiationSession) → IsValid s → IsValid (reset_stall_counter now s)
unfolding reset_stall_counter
reset-IsValid now s h = ground arith

either-IsValid :
    {A : Type 0} (b : Bool) (x y : A × NegotiationSession)
    → IsValid x.1
    → IsValid y.1
    → IsValid (if b then x else y).1
either-IsValid true x y h k = h
either-IsValid false x y h k = k

escalated-IsValid :
    (now : ℕ) (s : NegotiationSession) → IsValid s → IsValid (escalate_to_human_review now s).1
unfolding escalate_to_human_review
escalated-IsValid now s h = ground arith

process_turn-IsValid :
    (py : Python) (least : ℤ) (g : Agents) (t : Stamps) (s : NegotiationSession)
    → IsValid s
    → IsValid (process_turn py least g t s).1
process_turn-IsValid =
    process_turn_keeps IsValid counted-IsValid no_concession-IsValid reset-IsValid

closed-IsValid : {A : Type 0} (o : Offer) (r : Outcome A) → IsValid r.1 → IsValid (closed o r).1
closed-IsValid o (ok a, s) h = h
closed-IsValid o (err x, s) h = h

handle_stall-IsValid :
    (o : Offer) (t : Stamps) (r : Outcome SessionEvent)
    → IsValid r.1
    → IsValid (handle_stall o t r).1
handle_stall-IsValid o t (ok a, s) h = closed-IsValid o _ (escalated-IsValid t.ended' s h)
handle_stall-IsValid o t (err x, s) h = h

handle-IsValid :
    (by : Handler) (py : Python) (t : Stamps) (o : Offer) (s : NegotiationSession)
    → IsValid s
    → IsValid (handle by py t o s).1
unfolding handle mark_walk_away mark_policy_breach mark_timeout mark_stalled mark_agreed
handle-IsValid by_walk_away py t o s h = ground arith
handle-IsValid by_policy_breach py t o s h = ground arith
handle-IsValid by_timeout py t o s h = ground arith
handle-IsValid by_stall py t o s h =
    handle_stall-IsValid o t (mark_stalled t.ended s) (ground arith)
handle-IsValid by_agreement py t o s h = ground arith

timeout-IsValid :
    (now later : ℕ) (s : NegotiationSession) → IsValid s → IsValid (mark_timeout now later s).1
unfolding mark_timeout
timeout-IsValid now later s h = ground arith

enter-IsValid :
    (py : Python) (t : Stamps) (o : Offer) (terminal : Bool) (r : Outcome SessionEvent)
    → IsValid r.1
    → IsValid (enter py t o terminal r).1
enter-IsValid py t o terminal (err x, s) h = h
enter-IsValid py t o false (ok e, s) h = h
enter-IsValid py t o true (ok e, s) h =
    unfold end_turn in handle-IsValid (handler_of (reasoning_of o) s.stall_counter) py t o s h

after_turn-IsValid :
    (py : Python) (t : Stamps) (r : Turn) → IsValid r.1 → IsValid (after_turn py t r).1
after_turn-IsValid py t (err x, s) h = h
after_turn-IsValid py t (ok (o, terminal), s) h =
    enter-IsValid py t o terminal (add_offer o t.added t.added' s)
      (add_offer-IsValid o t.added t.added' s h)

-- A turn of an agent keeps a session valid, whatever the model, the strategy and the valuation give and
-- however the turn ends: the rounds stay counted and at most 20, and the completion time and the
-- agreed price keep to the statuses that they belong to.
pub run_agent_turn-IsValid :
    (py : Python) (least : ℤ) (g : Agents) (t : Stamps) (s : NegotiationSession)
    → IsValid s
    → IsValid (run_agent_turn py least g t s).1
unfolding run_agent_turn
run_agent_turn-IsValid py least g t s h = either-IsValid (not (is_active s.status)) _ _ h (
    either-IsValid (is_expired t.checked s) _ _ (timeout-IsValid t.ended t.ended' s h) (
      after_turn-IsValid py t (process_turn py least g t s)
        (process_turn-IsValid py least g t s h)))
