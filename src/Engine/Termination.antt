-- ===== src/Engine/Termination.antt =====
-- How many turns the agents of a session can take (`run_agent_turn` of
-- backend/src/negotiation/application/services.py).
use cadencia_a2a_platform.Prelude.{
  ℕ, ◌+◌, ◌≤◌, ◌≡◌, refl, Bool, true, false, not, List, [], ◌∷◌, arith, if◌then◌else◌,
}
use cadencia_a2a_platform.Prelude.Int.{ℤ}
use cadencia_a2a_platform.Errors.{Result, ok, err}
use cadencia_a2a_platform.Engine.Turns.{run_agent_turn-IsValid}
use cadencia_a2a_platform.Session.Invariant.{IsValid}
use cadencia_a2a_platform.Engine.Keeping.{process_turn_keeps}
use cadencia_a2a_platform.Session.{
  max_rounds, is_active, Offer, NegotiationSession, SessionEvent, Outcome, add_offer, mark_agreed,
  mark_walk_away, mark_stalled, escalate_to_human_review, mark_timeout, mark_policy_breach,
  record_schema_failure, record_no_concession, reset_stall_counter, is_expired,
}
use cadencia_a2a_platform.Engine.Guardrails.{Python}
use cadencia_a2a_platform.Engine.Defs.{Stamps}
use cadencia_a2a_platform.Engine.Service.{
  Turn, process_turn, closed, handle_stall, reasoning_of, handler_of, handle, end_turn, enter,
  after_turn, run_agent_turn, Agents, Handler, by_walk_away, by_policy_breach, by_timeout, by_stall,
  by_agreement,
}

-- How a turn counts: one that gives an offer adds a round, one that raises takes none away.
abbrev Counts : ℕ → Result Offer × NegotiationSession → Type 0
Counts n (ok o, s) = s.round_count ≡ n + 1
Counts n (err x, s) = n ≤ s.round_count

counted_rounds :
    (n now : ℕ) (s : NegotiationSession)
    → s.round_count ≡ n
    → (record_schema_failure now s).1.round_count ≡ n
unfolding record_schema_failure
counted_rounds n now s h = ground arith

process_turn_rounds :
    (py : Python) (least : ℤ) (g : Agents) (t : Stamps) (s : NegotiationSession)
    → (process_turn py least g t s).1.round_count ≡ s.round_count
unfolding record_no_concession reset_stall_counter
process_turn_rounds py least g t s =
    process_turn_keeps (λ s'. s'.round_count ≡ s.round_count) (counted_rounds s.round_count)
      (λ now s' h. h) (λ now s' h. h) py least g t s refl

closed-Counts :
    (n : ℕ) (o : Offer) (r : Outcome SessionEvent) → r.1.round_count ≡ n + 1 → Counts n (closed o r)
closed-Counts n o (ok a, s) h = h
closed-Counts n o (err x, s) h = omega (arith, h)

handle_stall-Counts :
    (n : ℕ) (o : Offer) (t : Stamps) (r : Outcome SessionEvent)
    → r.1.round_count ≡ n + 1
    → Counts n (handle_stall o t r)
unfolding escalate_to_human_review
handle_stall-Counts n o t (ok a, s) h = ground arith
handle_stall-Counts n o t (err x, s) h = omega (arith, h)

handle-Counts :
    (n : ℕ) (by : Handler) (py : Python) (t : Stamps) (o : Offer) (s : NegotiationSession)
    → s.round_count ≡ n + 1
    → Counts n (handle by py t o s)
unfolding handle mark_walk_away mark_policy_breach mark_timeout mark_stalled mark_agreed
handle-Counts n by_walk_away py t o s h = ground arith
handle-Counts n by_policy_breach py t o s h = ground arith
handle-Counts n by_timeout py t o s h = ground arith
handle-Counts n by_stall py t o s h =
    handle_stall-Counts n o t (mark_stalled t.ended s) (ground arith)
handle-Counts n by_agreement py t o s h = ground arith

-- What `add_offer` does to the rounds, by whether it raises.
abbrev Added : ℕ → Outcome SessionEvent → Type 0
Added n (ok e, s) = s.round_count ≡ n + 1
Added n (err x, s) = s.round_count ≡ n

add_offer-Added :
    (o : Offer) (now later : ℕ) (s : NegotiationSession)
    → Added s.round_count (add_offer o now later s)
unfolding add_offer
add_offer-Added o now later s = ground arith

enter-Counts :
    (n : ℕ) (py : Python) (t : Stamps) (o : Offer) (terminal : Bool) (r : Outcome SessionEvent)
    → Added n r
    → Counts n (enter py t o terminal r)
enter-Counts n py t o terminal (err x, s) h = omega (arith, h)
enter-Counts n py t o false (ok e, s) h = h
enter-Counts n py t o true (ok e, s) h =
    unfold end_turn in handle-Counts n (handler_of (reasoning_of o) s.stall_counter) py t o s h

after_turn-Counts :
    (n : ℕ) (py : Python) (t : Stamps) (r : Turn)
    → r.1.round_count ≡ n
    → Counts n (after_turn py t r)
after_turn-Counts n py t (err x, s) h = omega (arith, h)
after_turn-Counts n py t (ok (o, terminal), s) h =
    enter-Counts n py t o terminal (add_offer o t.added t.added' s)
      (ground (arith, h, add_offer-Added o t.added t.added' s))

either-Counts :
    (n : ℕ) (b : Bool) (x y : Result Offer × NegotiationSession)
    → Counts n x
    → Counts n y
    → Counts n (if b then x else y)
either-Counts n true x y h k = h
either-Counts n false x y h k = k

timeout_rounds :
    (now later : ℕ) (s : NegotiationSession)
    → (mark_timeout now later s).1.round_count ≡ s.round_count
unfolding mark_timeout
timeout_rounds now later s = ground arith

run_agent_turn-Counts :
    (py : Python) (least : ℤ) (g : Agents) (t : Stamps) (s : NegotiationSession)
    → Counts s.round_count (run_agent_turn py least g t s)
unfolding run_agent_turn
run_agent_turn-Counts py least g t s =
    either-Counts s.round_count (not (is_active s.status)) _ _ (omega arith) (
      either-Counts s.round_count (is_expired t.checked s) _ _
        (omega (arith, timeout_rounds t.ended t.ended' s))
        (after_turn-Counts s.round_count py t (process_turn py least g t s)
          (process_turn_rounds py least g t s)))

-- One for a turn that gave an offer.
abbrev pub taken : Result Offer → ℕ
taken (ok o) = 1
taken (err x) = 0

-- How many of the turns that are tried one after another give an offer.
unfoldable pub turns_taken : Python → ℤ → List (Agents × Stamps) → NegotiationSession → ℕ
turns_taken py least [] s = 0
turns_taken py least ((g, t) ∷ ts) s =
    let (r, s') = run_agent_turn py least g t s in taken r + turns_taken py least ts s'

budget :
    (n m k : ℕ) (r : Result Offer × NegotiationSession)
    → Counts n r
    → k + r.1.round_count ≤ m
    → (taken r.0 + k) + n ≤ m
budget n m k (ok o, s) h p = omega (arith, h, p)
budget n m k (err x, s) h p = omega (arith, h, p)

-- However often and in whatever order turns of the agents are tried on a valid session, and whatever the
-- models answer, at most 20 less the rounds that are counted give an offer.
pub turns-IsBounded :
    (py : Python) (least : ℤ) (ts : List (Agents × Stamps)) (s : NegotiationSession)
    → IsValid s
    → turns_taken py least ts s + s.round_count ≤ max_rounds
unfolding turns_taken
turns-IsBounded py least [] s h = ground arith
turns-IsBounded py least ((g, t) ∷ ts) s h =
    let s' = (run_agent_turn py least g t s).1 in
    budget s.round_count max_rounds (turns_taken py least ts s') (run_agent_turn py least g t s)
      (run_agent_turn-Counts py least g t s)
      (turns-IsBounded py least ts s' (run_agent_turn-IsValid py least g t s h))
