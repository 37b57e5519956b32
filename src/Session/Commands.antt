-- ===== src/Session/Commands.antt =====
-- The calls that a session can receive, as data, and sequences of them: what
-- backend/src/negotiation/application/services.py and the neutral engine make of a session.
use cadencia_a2a_platform.Prelude.{ℕ, Option, none, some, List, [], ◌∷◌}
use cadencia_a2a_platform.Prelude.Texts.{Text}
use cadencia_a2a_platform.Errors.{DomainError, Result, ok, err}
use cadencia_a2a_platform.Session.Defs.{OfferValue, Offer, NegotiationSession}
use cadencia_a2a_platform.Session.Methods.{
  activate, add_offer, mark_agreed, mark_walk_away, mark_failed, mark_stalled,
  escalate_to_human_review, resume_from_human_review, mark_timeout, mark_expired,
  mark_policy_breach, record_schema_failure, record_no_concession, reset_stall_counter,
}

pub data Command : Type 0 where
  do_activate : Command
  do_offer : (offer : Offer) → Command
  do_agree : (price : OfferValue) (terms : Text) → Command
  do_walk_away : (reason : Text) → Command
  do_fail : (reason : Text) → Command
  do_stall do_escalate do_resume do_timeout do_expire : Command
  do_breach : (reason : Text) → Command
  do_schema_failure do_no_concession do_reset_stall : Command

-- How a call ended, and the session as it is left.
abbrev pub Ending : Type 0
Ending = Option DomainError × NegotiationSession

abbrev ending {ℓ} : {A : Type ℓ} → Result A × NegotiationSession → Ending
ending (ok a, s) = (none, s)
ending (err x, s) = (some x, s)

unfoldable pub apply : ℕ → ℕ → Command → NegotiationSession → Ending
unfolding activate add_offer mark_agreed mark_walk_away mark_failed mark_stalled
    escalate_to_human_review resume_from_human_review mark_timeout mark_expired mark_policy_breach
    record_schema_failure record_no_concession reset_stall_counter
apply now later do_activate s = ending (activate now s)
apply now later (do_offer offer) s = ending (add_offer offer now later s)
apply now later (do_agree price terms) s = ending (mark_agreed price terms now later s)
apply now later (do_walk_away reason) s = ending (mark_walk_away reason now later s)
apply now later (do_fail reason) s = ending (mark_failed reason now later s)
apply now later do_stall s = ending (mark_stalled now s)
apply now later do_escalate s = ending (escalate_to_human_review now s)
apply now later do_resume s = ending (resume_from_human_review now s)
apply now later do_timeout s = ending (mark_timeout now later s)
apply now later do_expire s = ending (mark_expired now later s)
apply now later (do_breach reason) s = ending (mark_policy_breach reason now later s)
apply now later do_schema_failure s = (none, (record_schema_failure now s).1)
apply now later do_no_concession s = (none, (record_no_concession now s).1)
apply now later do_reset_stall s = (none, reset_stall_counter now s)

abbrev pub Call : Type 0
Call = ℕ × ℕ × Command

unfoldable pub run : List Call → NegotiationSession → NegotiationSession
run [] s = s
run ((now, later, c) ∷ cs) s = run cs (apply now later c s).1
