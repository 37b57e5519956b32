-- ===== src/Engine/Override.antt =====
-- `Offer.create_human_offer` (backend/src/negotiation/domain/offer.py), and
-- `NegotiationService.apply_human_override` and `terminate_session` on a session that was found
-- (backend/src/negotiation/application/services.py).
use cadencia_a2a_platform.Prelude.{ℕ, ◌+◌, true, not, Option, none, some, if◌then◌else◌}
use cadencia_a2a_platform.Prelude.Int.{pos_part, leb_ℤ, ℤ, pos}
use cadencia_a2a_platform.Prelude.Texts.{Text, codes}
use cadencia_a2a_platform.Errors.{validation_error, conflict_error, Result, ok, err}
use cadencia_a2a_platform.Session.{
  is_active, Offer, NegotiationSession, SessionStatus, stalled, human_review, ProposerRole, buyer,
  Currency, SessionEvent, Outcome, add_offer, mark_failed, resume_from_human_review,
}
use cadencia_a2a_platform.Engine.Service.{closed}

-- A currency that is not a valid one is `none`.
unfoldable pub create_human_offer :
    ℕ → ℕ → ℕ → ProposerRole → ℤ → Option Currency → Text → Result Offer
create_human_offer id session round role price none terms = err validation_error
create_human_offer id session round role price (some currency) terms =
    if leb_ℤ price (pos 0)
    then err validation_error
    else ok (record {
      id = id;
      session_id = session;
      round_number = round;
      proposer_role = role;
      price = record { amount = pos_part price; currency = currency };
      terms = terms;
      confidence = none;
      agent_reasoning = some (codes "HUMAN_OVERRIDE");
      is_human_override = true;
    })

pub record HumanOverride : Type 0 where
  pub offer_id : ℕ
  pub price : ℤ
  pub currency : Option Currency
  pub terms : Text

-- What comes before the offer, by the status: the session resumes, or has to be active.
abbrev pub resumed : SessionStatus → ℕ → NegotiationSession → Outcome (Unit {0})
resumed human_review now s = resume_from_human_review now s
resumed stalled now s = resume_from_human_review now s
resumed status now s = if not (is_active status) then (err conflict_error, s) else (ok tt, s)

abbrev pub submitted : ℕ → ℕ → Result Offer → NegotiationSession → Result Offer × NegotiationSession
submitted now later (err x) s = (err x, s)
submitted now later (ok o) s = closed o (add_offer o now later s)

abbrev pub overridden :
    HumanOverride → ℕ → ℕ → Outcome (Unit {0}) → Result Offer × NegotiationSession
overridden cmd now later (err x, s) = (err x, s)
overridden cmd now later (ok u, s) =
    submitted now later
      (create_human_offer cmd.offer_id s.id (s.round_count + 1) buyer cmd.price cmd.currency
        cmd.terms)
      s

unfoldable pub apply_human_override :
    HumanOverride → ℕ → ℕ → ℕ → NegotiationSession → Result Offer × NegotiationSession
unfolding resume_from_human_review create_human_offer add_offer
apply_human_override cmd before now later s = overridden cmd now later (resumed s.status before s)

unfoldable pub terminate_session : Text → ℕ → ℕ → NegotiationSession → Outcome SessionEvent
unfolding mark_failed
terminate_session reason now later s = mark_failed reason now later s
