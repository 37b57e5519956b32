-- ===== src/Settlement/Defs.antt =====
-- One escrow as the settlement service sees it (backend/src/settlement/application/services.py): its row,
-- the application behind it, its settlement records, and what was published. Every call works on one
-- escrow, found by its id or its session.
use cadencia_a2a_platform.Prelude.{ℕ, Option, none, some, List, ◌∷◌, ◌++◌}
use cadencia_a2a_platform.Prelude.Texts.{Text}
use cadencia_a2a_platform.Errors.{DomainError, not_found, policy_violation, Result, ok, err}
use cadencia_a2a_platform.Escrow.{Outcome, Escrow, EscrowEvent}
use cadencia_a2a_platform.Settlement.Values.{tx_id}
use cadencia_a2a_platform.Settlement.Gateway.{App}

pub record Settlement : Type 0 where
  pub escrow_id : ℕ
  pub milestone_index : ℕ
  pub amount : ℕ
  pub tx_id : Text
  pub settled_at : Option ℕ

pub record Desk : Type 0 where
  pub row : Option Escrow
  pub app : Option App
  pub settlements : List Settlement
  pub published : List EscrowEvent

-- How a call ended: with the row that it returns, with an exception of the domain, or with one of the
-- gateway, the anchor or the Merkle service.
pub data Answer : Type 0 where
  answered : (row : Escrow) → Answer
  raised : DomainError → Answer
  broke : Answer

abbrev pub Served : Type 0
Served = Answer × Desk

-- `if escrow is None: raise NotFoundError`
abbrev pub found : Option Escrow → Desk → (Escrow → Served) → Served
found none d k = (raised not_found, d)
found (some e) d k = k e

-- `if escrow.algo_app_id is None: raise PolicyViolation`
abbrev pub deployed_app : Option ℕ → Desk → Served → Served
deployed_app none d k = (raised policy_violation, d)
deployed_app (some a) d k = k

-- A value object, or the exception of its constructor.
abbrev pub built {ℓ} : {A : Type ℓ} → Result A → Desk → (A → Served) → Served
built (err x) d k = (raised x, d)
built (ok a) d k = k a

-- The transaction id that the gateway returned, as a `TxId`.
abbrev pub signed : Option Text → Desk → (Text → Served) → Served
signed none d k = (broke, d)
signed (some tx) d k = built (tx_id tx) d k

-- The row is written and the event published, or the exception of the aggregate's method passes on.
abbrev pub recorded : Outcome → (EscrowEvent → EscrowEvent) → List Settlement → Desk → Served
recorded (err x, e) patch records d = (raised x, d)
recorded (ok event, e) patch records d = (
  answered e,
  record d {
    row = some e;
    settlements = records ++ d.settlements;
    published = patch event ∷ d.published;
  },
)

-- The row is written and nothing is published.
abbrev pub stored : Outcome → Desk → Served
stored (err x, e) d = (raised x, d)
stored (ok event, e) d = (answered e, record d { row = some e })

abbrev pub as_is : EscrowEvent → EscrowEvent
as_is event = event
