-- ===== src/Mirror.antt =====
-- The Python aggregate (backend/src/settlement/domain/escrow.py) beside the contract
-- (backend/contracts/escrow_contract.py), which it has to mirror: the two are stepped together, as
-- the settlement service does, first the chain and then the record.
mod Tests
use cadencia_a2a_platform.Prelude.{
  ℕ, ◌≡◌, sym, ◌↔◌, Bool, true, false, Option, none, some, List, [], arith,
}
use cadencia_a2a_platform.Prelude.Texts.{Text}
use cadencia_a2a_platform.Errors.{ok, err}
use cadencia_a2a_platform.Escrow.{
  Outcome, record_deployment, record_funding, record_release, record_refund, Escrow, EscrowStatus,
  deployed, funded, released, refunded, frozen_status,
}
use cadencia_a2a_platform.Contract.{
  initialize, fund, release, refund, freeze, unfreeze, CadenciaEscrow, Payment,
}
use cadencia_a2a_platform.Escrow
use cadencia_a2a_platform.Contract

-- The on-chain status code of a Python status, from DEPLOYED on; FROZEN is a funded contract.
abbrev pub status_code : Escrow.EscrowStatus → Option ℕ
status_code Escrow.deployed = some 0
status_code Escrow.funded = some 1
status_code Escrow.frozen_status = some 1
status_code Escrow.released = some 2
status_code Escrow.refunded = some 3
status_code _ = none

abbrev flag_code : Bool → ℕ
flag_code true = 1
flag_code false = 0

-- The record and the chain agree on amount, status and freeze flag, and the record says FROZEN
-- exactly while it is frozen.
pub record Mirrors (e : Escrow) (c : CadenciaEscrow) : Type 0 where
  pub same_amount : e.amount ≡ c.amount
  pub same_status : status_code e.status ≡ some c.status
  pub same_flag : c.frozen ≡ flag_code e.frozen
  pub shown : (e.frozen ≡ true) ↔ (e.status ≡ Escrow.frozen_status)

-- A Python call that succeeded and left a record that mirrors the contract `c`.
abbrev pub Follows : Escrow.Outcome → CadenciaEscrow → Type 0
Follows (ok event, e) c = Mirrors e c
Follows (err x, e) c = ⊥

module _ (e : Escrow) {c d : CadenciaEscrow} {ps : List Contract.Payment} (m : Mirrors e c) where
  pub fund-Follows :
      (payment : Contract.Payment) (tx : Text) (now : ℕ)
      → Contract.fund payment c ≡ some (d, ps)
      → Follows (Escrow.record_funding tx now e) d
  unfolding Contract.fund Escrow.record_funding
  fund-Follows payment tx now h = ground arith

  pub release-Follows :
      (sender : ℕ) (paid : Bool) (tx root : Text) (now later : ℕ)
      → Contract.release sender paid root c ≡ some (d, ps)
      → Follows (Escrow.record_release tx root now later e) d
  unfolding Contract.release Escrow.record_release
  release-Follows sender paid tx root now later h = ground arith

  pub refund-Follows :
      (sender : ℕ) (paid : Bool) (reason tx : Text) (now later : ℕ)
      → Contract.refund sender paid reason c ≡ some (d, ps)
      → Follows (Escrow.record_refund tx now later e) d
  unfolding Contract.refund Escrow.record_refund
  refund-Follows sender paid reason tx now later h = ground arith

  pub freeze-Follows :
      (sender now : ℕ)
      → e.status ≡ Escrow.funded
      → Contract.freeze sender c ≡ some (d, ps)
      → Follows (Escrow.freeze now e) d
  unfolding Contract.freeze Escrow.freeze
  freeze-Follows sender now s h = ground arith

  pub freeze_is_timely :
      (sender now : ℕ)
      → Contract.freeze sender c ≡ some (d, ps)
      → Follows (Escrow.freeze now e) d
      → e.status ≡ Escrow.funded
  unfolding Contract.freeze Escrow.freeze
  freeze_is_timely sender now h k = ground arith

  pub unfreeze-Follows :
      (sender now : ℕ)
      → Contract.unfreeze sender c ≡ some (d, ps)
      → Follows (Escrow.unfreeze now e) d
  unfolding Contract.unfreeze Escrow.unfreeze
  unfreeze-Follows sender now h = ground arith

-- One event of the joint life: a call that the chain accepts and the Python method called for it, with
-- its outcome.
pub data Move (e : Escrow) (c : CadenciaEscrow) (o : Escrow.Outcome) (d : CadenciaEscrow)
    : Type 0 where
  funds :
      (payment : Contract.Payment) (tx : Text) (now : ℕ) (ps : List Contract.Payment)
      → Contract.fund payment c ≡ some (d, ps)
      → o ≡ Escrow.record_funding tx now e
      → Move e c o d
  releases :
      (sender : ℕ) (paid : Bool) (tx root : Text) (now later : ℕ) (ps : List Contract.Payment)
      → Contract.release sender paid root c ≡ some (d, ps)
      → o ≡ Escrow.record_release tx root now later e
      → Move e c o d
  refunds :
      (sender : ℕ) (paid : Bool) (reason tx : Text) (now later : ℕ) (ps : List Contract.Payment)
      → Contract.refund sender paid reason c ≡ some (d, ps)
      → o ≡ Escrow.record_refund tx now later e
      → Move e c o d
  freezes :
      (sender now : ℕ) (ps : List Contract.Payment)
      → Contract.freeze sender c ≡ some (d, ps)
      → o ≡ Escrow.freeze now e
      → Move e c o d
  unfreezes :
      (sender now : ℕ) (ps : List Contract.Payment)
      → Contract.unfreeze sender c ≡ some (d, ps)
      → o ≡ Escrow.unfreeze now e
      → Move e c o d

-- The chain accepts a freeze in any status, the record mirrors one only while its status is FUNDED: not
-- before the funding, not of a frozen escrow, and not after the settlement.
abbrev pub IsTimely :
    (e : Escrow) (c : CadenciaEscrow) (o : Escrow.Outcome) (d : CadenciaEscrow)
    → Move e c o d
    → Type 0
IsTimely e c o d (freezes sender now ps h q) = e.status ≡ Escrow.funded
IsTimely e c o d v = Unit

pub data Reach (e : Escrow) (c : CadenciaEscrow) : Escrow → CadenciaEscrow → Type 0 where
  here : Reach e c e c
  next :
      {f : Escrow} {d : CadenciaEscrow} (o : Escrow.Outcome) {b : CadenciaEscrow}
      → Reach e c f d
      → (v : Move f d o b) → IsTimely f d o b v
      → Reach e c o.1 b

Follows→Mirrors : (o : Escrow.Outcome) (d : CadenciaEscrow) → Follows o d → Mirrors o.1 d
Follows→Mirrors (ok event, e) d h = h
Follows→Mirrors (err x, e) d h = absurd h

recorded_if_timely :
    (e : Escrow) (c d : CadenciaEscrow) (o : Escrow.Outcome)
    → Mirrors e c
    → (v : Move e c o d) → IsTimely e c o d v
    → Follows o d
recorded_if_timely e c d o m (funds payment tx now ps h q) t =
    rw q (fund-Follows e m payment tx now h)
recorded_if_timely e c d o m (releases sender paid tx root now later ps h q) t =
    rw q (release-Follows e m sender paid tx root now later h)
recorded_if_timely e c d o m (refunds sender paid reason tx now later ps h q) t =
    rw q (refund-Follows e m sender paid reason tx now later h)
recorded_if_timely e c d o m (freezes sender now ps h q) t =
    rw q (freeze-Follows e m sender now t h)
recorded_if_timely e c d o m (unfreezes sender now ps h q) t =
    rw q (unfreeze-Follows e m sender now h)

-- From a record that mirrors its contract, a call that the chain accepts is recorded without an
-- exception and with the record mirroring the contract after it, exactly if it is not a freeze or the
-- record's status is FUNDED: a freeze before the funding, of a frozen escrow or after the settlement,
-- which the chain accepts as well, breaks the mirror or raises.
pub accepted_is_recorded :
    (e : Escrow) (c d : CadenciaEscrow) (o : Escrow.Outcome)
    → Mirrors e c
    → (v : Move e c o d) → Follows o d ↔ IsTimely e c o d v
accepted_is_recorded e c d o m (freezes sender now ps h q) = (
  λ k. freeze_is_timely e m sender now h (rw (sym q) k),
  recorded_if_timely e c d o m (freezes sender now ps h q),
)
accepted_is_recorded e c d o m (funds payment tx now ps h q) =
    (λ k. tt, recorded_if_timely e c d o m (funds payment tx now ps h q))
accepted_is_recorded e c d o m (releases sender paid tx root now later ps h q) =
    (λ k. tt, recorded_if_timely e c d o m (releases sender paid tx root now later ps h q))
accepted_is_recorded e c d o m (refunds sender paid reason tx now later ps h q) =
    (λ k. tt, recorded_if_timely e c d o m (refunds sender paid reason tx now later ps h q))
accepted_is_recorded e c d o m (unfreezes sender now ps h q) =
    (λ k. tt, recorded_if_timely e c d o m (unfreezes sender now ps h q))

-- From a record that mirrors its contract, any sequence of accepted calls, each followed by its
-- record, leads to a record that mirrors the contract, where every freeze among them is made while the
-- record's status is FUNDED, so not before the funding, of a frozen escrow or after the settlement.
pub Reach-Mirrors :
    {e : Escrow} {c : CadenciaEscrow} {f : Escrow} {d : CadenciaEscrow}
    → Mirrors e c
    → Reach e c f d
    → Mirrors f d
Reach-Mirrors m here = m
Reach-Mirrors m (next {f} {d} o {b} r v t) =
    Follows→Mirrors o b (recorded_if_timely f d b o (Reach-Mirrors m r) v t)

-- Recording the deployment of a contract that was created with the escrow's amount makes the record
-- mirror it, for an escrow that is not frozen and has no application yet.
deployment-Mirrors :
    (e : Escrow) (c : CadenciaEscrow) (sender creator address buyer seller now app : ℕ)
    (session place tx : Text)
    → e.frozen ≡ false
    → e.algo_app_id ≡ none
    → Contract.initialize sender creator address buyer seller e.amount session ≡ some c
    → Follows (Escrow.record_deployment app place tx now e) c
unfolding Contract.initialize Escrow.record_deployment
deployment-Mirrors e c sender creator address buyer seller now app session place tx z n h =
    ground arith

-- A freeze and an unfreeze before the funding break the mirror: the record says FUNDED while the
-- contract stays DEPLOYED, and the record then accepts a release that the contract rejects.
thaw_breaks_mirror :
    (e : Escrow) (c : CadenciaEscrow) (t₀ t₁ t₂ t₃ : ℕ) (tx root : Text)
    → Mirrors e c
    → e.status ≡ Escrow.deployed
    → let thawed = (Escrow.unfreeze t₁ (Escrow.freeze t₀ e).1).1 in
      (d : CadenciaEscrow) × (f : CadenciaEscrow) × (Contract.freeze c.buyer c ≡ some (d, []))
      × (Contract.unfreeze c.creator_address d ≡ some (f, []))
      × (f.status ≡ 0)
      × (thawed.status ≡ Escrow.funded)
      × ((Escrow.record_release tx root t₂ t₃ thawed).1.status ≡ Escrow.released)
      × ((sender : ℕ) (paid : Bool) → Contract.release sender paid root f ≡ none)
unfolding Contract.freeze Contract.unfreeze Contract.release Escrow.freeze Escrow.unfreeze
    Escrow.record_release
thaw_breaks_mirror e c t₀ t₁ t₂ t₃ tx root m s = (
  record c { frozen = 1 },
  record c { frozen = 0 },
  ground arith,
  ground arith,
  ground arith,
  ground arith,
  ground arith,
  λ sender paid. ground arith,
)

-- A frozen escrow that mirrors its contract can be refunded in the record, while the contract rejects
-- every refund.
frozen_refund_diverges :
    (e : Escrow) (c : CadenciaEscrow) (now later : ℕ) (tx : Text)
    → Mirrors e c
    → e.frozen ≡ true
    → ((Escrow.record_refund tx now later e).1.status ≡ Escrow.refunded)
      × ((sender : ℕ) (paid : Bool) (reason : Text) → Contract.refund sender paid reason c ≡ none)
unfolding Escrow.record_refund Contract.refund
frozen_refund_diverges e c now later tx m z = (ground arith, λ sender paid reason. ground arith)
