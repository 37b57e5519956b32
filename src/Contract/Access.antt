-- ===== src/Contract/Access.antt =====
-- Who may do what on the contract, and when.
use cadencia_a2a_platform.Prelude.{◌≡◌, ◌≢◌, ◌↔◌, ◌⊎◌, true, none, arith}
use cadencia_a2a_platform.Contract.Defs.{
  execute, CadenciaEscrow, AppCall, call_fund, call_release, call_refund, call_freeze,
  call_unfreeze,
}

-- What an accepted call shows of its sender and of the state it found.
abbrev pub Permits : AppCall → CadenciaEscrow → Type 0
Permits (call_fund sender payment) c =
    (c.status ≡ 0)
    × (c.frozen ≡ 0)
    × (payment.receiver ≡ c.application_address)
    × (payment.amount ≡ c.amount)
Permits (call_release sender paid note) c =
    (sender ≡ c.creator_address) × (c.status ≡ 1) × (c.frozen ≡ 0) × (paid ≡ true)
Permits (call_refund sender paid note) c =
    (sender ≡ c.creator_address) × (c.status ≡ 1) × (c.frozen ≡ 0) × (paid ≡ true)
Permits (call_freeze sender) c =
    (sender ≡ c.buyer) ⊎ ((sender ≡ c.seller) ⊎ (sender ≡ c.creator_address))
Permits (call_unfreeze sender) c = (sender ≡ c.creator_address) × (c.frozen ≡ 1)

-- A call is accepted exactly if its guard holds: funding needs an unfrozen deployed contract and a
-- payment of the exact amount to it; release and refund need the creator, a funded unfrozen contract
-- and the inner payment to succeed; buyer, seller and creator may freeze; only the creator may
-- unfreeze, and only what is frozen.
pub accepted_iff_permitted :
    (call : AppCall) (c : CadenciaEscrow) → (execute call c ≢ none) ↔ Permits call c
unfolding execute
accepted_iff_permitted (call_fund sender payment) c = (λ h. ground arith, λ h. ground arith)
accepted_iff_permitted (call_release sender paid note) c = (λ h. ground arith, λ h. ground arith)
accepted_iff_permitted (call_refund sender paid note) c = (λ h. ground arith, λ h. ground arith)
accepted_iff_permitted (call_freeze sender) c = (λ h. ground arith, λ h. ground arith)
accepted_iff_permitted (call_unfreeze sender) c = (λ h. ground arith, λ h. ground arith)
