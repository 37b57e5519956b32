-- ===== src/Contract/Funds.antt =====
-- The money of the contract over any sequence of calls, by anyone.
use cadencia_a2a_platform.Prelude.{
  ℕ, ◌+◌, ◌≤◌, ◌<◌, ◌≡◌, refl, ◌∙◌, true, some, List, [], ◌∷◌, arith, ◌==◌, if◌then◌else◌,
}
use cadencia_a2a_platform.Prelude.Texts.{Text}
use cadencia_a2a_platform.Contract.Defs.{
  initialize, execute, intake, settle, run, CadenciaEscrow, Payment, Chain, AppCall, call_fund,
  call_release, call_refund, call_freeze, call_unfreeze,
}

-- The sum of the payments to one account.
abbrev pub received : ℕ → List Payment → ℕ
received who [] = 0
received who (p ∷ ps) = if who == p.receiver then p.amount + received who ps else received who ps

abbrev pub total : List Payment → ℕ
total [] = 0
total (p ∷ ps) = p.amount + total ps

-- A new contract has taken in and paid out nothing.
abbrev pub fresh : CadenciaEscrow → Chain
fresh c = record { app = c; taken_in = 0; paid_out = [] }

-- What the status says of the money.
pub record IsSolvent (k : Chain) : Type 0 where
  pub known_status : k.app.status ≤ 3
  pub flag : k.app.frozen ≤ 1
  pub deployed_empty : k.app.status ≡ 0 → (k.taken_in ≡ 0) × (total k.paid_out ≡ 0)
  pub funded_holds : k.app.status ≡ 1 → (k.taken_in ≡ k.app.amount) × (total k.paid_out ≡ 0)
  pub released_to_seller :
      k.app.status ≡ 2
      → (k.taken_in ≡ k.app.amount)
        × (total k.paid_out ≡ k.app.amount)
        × (received k.app.seller k.paid_out ≡ k.app.amount)
  pub refunded_to_buyer :
      k.app.status ≡ 3
      → (k.taken_in ≡ k.app.amount)
        × (total k.paid_out ≡ k.app.amount)
        × (received k.app.buyer k.paid_out ≡ k.app.amount)
  pub nothing_paid : k.app.status < 2 → k.paid_out ≡ []

execute-IsSolvent :
    (call : AppCall) (k : Chain)
    → IsSolvent k
    → IsSolvent (settle k (intake call) (execute call k.app))
unfolding execute
execute-IsSolvent (call_fund sender payment) k h = ground arith
execute-IsSolvent (call_release sender paid note) k h = ground arith
execute-IsSolvent (call_refund sender paid note) k h = ground arith
execute-IsSolvent (call_freeze sender) k h = ground arith
execute-IsSolvent (call_unfreeze sender) k h = ground arith

run_from-IsSolvent : (calls : List AppCall) (k : Chain) → IsSolvent k → IsSolvent (run calls k)
unfolding run
run_from-IsSolvent [] k h = h
run_from-IsSolvent (call ∷ calls) k h =
    run_from-IsSolvent calls (settle k (intake call) (execute call k.app))
      (execute-IsSolvent call k h)

-- After any calls by anyone on a contract that was created, it has taken in its amount exactly from
-- the time it is funded on and nothing before; it has paid out nothing before it is settled, its
-- whole amount to the seller if released, and its whole amount to the buyer if refunded.
pub run-IsSolvent :
    (calls : List AppCall) (sender creator address buyer seller amount : ℕ) (session : Text)
    (c : CadenciaEscrow)
    → initialize sender creator address buyer seller amount session ≡ some c
    → IsSolvent (run calls (fresh c))
unfolding initialize
run-IsSolvent calls sender creator address buyer seller amount session c h =
    run_from-IsSolvent calls (fresh c) (ground arith)

-- The parties and the amount, which no call writes, and the order of the statuses.
abbrev Advances : CadenciaEscrow → CadenciaEscrow → Type 0
Advances c d =
    (d.creator_address ≡ c.creator_address)
    × (d.buyer ≡ c.buyer)
    × (d.seller ≡ c.seller)
    × (d.amount ≡ c.amount)
    × (c.status ≤ d.status)

execute-Advances :
    (call : AppCall) (k : Chain) → Advances k.app (settle k (intake call) (execute call k.app)).app
unfolding execute
execute-Advances (call_fund sender payment) k = ground arith
execute-Advances (call_release sender paid note) k = ground arith
execute-Advances (call_refund sender paid note) k = ground arith
execute-Advances (call_freeze sender) k = ground arith
execute-Advances (call_unfreeze sender) k = ground arith

-- No sequence of calls changes the creator, the parties or the amount, or lowers the status.
run-Advances : (calls : List AppCall) (k : Chain) → Advances k.app (run calls k).app
unfolding run
run-Advances [] k = ground arith
run-Advances (call ∷ calls) k = ground (
  arith,
  execute-Advances call k,
  run-Advances calls (settle k (intake call) (execute call k.app)),
)

execute_settled :
    (call : AppCall) (k : Chain)
    → 2 ≤ k.app.status
    → let l = settle k (intake call) (execute call k.app) in
      (l.app.status ≡ k.app.status) × (l.taken_in ≡ k.taken_in) × (l.paid_out ≡ k.paid_out)
unfolding execute
execute_settled (call_fund sender payment) k h = ground arith
execute_settled (call_release sender paid note) k h = ground arith
execute_settled (call_refund sender paid note) k h = ground arith
execute_settled (call_freeze sender) k h = ground arith
execute_settled (call_unfreeze sender) k h = ground arith

-- A released or refunded contract keeps its status for good, and takes in and pays out nothing more.
settled_contract_stays :
    (calls : List AppCall) (k : Chain)
    → 2 ≤ k.app.status
    → ((run calls k).app.status ≡ k.app.status)
      × ((run calls k).taken_in ≡ k.taken_in)
      × ((run calls k).paid_out ≡ k.paid_out)
unfolding run
settled_contract_stays [] k h = (refl, refl, refl)
settled_contract_stays (call ∷ calls) k h =
    let (s, t, p) = execute_settled call k h in
    let (s', t', p') =
      settled_contract_stays calls (settle k (intake call) (execute call k.app)) (omega arith) in
    (s' ∙ s, t' ∙ t, p' ∙ p)

-- Whatever state a funded contract is in, the creator can get the money to the seller or back to the
-- buyer with two calls, the first of which thaws the contract if need be.
funds_recoverable :
    (k : Chain) (note : Text)
    → k.app.status ≡ 1
    → k.app.frozen ≤ 1
    → let who = k.app.creator_address in
      ((run (call_unfreeze who ∷ call_release who true note ∷ []) k).app.status ≡ 2)
      × ((run (call_unfreeze who ∷ call_refund who true note ∷ []) k).app.status ≡ 3)
unfolding run execute
funds_recoverable k note s f = ground arith
