-- ===== src/Settlement/Gateway.antt =====
-- What `AlgorandGateway` does on the chain (backend/src/settlement/infrastructure/algorand_gateway.py).
-- It deploys an approval program of `int 1`, which approves every application call and makes no inner
-- payment. The node is outside: each call is told how its transaction fared.
use cadencia_a2a_platform.Prelude.{ℕ, ◌+◌, Option, none, some, ltb, if◌then◌else◌}
use cadencia_a2a_platform.Prelude.Texts.{Text}

-- A transaction that did not land, one that landed while the wait for it raised, and one that was
-- confirmed, with its id.
pub data Sent : Type 0 where
  lost unconfirmed : Sent
  confirmed : (tx : Text) → Sent

-- A deployed application, by its creator and the balance of its account.
pub record App : Type 0 where
  pub creator_address : ℕ
  pub balance : ℕ

-- `MBR_AMOUNT`
abbrev pub mbr_amount : ℕ
mbr_amount = 100_000

-- What `deploy_escrow` returns; the creation's index is 0 where the node names none.
pub record Deployment : Type 0 where
  pub app_index : ℕ
  pub address : Text
  pub tx : Text

-- The creation, and then the payment of the minimum balance. The result is absent where it raised.
abbrev pub seed : Option Deployment → ℕ → Sent → Option Deployment × Option App
seed d creator lost = (none, some (record { creator_address = creator; balance = 0 }))
seed d creator unconfirmed =
    (none, some (record { creator_address = creator; balance = mbr_amount }))
seed d creator (confirmed tx) =
    (d, some (record { creator_address = creator; balance = mbr_amount }))

unfoldable pub deploy_on_chain :
    ℕ → ℕ → Text → Sent → Sent → Option App → Option Deployment × Option App
deploy_on_chain creator index address lost payment app = (none, app)
deploy_on_chain creator index address unconfirmed payment app =
    (none, some (record { creator_address = creator; balance = 0 }))
deploy_on_chain creator index address (confirmed tx) payment app =
    seed (some (record { app_index = index; address = address; tx = tx })) creator payment

-- `max(min(amount, 500_000), 1_000)`
unfoldable pub fund_amount : ℕ → ℕ
fund_amount amount =
    let capped = if ltb 500_000 amount then 500_000 else amount in
    if ltb capped 1_000 then 1_000 else capped

abbrev paid_into : ℕ → Option App → Option App
paid_into amount none = none
paid_into amount (some a) = some (record a { balance = a.balance + amount })

-- `fund_escrow`: the platform's wallet pays, whatever the funder's key.
unfoldable pub fund_on_chain : ℕ → Sent → Option App → Option Text × Option App
unfolding fund_amount
fund_on_chain amount lost app = (none, app)
fund_on_chain amount unconfirmed app = (none, paid_into (fund_amount amount) app)
fund_on_chain amount (confirmed tx) app = (some tx, paid_into (fund_amount amount) app)

-- `_send_app_noop`, behind release, refund, freeze and unfreeze
unfoldable pub send_app_noop : Sent → Option App → Option Text × Option App
send_app_noop lost app = (none, app)
send_app_noop unconfirmed app = (none, app)
send_app_noop (confirmed tx) app = (some tx, app)
