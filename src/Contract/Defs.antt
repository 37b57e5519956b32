-- ===== src/Contract/Defs.antt =====
-- The global state and the ABI methods of `CadenciaEscrow`, backend/contracts/escrow_contract.py.
-- Accounts are numbers, byte strings are texts. The AVM's verdict on the inner payment
-- (`itxn.Payment(…).submit()`) is an argument, `paid`: it can fail for want of balance.
use cadencia_a2a_platform.Prelude.{
  ℕ, ◌+◌, Bool, ◌&&◌, ◌||◌, Option, none, some, List, [], ◌∷◌, ◌++◌, ◌==◌, if◌then◌else◌,
}
use cadencia_a2a_platform.Prelude.Texts.{Text}

pub record CadenciaEscrow : Type 0 where
  pub creator_address : ℕ
  pub application_address : ℕ
  pub buyer : ℕ
  pub seller : ℕ
  pub amount : ℕ
  pub session_id : Text
  pub status : ℕ  -- 0 deployed, 1 funded, 2 released, 3 refunded
  pub frozen : ℕ

-- A payment transaction: the one in the group of `fund`, or an inner one.
pub record Payment : Type 0 where
  pub receiver : ℕ
  pub amount : ℕ
  pub note : Text

-- `none`: the group is rejected. Otherwise the new state, and the inner payments made.
abbrev pub Verdict : Type 0
Verdict = Option (CadenciaEscrow × List Payment)

-- `sender`, `creator` and `address` are those of the CREATE transaction.
unfoldable pub initialize : ℕ → ℕ → ℕ → ℕ → ℕ → ℕ → Text → Option CadenciaEscrow
initialize sender creator address buyer seller amount session =
    if sender == creator
    then some (record {
      creator_address = creator;
      application_address = address;
      buyer = buyer;
      seller = seller;
      amount = amount;
      session_id = session;
      status = 0;
      frozen = 0;
    })
    else none

unfoldable pub fund : Payment → CadenciaEscrow → Verdict
fund payment c =
    if (c.status == 0)
      && ((c.frozen == 0)
          && ((payment.receiver == c.application_address) && (payment.amount == c.amount)))
    then some (record c { status = 1 }, [])
    else none

unfoldable pub release : ℕ → Bool → Text → CadenciaEscrow → Verdict
release sender paid merkle_root c =
    if (sender == c.creator_address) && ((c.status == 1) && ((c.frozen == 0) && paid))
    then some (
      record c { status = 2 },
      record { receiver = c.seller; amount = c.amount; note = merkle_root } ∷ [],
    )
    else none

unfoldable pub refund : ℕ → Bool → Text → CadenciaEscrow → Verdict
refund sender paid reason c =
    if (sender == c.creator_address) && ((c.status == 1) && ((c.frozen == 0) && paid))
    then some (
      record c { status = 3 },
      record { receiver = c.buyer; amount = c.amount; note = reason } ∷ [],
    )
    else none

unfoldable pub freeze : ℕ → CadenciaEscrow → Verdict
freeze sender c =
    if (sender == c.buyer) || ((sender == c.seller) || (sender == c.creator_address))
    then some (record c { frozen = 1 }, [])
    else none

unfoldable pub unfreeze : ℕ → CadenciaEscrow → Verdict
unfreeze sender c =
    if (sender == c.creator_address) && (c.frozen == 1)
    then some (record c { frozen = 0 }, [])
    else none

-- An application call, with its sender.
pub data AppCall : Type 0 where
  call_fund : (sender : ℕ) (payment : Payment) → AppCall
  call_release call_refund : (sender : ℕ) (paid : Bool) (note : Text) → AppCall
  call_freeze call_unfreeze : (sender : ℕ) → AppCall

unfoldable pub execute : AppCall → CadenciaEscrow → Verdict
unfolding fund release refund freeze unfreeze
execute (call_fund sender payment) = fund payment
execute (call_release sender paid note) = release sender paid note
execute (call_refund sender paid note) = refund sender paid note
execute (call_freeze sender) = freeze sender
execute (call_unfreeze sender) = unfreeze sender

-- The contract with what it took in and the inner payments it made, the latest first.
pub record Chain : Type 0 where
  pub app : CadenciaEscrow
  pub taken_in : ℕ
  pub paid_out : List Payment

-- The group's payment to the contract counts only if the call is accepted.
abbrev pub intake : AppCall → ℕ
intake (call_fund sender payment) = payment.amount
intake _ = 0

abbrev pub settle : Chain → ℕ → Verdict → Chain
settle k received none = k
settle k received (some (app, payments)) = record {
  app = app;
  taken_in = k.taken_in + received;
  paid_out = payments ++ k.paid_out;
}

unfoldable pub run : List AppCall → Chain → Chain
run [] k = k
run (call ∷ calls) k = run calls (settle k (intake call) (execute call k.app))
