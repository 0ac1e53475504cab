-- ===== src/Sweep.antt =====
-- backend/src/drc_pay_api/jobs/reconciliation/sweep.py: every payment that awaits an outcome is
-- polled, and a terminal status is applied as a callback would be. An exception of the applier is
-- not caught, and ends the pass.
pub mod Keeps
pub mod Pass
use drc_pay.Base.{String, true, false, Option, none, some, List, [], ◌∷◌, ◌++◌}
use drc_pay.Exec.{Exec, ◌>>=◌, pure}
use drc_pay.Pawapay.Status.{Outcome, success, failure, pending, classify}
use drc_pay.Transactions.States.{TxState, collection_pending, payout_pending, refund_pending}
use drc_pay.Transactions.Models.{Transaction, Leg, deposit, payout, refund, PaymentRail, World}
use drc_pay.Transactions.Store.{find_pending}
use drc_pay.Application.Outcomes.{Applied, applied, ignored, apply_outcome}

pub data Disposition : Type 0 where
  resolved_success resolved_failure still_pending unresolved : Disposition
  skipped_no_op_id already_applied poll_error : Disposition

-- A status call returns a `PawaPayStatus`, or raises `httpx.HTTPError`.
pub data Poll : Type 0 where
  status : Option String → Poll
  http_error : Poll

-- `StatusPoller`
pub record StatusPoller (R : Type 0) : Type 0 where
  pub get_deposit_status : String → R → Poll
  pub get_payout_status : String → R → Poll
  pub get_refund_status : String → R → Poll

pub record ReconciliationItem : Type 0 where
  pub transaction_id : String
  pub kind : Leg
  pub disposition : Disposition

-- `_LEG_FOR_STATE.get`
unfoldable pub leg_for_state : TxState → Option Leg
leg_for_state collection_pending = some deposit
leg_for_state payout_pending = some payout
leg_for_state refund_pending = some refund
leg_for_state _ = none

unfoldable pub op_id : Transaction → Leg → Option String
op_id t deposit = t.deposit_id
op_id t payout = t.payout_id
op_id t refund = t.refund_id

unfoldable pub poll : {R : Type 0} → StatusPoller R → Leg → String → R → Poll
poll p deposit op = p.get_deposit_status op
poll p payout op = p.get_payout_status op
poll p refund op = p.get_refund_status op

abbrev pub resolved : Outcome → Applied → Disposition
resolved _ (ignored _) = already_applied
resolved success applied = resolved_success
resolved _ applied = resolved_failure

module _ {R : Type 0} (rail : PaymentRail R) where
  unfoldable pub apply_terminal : String → Leg → Outcome → Exec (World R) Disposition
  apply_terminal id kind pending = pure still_pending
  apply_terminal id kind success = do a ← apply_outcome rail id kind true; pure (resolved success a)
  apply_terminal id kind failure = do
    a ← apply_outcome rail id kind false
    pure (resolved failure a)

  -- `_resolve`
  unfoldable pub resolve : String → Leg → Option String → Exec (World R) Disposition
  unfolding apply_terminal
  resolve id kind none = pure unresolved
  resolve id kind (some raw) = apply_terminal id kind (classify (some raw))

  unfoldable pub resolve_poll : String → Leg → Poll → Exec (World R) Disposition
  unfolding resolve
  resolve_poll id kind http_error = pure poll_error
  resolve_poll id kind (status raw) = resolve id kind raw

  module _ (poller : StatusPoller R) where
    unfoldable pub poll_leg : String → Leg → Option String → Exec (World R) Disposition
    unfolding poll resolve_poll
    poll_leg id kind none w = pure skipped_no_op_id w
    poll_leg id kind (some op) w = resolve_poll id kind (poll poller kind op w.rail) w

    -- one round of the loop
    unfoldable pub sweep_one : Transaction → Option Leg → Exec (World R) (List ReconciliationItem)
    unfolding poll_leg op_id
    sweep_one t none = pure []
    sweep_one t (some kind) = do
      d ← poll_leg t.id kind (op_id t kind)
      pure (record { transaction_id = t.id; kind = kind; disposition = d } ∷ [])

    unfoldable pub sweep_all : List Transaction → Exec (World R) (List ReconciliationItem)
    unfolding sweep_one leg_for_state
    sweep_all [] = pure []
    sweep_all (t ∷ ts) = do
      items ← sweep_one t (leg_for_state t.state)
      rest ← sweep_all ts
      pure (items ++ rest)

    unfoldable pub reconcile_pending : Exec (World R) (List ReconciliationItem)
    unfolding sweep_all
    reconcile_pending w = sweep_all (find_pending w) w

  -- `run_reconciliation`
  unfoldable pub run_reconciliation :
      Option (StatusPoller R) → Exec (World R) (List ReconciliationItem)
  run_reconciliation none = pure []
  run_reconciliation (some poller) = reconcile_pending poller
