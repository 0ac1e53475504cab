-- ===== src/Application/Outcomes.antt =====
-- backend/src/drc_pay_api/application/outcomes.py and webhooks.py: a leg's final outcome, pushed by
-- a callback or polled by the sweep, is applied to the payment if that leg is still awaited.
-- The signature check and the JSON reader are parameters of the receiver.
use drc_pay.Base.{String, Bool, Option, none, some, ◌==◌, if◌then◌else◌, ⊤}
use drc_pay.Dict.{Dict}
use drc_pay.Exec.{Exec, ◌>>=◌, ◌>>◌, pure}
use drc_pay.Pawapay.Status.{Json, CallbackEvent, parse_callback}
use drc_pay.Transactions.States.{
  TxState, collection_pending, payout_pending, refund_pending, state_eq,
}
use drc_pay.Transactions.Models.{Transaction, Leg, deposit, payout, refund, PaymentRail, World}
use drc_pay.Transactions.Store.{get, find_by_op_id}
use drc_pay.Transactions.Orchestrator.{on_collection_result, on_payout_result, on_refund_result}

-- AWAITING_STATE
unfoldable pub awaiting_state : Leg → TxState
awaiting_state deposit = collection_pending
awaiting_state payout = payout_pending
awaiting_state refund = refund_pending

pub data Applied : Type 0 where
  applied : Applied
  ignored : TxState → Applied

-- what the receiver returns
pub data Receipt : Type 0 where
  bad_signature not_json not_object not_terminal unmatched : Receipt
  handled : Applied → Receipt

-- the body of a callback as `json.loads` reads it
pub data Body : Type 0 where
  broken not_dict : Body
  dict : Dict String Json → Body

module _ {R : Type 0} (rail : PaymentRail R) where
  unfoldable pub on_result : Leg → String → Bool → Exec (World R) ⊤
  on_result deposit id success = on_collection_result rail id success
  on_result payout id success = on_payout_result rail id success
  on_result refund id success = on_refund_result rail id success

  -- the test on the state, and the call of the orchestrator
  unfoldable pub apply_awaited : String → Transaction → Leg → Bool → Exec (World R) Applied
  unfolding awaiting_state
  apply_awaited id t kind success =
      if t.state == awaiting_state kind
      then on_result kind id success >> pure applied
      else pure (ignored t.state)

  unfoldable pub apply_outcome : String → Leg → Bool → Exec (World R) Applied
  unfolding apply_awaited
  apply_outcome id kind success = do t ← get id; apply_awaited id t kind success

  unfoldable pub handle_event : Option CallbackEvent → Exec (World R) Receipt
  handle_event none w = pure not_terminal w
  handle_event (some event) w = elim (find_by_op_id event.op_id w) [
    | none ↦ pure unmatched w
    | some t ↦ (do a ← apply_outcome t.id event.kind event.success; pure (handled a)) w
  ]

  unfoldable pub handle_body : Body → Exec (World R) Receipt
  handle_body broken = pure not_json
  handle_body not_dict = pure not_object
  handle_body (dict fields) = handle_event (parse_callback fields)

  -- `process_pawapay_callback`; the request is whatever the check and the reader look at
  unfoldable pub process_callback :
      {Q : Type 0} → (Q → Bool) → (Q → Body) → Q → Exec (World R) Receipt
  process_callback verified loads request =
      if verified request then handle_body (loads request) else pure bad_signature
