-- ===== src/Pawapay/Simulator.antt =====
-- backend/src/drc_pay_api/integrations/pawapay/simulator.py: the rail of the demo, which accepts every
-- request under an id made of the leg and the transaction, and answers polls.
use drc_pay.Dict.{insert, Dict, lookup}
use drc_pay.Exec.{ok, Result}
use drc_pay.Ledger.Money.{Money}
use drc_pay.Sweep.{status, StatusPoller}
use drc_pay.Transactions.Models.{refund, accepted, payout, Answer, deposit, PaymentRail, Leg}
use drc_pay.Base.{[], ◌∷◌, some, string_eq, ◌++◌, Option, List}
use Prim.Native.String.{String, ◌++◌ as str_append}

pub record SimulatedRail : Type 0 where
  pub collections : List (String × String × Money × String)
  pub payouts : List (String × String × Money × String)
  pub refunds : List (String × Option String × Money)
  pub statuses : Dict String String

-- the ids `sim-dep-…`, `sim-pay-…` and `sim-ref-…`
abbrev pub simulated_id : Leg → String → String
simulated_id deposit id = str_append "sim-dep-" id
simulated_id payout id = str_append "sim-pay-" id
simulated_id refund id = str_append "sim-ref-" id

-- `_accept`
unfoldable pub accept : String → SimulatedRail → Result Answer × SimulatedRail
accept op r = (ok (accepted (some op)), record r { statuses = insert op "COMPLETED" r.statuses })

-- `SimulatedPaymentRail`
unfoldable pub simulator : PaymentRail SimulatedRail
unfolding accept
simulator = record {
  request_collection = λ id msisdn amount provider r.
      accept (simulated_id deposit id)
        (record r { collections = r.collections ++ (id, msisdn, amount, provider) ∷ [] });
  request_payout = λ id msisdn amount provider r.
      accept (simulated_id payout id)
        (record r { payouts = r.payouts ++ (id, msisdn, amount, provider) ∷ [] });
  request_refund = λ id deposit_id amount provider r.
      accept (simulated_id refund id)
        (record r { refunds = r.refunds ++ (id, deposit_id, amount) ∷ [] });
}

-- `get_deposit_status`, `get_payout_status` and `get_refund_status`
unfoldable pub simulated_poller : StatusPoller SimulatedRail
simulated_poller = record {
  get_deposit_status = λ op r. status (lookup op r.statuses);
  get_payout_status = λ op r. status (lookup op r.statuses);
  get_refund_status = λ op r. status (lookup op r.statuses);
}
