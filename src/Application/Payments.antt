-- ===== src/Application/Payments.antt =====
-- backend/src/drc_pay_api/application/payments.py and routing.py: the entry that every channel
-- calls to start a payment. `uuid` is the id that `uuid.uuid4()` gives; the predictor is the live
-- client's predict-provider call, or absent on the simulator.
use drc_pay.Base.{
  String, Bool, true, false, not, ◌&&◌, ◌||◌, Option, none, some, ◌==◌, string_eq, if◌then◌else◌, ⊤,
}
use drc_pay.Exec.{Error, Result, ok, err, Exec, duplicate_idempotency_key, ◌>>=◌, ◌>>◌, lift, pure}
use drc_pay.Ledger.Money.{Money}
use drc_pay.Merchants.{Merchant}
use drc_pay.Transactions.Models.{Transaction, PaymentRail, World}
use drc_pay.Transactions.Pricing.{default_fee}
use drc_pay.Transactions.Store.{find_by_idempotency_key}
use drc_pay.Transactions.Orchestrator.{
  Start, start_transaction, on_collection_result, on_payout_result, on_refund_result,
}
use drc_pay.Transactions.OnNet.{OnNetStart, start}

-- `provider in ON_NET_PROVIDERS`
unfoldable pub on_net_provider : String → Bool
on_net_provider p = p == "AIRTEL_COD" || p == "VODACOM_MPESA_COD" || p == "ORANGE_COD"

unfoldable pub use_on_net : String → String → Bool
use_on_net payer_provider merchant_provider =
    payer_provider == merchant_provider && on_net_provider payer_provider

abbrev pub demo_provider : String
demo_provider = "VODACOM_MPESA_COD"

abbrev pub Predictor : Type 0
Predictor = String → Result (Option String)

-- a text that is there and not empty
abbrev pub truthy : Option String → Option String
truthy none = none
truthy (some s) = if s == "" then none else some s

abbrev pub or_demo : Option String → String
or_demo none = demo_provider
or_demo (some p) = p

unfoldable pub predict : Option Predictor → String → Result String
predict none msisdn = ok demo_provider
predict (some predictor) msisdn = elim (predictor msisdn) [
  | ok found ↦ ok (or_demo (truthy found))
  | err e ↦ err e
]

unfoldable pub resolve_provider : Option Predictor → String → Option String → Result String
unfolding predict
resolve_provider predictor msisdn override = elim (truthy override) [
  | some p ↦ ok p
  | none ↦ predict predictor msisdn
]

-- the arguments of `start_merchant_payment` but for its ports
pub record Payment : Type 0 where
  pub simulated : Bool
  pub customer_msisdn : String
  pub merchant : Merchant
  pub amount : Money
  pub customer_provider_override : Option String
  pub idempotency_key : Option String
  pub scenario : String
  pub defer : Bool

-- the arguments of the two orchestrators
abbrev pub on_net_start : String → Payment → String → OnNetStart
on_net_start uuid p provider = record {
  transaction_id = uuid;
  payer_msisdn = p.customer_msisdn;
  merchant_msisdn = p.merchant.settlement_msisdn;
  amount = p.amount;
  provider = provider;
  merchant_id = some p.merchant.id;
  idempotency_key = p.idempotency_key;
}

abbrev pub routed_start : String → Payment → String → String → Money → Start
routed_start uuid p customer_provider merchant_provider fee = record {
  transaction_id = uuid;
  customer_msisdn = p.customer_msisdn;
  merchant_msisdn = p.merchant.settlement_msisdn;
  amount = p.amount;
  fee = fee;
  customer_provider = customer_provider;
  merchant_provider = merchant_provider;
  merchant_id = some p.merchant.id;
  idempotency_key = p.idempotency_key;
}

module _ {R : Type 0} where
  abbrev pub found_by : Option String → World R → Option Transaction
  found_by none w = none
  found_by (some key) w = find_by_idempotency_key key w

  -- `except DuplicateIdempotencyKey`
  unfoldable pub return_racer : Option String → Error → Exec (World R) String
  return_racer key duplicate_idempotency_key w = elim (found_by key w) [
    | some racer ↦ (ok racer.id, w)
    | none ↦ (err duplicate_idempotency_key, w)
  ]
  return_racer key e w = (err e, w)

  abbrev pub except_duplicate : Option String → Exec (World R) String → Exec (World R) String
  except_duplicate key m w =
      let (r, w') = m w in elim r [ ok id ↦ (ok id, w') | err e ↦ return_racer key e w' ]

  module _ (rail : PaymentRail R) where
    unfoldable pub play_out : String → String → Exec (World R) ⊤
    play_out id scenario =
        if scenario == "collection_fail" then on_collection_result rail id false else do
          on_collection_result rail id true
          if scenario == "success" then on_payout_result rail id true else do
            on_payout_result rail id false
            on_refund_result rail id (not (scenario == "refund_fail"))

    unfoldable pub start_on_net : String → Payment → String → Exec (World R) String
    start_on_net uuid p provider = start (on_net_start uuid p provider) >> pure uuid

    -- `if simulated and not defer: play_out(...)`
    unfoldable pub simulate : String → Payment → Exec (World R) ⊤
    simulate uuid p = if p.simulated && not p.defer then play_out uuid p.scenario else pure tt

    unfoldable pub start_routed : String → Payment → String → String → Exec (World R) String
    unfolding simulate
    start_routed uuid p customer_provider merchant_provider = do
      fee ← lift (default_fee p.amount customer_provider merchant_provider)
      start_transaction rail (routed_start uuid p customer_provider merchant_provider fee)
      simulate uuid p
      pure uuid

    -- the part after the check for an earlier payment with the key
    unfoldable pub start_fresh : String → Payment → String → String → Exec (World R) String
    start_fresh uuid p customer_provider merchant_provider = except_duplicate p.idempotency_key (
        if use_on_net customer_provider merchant_provider
        then start_on_net uuid p customer_provider
        else start_routed uuid p customer_provider merchant_provider)

    unfoldable pub find_or_start : String → Payment → String → String → Exec (World R) String
    unfolding start_fresh
    find_or_start uuid p customer_provider merchant_provider w =
        elim (found_by p.idempotency_key w) [
          | some existing ↦ (ok existing.id, w)
          | none ↦ start_fresh uuid p customer_provider merchant_provider w
        ]

    unfoldable pub start_merchant_payment :
        Option Predictor → String → Payment → Exec (World R) String
    start_merchant_payment predictor uuid p = do
      payer ← lift (resolve_provider predictor p.customer_msisdn p.customer_provider_override)
      payee ←
          lift
            (resolve_provider predictor p.merchant.settlement_msisdn p.merchant.settlement_provider)
      find_or_start uuid p payer payee
