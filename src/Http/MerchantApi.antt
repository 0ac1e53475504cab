-- ===== src/Http/MerchantApi.antt =====
-- backend/src/drc_pay_api/http/merchant_api.py: the handlers of the signed-in merchant. A handler
-- that answers with a payment or a charge returns the row, which the response only renders.
use drc_pay.Transactions.OnNet.{on_confirm}
use drc_pay.Dict.{values, insert}
use drc_pay.Transactions.Store.{get}
use drc_pay.Ussd.{is_attested}
use drc_pay.Transactions.States.{state_eq, collection_pending}
use drc_pay.Http.Guards.{charge_tx_state, unprocessable, none_or, row, is_own, or_404}
use drc_pay.Ledger.Amounts.{from_major, Decimal}
use drc_pay.Ledger.Money.{is_positive, Money}
use drc_pay.Application.Payments.{start_merchant_payment, found_by, Payment}
use drc_pay.Transactions.Models.{World, Transaction}
use drc_pay.Exec.{Result, lift, pure, ◌>>◌, ◌>>=◌, http_exception, ok, require, Exec}
use drc_pay.Charges.{charge_status, ChargeStatus, Charge}
use drc_pay.Container.{Stores, Container}
use drc_pay.Merchants.{is_active, Merchant}
use drc_pay.Base.{
  none, filter, string_eq, some, ◌||◌, if◌then◌else◌, List, ◌==◌, Bool, Option, String,
}

-- `CreateTransactionRequest`
pub record CreateTransactionRequest : Type 0 where
  pub customer_msisdn : String
  pub merchant_id : Option String
  pub amount : String
  pub currency : String
  pub customer_provider : Option String
  pub scenario : String
  pub defer : Bool

-- `body.scenario in _SCENARIOS`
unfoldable pub known_scenario : String → Bool
known_scenario s =
    s == "success" || s == "payout_fail" || s == "collection_fail" || s == "refund_fail"

module _ {R : Type 0} where
  -- `get_transaction`
  unfoldable pub get_transaction : String → Merchant → Exec (World R) Transaction
  get_transaction id merchant = do
    t ← or_404 (get id)
    require (is_own merchant t) (http_exception 404)
    pure t

  -- `list_transactions`
  unfoldable pub list_transactions : Merchant → Exec (World R) (List Transaction)
  list_transactions merchant w = (ok (filter (is_own merchant) (values w.rows)), w)

  unfoldable pub confirm_awaited : String → Bool → Transaction → Exec (World R) Transaction
  confirm_awaited id received t =
      if t.state == collection_pending then on_confirm id received >> get id else pure t

  unfoldable pub confirm_attested : String → Bool → Transaction → Exec (World R) Transaction
  unfolding confirm_awaited
  confirm_attested id received t =
      require (is_attested t.provenance) (http_exception 422) >> confirm_awaited id received t

  unfoldable pub confirm_owned : String → Bool → Merchant → Transaction → Exec (World R) Transaction
  unfolding confirm_attested
  confirm_owned id received merchant t =
      require (is_own merchant t) (http_exception 404) >> confirm_attested id received t

  -- `confirm_on_net_payment`
  unfoldable pub confirm_on_net_payment : String → Merchant → Bool → Exec (World R) Transaction
  unfolding confirm_owned
  confirm_on_net_payment id merchant received =
      or_404 (get id) >>= confirm_owned id received merchant

  -- the answer to a repeated key
  unfoldable pub replay : Merchant → Transaction → Exec (World R) Transaction
  replay merchant t = require (is_own merchant t) (http_exception 409) >> pure t

  module _ (c : Container R) (uuid : String) where
    abbrev pub api_payment : CreateTransactionRequest → Merchant → Option String → Money → Payment
    api_payment body merchant key amount = record {
      simulated = c.simulated;
      customer_msisdn = body.customer_msisdn;
      merchant = merchant;
      amount = amount;
      customer_provider_override = body.customer_provider;
      idempotency_key = key;
      scenario = body.scenario;
      defer = body.defer;
    }

    -- the rest of `create_transaction`, where no payment holds the key
    unfoldable pub create_fresh : Payment → Exec (World R) Transaction
    unfolding replay
    create_fresh p = do
      id ← start_merchant_payment c.rail c.predictor uuid p
      t ← get id
      replay p.merchant t

    unfoldable pub create_or_replay : Payment → Exec (World R) Transaction
    unfolding create_fresh replay
    create_or_replay p w = elim (found_by p.idempotency_key w) [
      | some t ↦ replay p.merchant t w
      | none ↦ create_fresh p w
    ]

    -- `create_transaction`
    unfoldable pub create_transaction :
        (String → Result Decimal)
        → CreateTransactionRequest
        → Merchant
        → Option String
        → Exec (World R) Transaction
    unfolding create_or_replay
    create_transaction decimal body merchant key = do
      require (known_scenario body.scenario) (http_exception 422)
      amount ← lift (unprocessable (from_major decimal body.amount body.currency))
      require (is_positive amount) (http_exception 422)
      require (none_or body.merchant_id merchant.id) (http_exception 403)
      require (is_active merchant) (http_exception 422)
      create_or_replay (api_payment body merchant key amount)

  -- `_charge_response`: the charge and its status, if its merchant is there
  unfoldable pub charge_response : Charge → Exec (Stores R) (Charge × ChargeStatus)
  charge_response charge = row charge.merchant_id (λ s. s.merchants) >> λ s.
      (ok (charge, charge_status charge (charge_tx_state charge s)), s)

  -- `container.charges.save(charge)`, and the response
  unfoldable pub save_charge : Charge → Exec (Stores R) (Charge × ChargeStatus)
  unfolding charge_response
  save_charge charge s =
      charge_response charge (record s { charges = insert charge.id charge s.charges })

  -- `create_charge`
  unfoldable pub create_charge :
      (String → Result Decimal)
      → String
      → Option String
      → String
      → Merchant
      → Exec (Stores R) (Charge × ChargeStatus)
  create_charge decimal uuid merchant_id major merchant = do
    require (none_or merchant_id merchant.id) (http_exception 403)
    require (is_active merchant) (http_exception 422)
    amount ← lift (unprocessable (from_major decimal major "USD"))
    require (is_positive amount) (http_exception 422)
    save_charge
        (record { id = uuid; merchant_id = merchant.id; amount = amount; transaction_id = none })

  -- `get_charge`
  unfoldable pub get_charge : String → Merchant → Exec (Stores R) (Charge × ChargeStatus)
  get_charge id merchant = do
    charge ← or_404 (row id (λ s. s.charges))
    require (charge.merchant_id == merchant.id) (http_exception 404)
    charge_response charge
