-- ===== src/Http/PublicRoutes.antt =====
-- backend/src/drc_pay_api/http/public_routes.py: a customer pays a charge or a merchant from a page,
-- off the real-money path, and looks at a payment, a charge or a merchant.
use drc_pay.Transactions.Store.{get}
use drc_pay.Dict.{insert}
use drc_pay.Http.Guards.{unprocessable, charge_tx_state, row, or_404}
use drc_pay.Transactions.Models.{Transaction}
use drc_pay.Ledger.Money.{is_positive, Money}
use drc_pay.Merchants.{Merchant}
use drc_pay.Application.Payments.{truthy, start_merchant_payment, Payment}
use drc_pay.Ledger.Amounts.{from_major, Decimal}
use drc_pay.Charges.{is_payable, charge_status, ChargeStatus, Charge}
use drc_pay.Exec.{pure, require, lift, ok, http_exception, err, Exec, Result, ◌>>=◌, ◌>>◌}
use drc_pay.Container.{on_world, Stores, Container}
use Prim.Native.String.{◌++◌}
use drc_pay.Base.{string_eq, false, none, ⊤, some, ◌==◌, if◌then◌else◌, ℕ, String, Option}

-- `PayRequest`
pub record PayRequest : Type 0 where
  pub charge_id : Option String
  pub merchant_id : String
  pub amount : String
  pub outcome : String
  pub payer_network : String

-- `_OUTCOMES.get`: the deposit suffix and the scenario
unfoldable pub outcome_of : String → Option (String × String)
outcome_of o =
    if o == "success"
    then some ("789", "success")
    else if o == "decline"
    then some ("049", "collection_fail")
    else if o == "refund"
    then some ("789", "payout_fail")
    else none

-- `_NETWORKS` and `_NETWORK_BASE`: the operator's code and the start of the payer's number
unfoldable pub network_of : String → Option (String × String)
network_of n =
    if n == "vodacom"
    then some ("VODACOM_MPESA_COD", "243813456")
    else if n == "airtel"
    then some ("AIRTEL_COD", "243973456")
    else if n == "orange"
    then some ("ORANGE_COD", "243893456")
    else none

-- a value, or an HTTP error
abbrev pub or_http : {A : Type 0} → ℕ → Option A → Result A
or_http n none = err (http_exception n)
or_http n (some a) = ok a

-- the merchant and the amount of a payment, and the charge that they come from
pub record Target : Type 0 where
  pub charge : Option Charge
  pub merchant : Merchant
  pub amount : Money

module _ {R : Type 0} where
  -- where a charge is given
  unfoldable pub charge_target : String → Exec (Stores R) Target
  charge_target id = do
    charge ← or_404 (row id (λ s. s.charges))
    tx_state ← λ s. (ok (charge_tx_state charge s), s)
    require (is_payable charge tx_state) (http_exception 409)
    merchant ← row charge.merchant_id (λ s. s.merchants)
    pure (record { charge = some charge; merchant = merchant; amount = charge.amount })

  -- where a merchant and an amount are given
  unfoldable pub direct_target :
      (String → Result Decimal) → String → String → Exec (Stores R) Target
  direct_target decimal merchant_id major = do
    amount ← lift (unprocessable (from_major decimal major "USD"))
    require (is_positive amount) (http_exception 422)
    merchant ← or_404 (row merchant_id (λ s. s.merchants))
    pure (record { charge = none; merchant = merchant; amount = amount })

  unfoldable pub target_of :
      (String → Result Decimal) → PayRequest → Option String → Exec (Stores R) Target
  unfolding charge_target direct_target
  target_of decimal body none = direct_target decimal body.merchant_id body.amount
  target_of decimal body (some id) = charge_target id

  -- `charge.transaction_id = transaction_id; container.charges.save(charge)`
  unfoldable pub link_charge : Option Charge → String → Exec (Stores R) ⊤
  link_charge none id s = (ok tt, s)
  link_charge (some charge) id s = (
    ok tt,
    record s { charges = insert charge.id (record charge { transaction_id = some id }) s.charges },
  )

  module _ (c : Container R) (uuid : String) where
    abbrev pub page_payment : String × String → String × String → Target → Payment
    page_payment (suffix, scenario) (provider, base) t = record {
      simulated = c.simulated;
      customer_msisdn = base ++ suffix;
      merchant = t.merchant;
      amount = t.amount;
      customer_provider_override = some provider;
      idempotency_key = none;
      scenario = scenario;
      defer = false;
    }

    -- from the start of the payment on
    unfoldable pub pay_target :
        String × String → String × String → Target → Exec (Stores R) Transaction
    unfolding link_charge
    pay_target outcome network t = do
      id ←
          on_world (start_merchant_payment c.rail c.predictor uuid (page_payment outcome network t))
      link_charge t.charge id
      on_world (get id)

    -- `pay`
    unfoldable pub pay : (String → Result Decimal) → PayRequest → Exec (Stores R) Transaction
    unfolding target_of pay_target
    pay decimal body = do
      require c.demo_controls_enabled (http_exception 404)
      outcome ← lift (or_http 422 (outcome_of body.outcome))
      network ← lift (or_http 422 (network_of body.payer_network))
      t ← target_of decimal body (truthy body.charge_id)
      pay_target outcome network t

    -- `public_transaction`
    unfoldable pub public_transaction : String → Exec (Stores R) Transaction
    public_transaction id = do
      require c.demo_controls_enabled (http_exception 404)
      on_world (or_404 (get id))

  -- `public_merchant`
  unfoldable pub public_merchant : String → Exec (Stores R) Merchant
  public_merchant id = or_404 (row id (λ s. s.merchants))

  -- `public_charge`
  unfoldable pub public_charge : String → Exec (Stores R) (Charge × Merchant × ChargeStatus)
  public_charge id = do
    charge ← or_404 (row id (λ s. s.charges))
    merchant ← row charge.merchant_id (λ s. s.merchants)
    λ s. (ok (charge, merchant, charge_status charge (charge_tx_state charge s)), s)
