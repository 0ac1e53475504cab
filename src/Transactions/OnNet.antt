-- ===== src/Transactions/OnNet.antt =====
-- backend/src/drc_pay_api/domains/transactions/on_net.py: a payment between two wallets of one
-- operator, which the customer makes directly; the program records it and its confirmation.
use drc_pay.Base.{String, Bool, true, false, Option, none, some, [], ◌∷◌, ⊤}
use drc_pay.Int.{pos}
use drc_pay.Exec.{Exec, value_error, ◌>>=◌, ◌>>◌, pure, require}
use drc_pay.Ledger.Money.{Money, is_positive}
use drc_pay.Transactions.States.{initiated, collection_pending, collection_failed, payout_succeeded}
use drc_pay.Transactions.Models.{Transaction, World, merchant_attested}
use drc_pay.Transactions.Store.{get, save}
use drc_pay.Transactions.Steps.{customer, merchant, debited, credited, transition, post_entries}

-- the arguments of `OnNetOrchestrator.start`
pub record OnNetStart : Type 0 where
  pub transaction_id : String
  pub payer_msisdn : String
  pub merchant_msisdn : String
  pub amount : Money
  pub provider : String
  pub merchant_id : Option String
  pub idempotency_key : Option String

-- its `Transaction(...)`
unfoldable pub new_on_net : OnNetStart → Transaction
new_on_net s = record {
  id = s.transaction_id;
  customer_msisdn = s.payer_msisdn;
  merchant_msisdn = s.merchant_msisdn;
  amount = s.amount;
  fee = record { amount_minor = pos 0; currency = s.amount.currency };
  state = initiated;
  history = initiated ∷ [];
  idempotency_key = s.idempotency_key;
  merchant_id = s.merchant_id;
  customer_provider = some s.provider;
  merchant_provider = some s.provider;
  deposit_id = none;
  payout_id = none;
  refund_id = none;
  provenance = merchant_attested;
}

module _ {R : Type 0} where
  -- `OnNetOrchestrator.start`
  unfoldable pub start : OnNetStart → Exec (World R) ⊤
  unfolding new_on_net
  start s = do
    require (is_positive s.amount) value_error
    save (new_on_net s)
    transition (new_on_net s) collection_pending
    pure tt

  -- `OnNetOrchestrator.on_confirm`
  unfoldable pub on_confirm : String → Bool → Exec (World R) ⊤
  on_confirm id false = do t ← get id; transition t collection_failed; pure tt
  on_confirm id true = do
    t ← get id
    post_entries t (debited customer t.amount ∷ credited merchant t.amount ∷ [])
    transition t payout_succeeded
    pure tt
