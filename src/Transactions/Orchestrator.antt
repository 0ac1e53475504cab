-- ===== src/Transactions/Orchestrator.antt =====
-- backend/src/drc_pay_api/domains/transactions/orchestrator.py: a payment routed through the rail,
-- collected from the customer, settled to the merchant, or refunded. The recorder is absent, as in
-- the webhook receiver and the sweep, so `_rec` does nothing; a handler's clauses follow the order
-- of its statements. `except RailRejected` is a helper on the rail's answer.
use drc_pay.Base.{String, Bool, true, false, Option, none, some, [], ◌∷◌, ◌++◌, ◌==◌, ⊤}
use drc_pay.Int.{ltb_ℤ}
use drc_pay.Exec.{Exec, value_error, ◌>>=◌, ◌>>◌, lift, pure, require}
use drc_pay.Ledger.Money.{Money, currency_eq, sub, is_positive}
use drc_pay.Transactions.States.{
  initiated, collection_pending, collection_succeeded, collection_failed, payout_pending,
  payout_succeeded, payout_failed, refund_pending, refunded, manual_review,
}
use drc_pay.Transactions.Models.{
  Transaction, deposit, payout, refund, Answer, accepted, rejected, PaymentRail, World,
  rail_verified,
}
use drc_pay.Transactions.Pricing.{collection_cost, payout_cost}
use drc_pay.Transactions.Store.{get, save}
use drc_pay.Transactions.Steps.{
  customer, merchant, clearing, revenue, expense, debited, credited, if_positive, require_provider,
  ask, transition, store_op_id, post_entries,
}

-- the arguments of `start_transaction`
pub record Start : Type 0 where
  pub transaction_id : String
  pub customer_msisdn : String
  pub merchant_msisdn : String
  pub amount : Money
  pub fee : Money
  pub customer_provider : String
  pub merchant_provider : String
  pub merchant_id : Option String
  pub idempotency_key : Option String

-- the `Transaction(...)` of `start_transaction`
unfoldable pub new_routed : Start → Transaction
new_routed s = record {
  id = s.transaction_id;
  customer_msisdn = s.customer_msisdn;
  merchant_msisdn = s.merchant_msisdn;
  amount = s.amount;
  fee = s.fee;
  state = initiated;
  history = initiated ∷ [];
  idempotency_key = s.idempotency_key;
  merchant_id = s.merchant_id;
  customer_provider = some s.customer_provider;
  merchant_provider = some s.merchant_provider;
  deposit_id = none;
  payout_id = none;
  refund_id = none;
  provenance = rail_verified;
}

module _ {R : Type 0} (rail : PaymentRail R) where
  unfoldable pub after_collection : Transaction → Answer → Exec (World R) ⊤
  after_collection t rejected = do transition t collection_failed; pure tt
  after_collection t (accepted op) = store_op_id deposit op t

  -- the request for the customer's money, and its answer
  unfoldable pub collection_leg : Start → Transaction → Exec (World R) ⊤
  unfolding after_collection
  collection_leg s t = do
    answer ← ask (rail.request_collection t.id t.customer_msisdn s.amount s.customer_provider)
    after_collection t answer

  unfoldable pub save_and_collect : Start → Transaction → Exec (World R) ⊤
  save_and_collect s t = save t >> (transition t collection_pending >>= collection_leg s)

  unfoldable pub start_transaction : Start → Exec (World R) ⊤
  unfolding save_and_collect
  start_transaction s = do
    require (s.amount.currency == s.fee.currency) value_error
    require (is_positive s.amount) value_error
    require (ltb_ℤ s.fee.amount_minor s.amount.amount_minor) value_error
    save_and_collect s (new_routed s)

  unfoldable pub after_refund : Transaction → Answer → Exec (World R) ⊤
  after_refund t rejected = do transition t manual_review; pure tt
  after_refund t (accepted op) = store_op_id refund op t

  -- the rest of `_begin_refund` after its transition
  unfoldable pub refund_leg : Transaction → Exec (World R) ⊤
  unfolding after_refund
  refund_leg t = do
    provider ← lift (require_provider t.customer_provider)
    answer ← ask (rail.request_refund t.id t.deposit_id t.amount provider)
    after_refund t answer

  -- `_begin_refund`
  unfoldable pub begin_refund : Transaction → Exec (World R) ⊤
  begin_refund t = transition t refund_pending >>= refund_leg

  unfoldable pub after_payout : Transaction → Answer → Exec (World R) ⊤
  after_payout t rejected = transition t payout_failed >>= begin_refund
  after_payout t (accepted op) = store_op_id payout op t

  -- the rest of `_begin_payout` after its transition
  unfoldable pub payout_leg : Transaction → Exec (World R) ⊤
  payout_leg t = do
    merchant_amount ← lift (sub t.amount t.fee)
    provider ← lift (require_provider t.merchant_provider)
    answer ← ask (rail.request_payout t.id t.merchant_msisdn merchant_amount provider)
    after_payout t answer

  -- `_begin_payout`
  unfoldable pub begin_payout : Transaction → Exec (World R) ⊤
  begin_payout t = transition t payout_pending >>= payout_leg

  unfoldable pub book_collection : Transaction → Exec (World R) ⊤
  book_collection t = do
    provider ← lift (require_provider t.customer_provider)
    let cost = collection_cost t.amount provider
    held ← lift (sub t.amount cost)
    post_entries t (debited customer t.amount ∷ credited clearing held ∷ if_positive expense cost)

  unfoldable pub collection_succeeds : Transaction → Exec (World R) ⊤
  collection_succeeds t = book_collection t >> begin_payout t

  -- what `on_collection_result` does with the stored transaction
  unfoldable pub collection_result : Bool → Transaction → Exec (World R) ⊤
  collection_result false t = transition t collection_failed >> pure tt
  collection_result true t = transition t collection_succeeded >>= collection_succeeds

  unfoldable pub on_collection_result : String → Bool → Exec (World R) ⊤
  on_collection_result id success = get id >>= collection_result success

  unfoldable pub book_settlement : Transaction → Exec (World R) ⊤
  book_settlement t = do
    payer ← lift (require_provider t.customer_provider)
    let collect_cost = collection_cost t.amount payer
    payee ← lift (require_provider t.merchant_provider)
    let pay_cost = payout_cost t.amount payee
    merchant_amount ← lift (sub t.amount t.fee)
    after_collect ← lift (sub t.fee collect_cost)
    margin ← lift (sub after_collect pay_cost)
    held ← lift (sub t.amount collect_cost)
    post_entries t (
        debited clearing held
        ∷ credited merchant merchant_amount
        ∷ (if_positive expense pay_cost ++ if_positive revenue margin))

  -- what `on_payout_result` does with the stored transaction
  unfoldable pub payout_result : Bool → Transaction → Exec (World R) ⊤
  payout_result false t = transition t payout_failed >>= begin_refund
  payout_result true t = transition t payout_succeeded >>= book_settlement

  unfoldable pub on_payout_result : String → Bool → Exec (World R) ⊤
  on_payout_result id success = get id >>= payout_result success

  unfoldable pub book_refund : Transaction → Exec (World R) ⊤
  book_refund t = post_entries t (debited clearing t.amount ∷ credited customer t.amount ∷ [])

  -- what `on_refund_result` does with the stored transaction
  unfoldable pub refund_result : Bool → Transaction → Exec (World R) ⊤
  refund_result false t = transition t manual_review >> pure tt
  refund_result true t = transition t refunded >>= book_refund

  unfoldable pub on_refund_result : String → Bool → Exec (World R) ⊤
  on_refund_result id success = get id >>= refund_result success
