-- ===== src/Sql/Rows.antt =====
-- adapters/sql.py: the rows of the tables, and what they stand for. A column of a text that the program
-- only passes on, such as a merchant's status, keeps its type; states, directions and currencies are
-- written by name and read back. The time columns are not modelled.
use drc_pay.Ledger.Money.{cdf, usd, Currency, currency_name, Money, known_currency}
use drc_pay.Transactions.Models.{rail_verified, Provenance, Transaction}
use drc_pay.Int.{pos, ℤ}
use drc_pay.Transactions.States.{
  manual_review, refunded, refund_pending, payout_failed, payout_succeeded, payout_pending,
  collection_failed, collection_succeeded, collection_pending, initiated, all_states, TxState,
}
use drc_pay.Base.{
  map, ◌≡◌, refl, sym, ap, ◌∙◌, Option, none, List, [], ◌∷◌, ◌==◌, string_eq, nat_eq, if◌then◌else◌,
  String,
}
use drc_pay.Exec.{value_error, Result, ok, err}
use drc_pay.Sql.Fallible.{◌>>=◌}

-- the value of a state
unfoldable pub state_value : TxState → String
state_value initiated = "initiated"
state_value collection_pending = "collection_pending"
state_value collection_succeeded = "collection_succeeded"
state_value collection_failed = "collection_failed"
state_value payout_pending = "payout_pending"
state_value payout_succeeded = "payout_succeeded"
state_value payout_failed = "payout_failed"
state_value refund_pending = "refund_pending"
state_value refunded = "refunded"
state_value manual_review = "manual_review"

-- `TxState(value)`, over the states that are left
unfoldable pub named_state : String → List TxState → Result TxState
unfolding state_value
named_state name [] = err value_error
named_state name (s ∷ ss) =
    let rest = named_state name ss in if state_value s == name then ok s else rest

unfoldable pub read_state : String → Result TxState
unfolding named_state
read_state name = named_state name all_states

-- `[TxState(s) for s in row.history]`
unfoldable pub read_states : List String → Result (List TxState)
unfolding read_state
read_states [] = ok []
read_states (x ∷ xs) = do s ← read_state x; ss ← read_states xs; ok (s ∷ ss)

-- `Money(amount_minor, currency)`
unfoldable pub read_money : ℤ → String → Result Money
read_money n name = do
  currency ← known_currency name
  ok (record { amount_minor = n; currency = currency })

-- `TransactionRow`
pub record TransactionRow : Type 0 where
  pub id : String
  pub customer_msisdn : String
  pub merchant_msisdn : String
  pub amount_minor : ℤ
  pub fee_minor : ℤ
  pub currency : String
  pub state : String
  pub history : List String
  pub idempotency_key : Option String
  pub merchant_id : Option String
  pub customer_provider : Option String
  pub merchant_provider : Option String
  pub deposit_id : Option String
  pub payout_id : Option String
  pub refund_id : Option String
  pub provenance : Provenance

-- `TransactionRow(id=...)`; the other columns have no value yet
abbrev pub blank_row : String → TransactionRow
blank_row id = record {
  id = id;
  customer_msisdn = "";
  merchant_msisdn = "";
  amount_minor = pos 0;
  fee_minor = pos 0;
  currency = "";
  state = "";
  history = [];
  idempotency_key = none;
  merchant_id = none;
  customer_provider = none;
  merchant_provider = none;
  deposit_id = none;
  payout_id = none;
  refund_id = none;
  provenance = rail_verified;
}

-- the assignments of `SqlTransactionStore.save`
unfoldable pub filled : Transaction → TransactionRow → TransactionRow
unfolding state_value
filled t row = record row {
  customer_msisdn = t.customer_msisdn;
  merchant_msisdn = t.merchant_msisdn;
  amount_minor = t.amount.amount_minor;
  fee_minor = t.fee.amount_minor;
  currency = currency_name t.amount.currency;
  state = state_value t.state;
  history = map state_value t.history;
  idempotency_key = t.idempotency_key;
  merchant_id = t.merchant_id;
  customer_provider = t.customer_provider;
  merchant_provider = t.merchant_provider;
  deposit_id = t.deposit_id;
  payout_id = t.payout_id;
  refund_id = t.refund_id;
  provenance = t.provenance;
}

-- `_to_domain`
unfoldable pub to_domain : TransactionRow → Result Transaction
unfolding read_money read_state read_states
to_domain row = do
  amount ← read_money row.amount_minor row.currency
  fee ← read_money row.fee_minor row.currency
  state ← read_state row.state
  history ← read_states row.history
  ok (record {
    id = row.id;
    customer_msisdn = row.customer_msisdn;
    merchant_msisdn = row.merchant_msisdn;
    amount = amount;
    fee = fee;
    state = state;
    history = history;
    idempotency_key = row.idempotency_key;
    merchant_id = row.merchant_id;
    customer_provider = row.customer_provider;
    merchant_provider = row.merchant_provider;
    deposit_id = row.deposit_id;
    payout_id = row.payout_id;
    refund_id = row.refund_id;
    provenance = row.provenance;
  })

-- `[_to_domain(row) for row in rows]`
unfoldable pub all_to_domain : List TransactionRow → Result (List Transaction)
unfolding to_domain
all_to_domain [] = ok []
all_to_domain (r ∷ rs) = do t ← to_domain r; ts ← all_to_domain rs; ok (t ∷ ts)

-- Every state is read back from its value.
pub read_state-state_value : (s : TxState) → read_state (state_value s) ≡ ok s
unfolding read_state state_value
read_state-state_value initiated = refl
read_state-state_value collection_pending = refl
read_state-state_value collection_succeeded = refl
read_state-state_value collection_failed = refl
read_state-state_value payout_pending = refl
read_state-state_value payout_succeeded = refl
read_state-state_value payout_failed = refl
read_state-state_value refund_pending = refl
read_state-state_value refunded = refl
read_state-state_value manual_review = refl

pub read_states-map : (ss : List TxState) → read_states (map state_value ss) ≡ ok ss
unfolding read_states
read_states-map [] = refl
read_states-map (s ∷ ss) = rw (read_state-state_value s) (rw (read_states-map ss) refl)

pub read_money-currency_name :
    (n : ℤ) (c : Currency)
    → read_money n (currency_name c) ≡ ok (record { amount_minor = n; currency = c })
unfolding read_money known_currency
read_money-currency_name n usd = refl
read_money-currency_name n cdf = refl

-- A payment with its fee in the currency of its amount is read back from the row that was filled with
-- it, whatever the row held before.
pub to_domain-filled :
    (t : Transaction) (row : TransactionRow)
    → row.id ≡ t.id
    → t.fee.currency ≡ t.amount.currency
    → to_domain (filled t row) ≡ ok t
unfolding to_domain filled
to_domain-filled t row e f =
    let fee : read_money t.fee.amount_minor (currency_name t.amount.currency) ≡ ok t.fee =
      read_money-currency_name t.fee.amount_minor t.amount.currency
      ∙ ap (λ c. ok (record { amount_minor = t.fee.amount_minor; currency = c })) (sym f) in
    rw (read_money-currency_name t.amount.amount_minor t.amount.currency) (
      rw fee (
        rw (read_state-state_value t.state)
          (rw (read_states-map t.history) (ap (λ id. ok (record t { id = id })) e))))
