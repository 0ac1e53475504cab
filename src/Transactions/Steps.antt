-- ===== src/Transactions/Steps.antt =====
-- What the handlers of backend/src/drc_pay_api/domains/transactions/orchestrator.py and on_net.py
-- are made of: the account names, `_transition`, `_store_op_id`, `_post`, and a call of the rail.
use drc_pay.Base.{
  String, Option, none, some, List, [], ◌∷◌, ◌++◌, ◌==◌, string_eq, if◌then◌else◌, ⊤,
}
use drc_pay.Exec.{Result, ok, err, Exec, value_error, illegal_transition, ◌>>=◌, ◌>>◌, lift, pure}
use drc_pay.Ledger.Money.{Money, currency_eq, is_positive}
use drc_pay.Ledger.Posting.{Entry, debit, credit, posting}
use drc_pay.Transactions.States.{TxState, can_transition}
use drc_pay.Transactions.Models.{Transaction, Leg, deposit, payout, refund, Answer, World}
use drc_pay.Transactions.Store.{save, post}

-- the accounts
abbrev pub customer : String
customer = "customer:external"

abbrev pub merchant : String
merchant = "merchant:external"

abbrev pub clearing : String
clearing = "pawapay:clearing"

abbrev pub revenue : String
revenue = "revenue:fees"

abbrev pub expense : String
expense = "expense:pawapay"

-- `Entry(account, Direction.DEBIT, amount)`, and the same with CREDIT
abbrev pub debited : String → Money → Entry
debited account amount = record { account = account; direction = debit; amount = amount }

abbrev pub credited : String → Money → Entry
credited account amount = record { account = account; direction = credit; amount = amount }

-- `if amount.is_positive: entries.append(...)`
abbrev pub if_positive : String → Money → List Entry
if_positive account amount = if is_positive amount then credited account amount ∷ [] else []

unfoldable pub require_provider : Option String → Result String
require_provider none = err value_error
require_provider (some provider) = if provider == "" then err value_error else ok provider

unfoldable pub assert_transition : TxState → TxState → Result ⊤
assert_transition src dst =
    if can_transition src dst then ok tt else err (illegal_transition src dst)

-- the two assignments of `_transition`
abbrev pub moved : Transaction → TxState → Transaction
moved t destination = record t { state = destination; history = t.history ++ destination ∷ [] }

abbrev pub with_op_id : Leg → String → Transaction → Transaction
with_op_id deposit op t = record t { deposit_id = some op }
with_op_id payout op t = record t { payout_id = some op }
with_op_id refund op t = record t { refund_id = some op }

module _ {R : Type 0} where
  -- a call of the rail
  unfoldable pub ask : (R → Result Answer × R) → Exec (World R) Answer
  ask request w = let (answer, rail) = request w.rail in (answer, record w { rail = rail })

  unfoldable pub transition : Transaction → TxState → Exec (World R) Transaction
  unfolding assert_transition
  transition t destination = do
    lift (assert_transition t.state destination)
    save (moved t destination)
    pure (moved t destination)

  unfoldable pub store_op_id : Leg → Option String → Transaction → Exec (World R) ⊤
  store_op_id kind none t = pure tt
  store_op_id kind (some op) t = save (with_op_id kind op t)

  -- `self._post(Posting(...))`
  unfoldable pub post_entries : Transaction → List Entry → Exec (World R) ⊤
  post_entries t entries = do p ← lift (posting t.id entries); post p
