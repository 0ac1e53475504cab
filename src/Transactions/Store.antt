-- ===== src/Transactions/Store.antt =====
-- backend/src/drc_pay_api/adapters/memory.py: the in-memory transaction store and ledger.
-- The store's own objects are what its callers mutate before they call `save`; a `save` that
-- raises would leave the mutation in place. The model writes at `save`: no second `save` of a row
-- raises in a sound store.
use drc_pay.Base.{
  String, Bool, true, false, not, ◌&&◌, ◌||◌, Option, none, some, is_some, List, [], ◌∷◌, ◌++◌,
  filter, ◌==◌, string_eq, if◌then◌else◌, ⊤,
}
use drc_pay.Exec.{ok, err, Exec, key_error, duplicate_idempotency_key}
use drc_pay.Dict.{lookup, insert, values}
use drc_pay.Ledger.Posting.{Posting}
use drc_pay.Transactions.States.{member, pending_states}
use drc_pay.Transactions.Models.{Transaction, World}

-- `==` between two optional strings
abbrev pub same_option : Option String → Option String → Bool
same_option none none = true
same_option (some a) (some b) = a == b
same_option _ _ = false

-- some row of the list holds the key of `t` under another id
unfoldable pub clashes : Transaction → List Transaction → Bool
clashes t [] = false
clashes t (x ∷ xs) =
    (same_option x.idempotency_key t.idempotency_key && not (x.id == t.id)) || clashes t xs

-- the first row that passes the test
unfoldable pub find : (Transaction → Bool) → List Transaction → Option Transaction
find p [] = none
find p (x ∷ xs) = if p x then some x else find p xs

abbrev pub has_key : String → Transaction → Bool
has_key key x = same_option x.idempotency_key (some key)

-- `op_id in (deposit_id, payout_id, refund_id)`
abbrev pub has_op : String → Transaction → Bool
has_op op x =
    same_option (some op) x.deposit_id
    || same_option (some op) x.payout_id
    || same_option (some op) x.refund_id

module _ {R : Type 0} where
  -- `InMemoryTransactionStore.get`
  unfoldable pub get : String → Exec (World R) Transaction
  get id w = elim (lookup id w.rows) [ none ↦ (err key_error, w) | some t ↦ (ok t, w) ]

  -- `InMemoryTransactionStore.save`
  unfoldable pub save : Transaction → Exec (World R) ⊤
  save t w =
      if is_some t.idempotency_key && clashes t (values w.rows)
      then (err duplicate_idempotency_key, w)
      else (ok tt, record w { rows = insert t.id t w.rows })

  unfoldable pub find_by_idempotency_key : String → World R → Option Transaction
  find_by_idempotency_key key w = find (has_key key) (values w.rows)

  unfoldable pub find_by_op_id : String → World R → Option Transaction
  find_by_op_id op w = find (has_op op) (values w.rows)

  unfoldable pub find_pending : World R → List Transaction
  find_pending w = filter (λ t. member t.state pending_states) (values w.rows)

  -- `InMemoryLedger.post`
  unfoldable pub post : Posting → Exec (World R) ⊤
  post p w = (ok tt, record w { postings = w.postings ++ p ∷ [] })

-- `InMemoryLedger.for_transaction`
unfoldable pub for_transaction : String → List Posting → List Posting
for_transaction id = filter (λ p. p.transaction_id == id)
