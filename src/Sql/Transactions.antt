-- ===== src/Sql/Transactions.antt =====
-- adapters/sql.py: `SqlTransactionStore`, over any database that has the table.
use drc_pay.Transactions.Models.{Transaction}
use drc_pay.Transactions.Store.{same_option}
use drc_pay.Sql.Table.{made, clashed, overflowed, is_bigint, Commit, Table}
use drc_pay.Transactions.States.{pending_states, TxState}
use drc_pay.Sql.Rows.{all_to_domain, filled, blank_row, state_value, to_domain, TransactionRow}
use drc_pay.Base.{
  Bool, true, false, not, ◌&&◌, ◌||◌, Option, none, some, is_some, List, [], ◌∷◌, ◌==◌, string_eq,
  nat_eq, ⊤, String,
}
use drc_pay.Exec.{Exec, key_error, duplicate_idempotency_key, data_error, Result, ok, err}
use drc_pay.Sql.Fallible.{◌>>=◌}

abbrev pub row_id : TransactionRow → String
row_id r = r.id

-- two rows under one idempotency key, of which the second is committed
abbrev pub same_key : TransactionRow → TransactionRow → Bool
same_key x r =
    is_some r.idempotency_key
    && (same_option x.idempotency_key r.idempotency_key && not (x.id == r.id))

-- a row or none, read back
abbrev pub found_row : Option TransactionRow → Result (Option Transaction)
found_row none = ok none
found_row (some r) = do t ← to_domain r; ok (some t)

-- `.first()` by a unique column, read back
unfoldable pub first_row : List TransactionRow → Result (Option Transaction)
unfolding to_domain
first_row [] = ok none
first_row (r ∷ _) = do t ← to_domain r; ok (some t)

abbrev pub row_has_op : String → TransactionRow → Bool
row_has_op op r =
    same_option (some op) r.deposit_id
    || same_option (some op) r.payout_id
    || same_option (some op) r.refund_id

-- `state.in_([...])`
unfoldable pub in_states : List TxState → String → Bool
in_states [] name = false
in_states (s ∷ ss) name = name == state_value s || in_states ss name

-- the two `BigInteger` columns
unfoldable pub row_fits : TransactionRow → Bool
unfolding is_bigint
row_fits r = is_bigint r.amount_minor && is_bigint r.fee_minor

module _ {D : Type 0} (db : Table row_id same_key row_fits D) where
  abbrev pub found : Option TransactionRow → Result Transaction
  found none = err key_error
  found (some r) = to_domain r

  -- `get`
  unfoldable pub sql_get : String → D → Result Transaction
  sql_get id d = found (db.fetch id d)

  abbrev pub or_blank : String → Option TransactionRow → TransactionRow
  or_blank id none = blank_row id
  or_blank id (some r) = r

  abbrev pub committed : Commit D → D → Result ⊤ × D
  committed clashed d = (err duplicate_idempotency_key, d)
  committed overflowed d = (err data_error, d)
  committed (made d') d = (ok tt, d')

  -- `save`
  unfoldable pub sql_save : Transaction → Exec D ⊤
  unfolding filled
  sql_save t d = committed (db.commit (filled t (or_blank t.id (db.fetch t.id d))) d) d

  -- `all`
  unfoldable pub sql_all : D → Result (List Transaction)
  unfolding all_to_domain
  sql_all d = all_to_domain (db.select (λ _. true) d)

  -- `find_by_idempotency_key`
  unfoldable pub sql_find_by_idempotency_key : String → D → Result (Option Transaction)
  unfolding first_row
  sql_find_by_idempotency_key key d =
      first_row (db.select (λ r. same_option r.idempotency_key (some key)) d)

  -- `find_by_op_id`, in no order
  unfoldable pub sql_find_by_op_id : String → D → Result (Option Transaction)
  unfolding to_domain
  sql_find_by_op_id op d = found_row (db.find_any (row_has_op op) d)

  -- `find_pending`
  unfoldable pub sql_find_pending : D → Result (List Transaction)
  unfolding all_to_domain in_states
  sql_find_pending d = all_to_domain (db.select (λ r. in_states pending_states r.state) d)
