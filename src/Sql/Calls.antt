-- ===== src/Sql/Calls.antt =====
-- The calls of the transaction store of adapters/memory.py and of that of adapters/sql.py, and what a
-- caller sees of them.
use drc_pay.Transactions.Store.{
  has_op, find_pending, find_by_op_id, find_by_idempotency_key, save, get,
}
use drc_pay.Sql.Transactions.{
  sql_all, sql_find_pending, sql_find_by_op_id, sql_find_by_idempotency_key, sql_save, sql_get,
  same_key, row_id, row_fits,
}
use drc_pay.Dict.{values}
use drc_pay.Sql.Table.{is_bigint, Table}
use drc_pay.Transactions.Models.{World, Transaction}
use drc_pay.Base.{
  length, filter, true, ◌≤◌, ◌≡◌, Option, List, [], ◌∷◌, string_eq, nat_eq, ⊤, String,
}
use drc_pay.Exec.{Result, ok}

-- the calls of the store
pub data Op : Type 0 where
  op_get : String → Op
  op_save : Transaction → Op
  op_by_key op_by_op : String → Op
  op_pending op_all : Op

-- what a caller sees of a call
pub data Seen : Type 0 where
  seen_row : Result Transaction → Seen
  seen_done : Result ⊤ → Seen
  seen_found : Result (Option Transaction) → Seen
  seen_rows : Result (List Transaction) → Seen

module _ {R : Type 0} where
  -- a call of `InMemoryTransactionStore`
  unfoldable pub memory_step : Op → World R → Seen × World R
  memory_step (op_get id) w = (seen_row (get id w).0, w)
  memory_step (op_save t) w = (seen_done (save t w).0, (save t w).1)
  memory_step (op_by_key key) w = (seen_found (ok (find_by_idempotency_key key w)), w)
  memory_step (op_by_op op) w = (seen_found (ok (find_by_op_id op w)), w)
  memory_step op_pending w = (seen_rows (ok (find_pending w)), w)
  memory_step op_all w = (seen_rows (ok (values w.rows)), w)

  unfoldable pub memory_run : List Op → World R → List Seen
  unfolding memory_step
  memory_run [] w = []
  memory_run (o ∷ os) w = (memory_step o w).0 ∷ memory_run os (memory_step o w).1

module _ {D : Type 0} (db : Table row_id same_key row_fits D) where
  -- a call of `SqlTransactionStore`
  unfoldable pub sql_step : Op → D → Seen × D
  sql_step (op_get id) d = (seen_row (sql_get db id d), d)
  sql_step (op_save t) d = (seen_done (sql_save db t d).0, (sql_save db t d).1)
  sql_step (op_by_key key) d = (seen_found (sql_find_by_idempotency_key db key d), d)
  sql_step (op_by_op op) d = (seen_found (sql_find_by_op_id db op d), d)
  sql_step op_pending d = (seen_rows (sql_find_pending db d), d)
  sql_step op_all d = (seen_rows (sql_all db d), d)

  unfoldable pub sql_run : List Op → D → List Seen
  unfolding sql_step
  sql_run [] d = []
  sql_run (o ∷ os) d = (sql_step o d).0 ∷ sql_run os (sql_step o d).1

-- A payment that a row can hold: its fee in the currency of its amount, and both in a column's range.
pub record IsStorable (t : Transaction) : Type 0 where
  pub one_currency : t.fee.currency ≡ t.amount.currency
  pub amount_fits : is_bigint t.amount.amount_minor ≡ true
  pub fee_fits : is_bigint t.fee.amount_minor ≡ true

-- What is asked of a call in a world: what is saved can be held by a row, and an operation's id is one
-- payment's at most.
abbrev pub IsFit : {R : Type 0} → Op → World R → Type 0
IsFit (op_save t) w = IsStorable t
IsFit (op_by_op op) w = length (filter (has_op op) (values w.rows)) ≤ 1
IsFit _ w = ⊤

-- The same of each call of a sequence, in the world that the calls before it leave.
abbrev pub AreFit : {R : Type 0} → List Op → World R → Type 0
AreFit [] w = ⊤
AreFit (o ∷ os) w = IsFit o w × AreFit os (memory_step o w).1
