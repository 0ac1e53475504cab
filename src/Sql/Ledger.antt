-- ===== src/Sql/Ledger.antt =====
-- adapters/sql.py: `SqlLedger`. The table only grows, and lists its rows by their number; `log` is all
-- of it. The payment of a row, to which a foreign key refers, has been stored before. The posting's id
-- that is drawn is a parameter.
use drc_pay.Ledger.Money.{currency_name}
use drc_pay.Dict.{insert, lookup, Dict}
use drc_pay.Sql.Rows.{read_money}
use drc_pay.Ledger.Posting.{credit, debit, posting, Posting, Entry, Direction}
use drc_pay.Int.{ℤ}
use drc_pay.Base.{
  Bool, true, ◌&&◌, ⊤, map, ◌++◌, filter, Option, none, some, is_some, List, [], ◌∷◌, ◌==◌,
  string_eq, nat_eq, if◌then◌else◌, String,
}
use drc_pay.Sql.Table.{is_bigint}
use drc_pay.Exec.{data_error, Exec, value_error, Result, ok, err}
use drc_pay.Sql.Fallible.{◌>>=◌}

-- `LedgerEntryRow`
pub record EntryRow : Type 0 where
  pub posting_id : String
  pub transaction_id : String
  pub account : String
  pub direction : String
  pub amount_minor : ℤ
  pub currency : String

-- the values of `Direction`
unfoldable pub direction_value : Direction → String
direction_value debit = "debit"
direction_value credit = "credit"

-- `Direction(value)`
unfoldable pub read_direction : String → Result Direction
read_direction name =
    if name == "debit" then ok debit else if name == "credit" then ok credit else err value_error

-- the row that `post` adds for an entry
unfoldable pub entry_row : String → String → Entry → EntryRow
unfolding direction_value
entry_row posting_id id e = record {
  posting_id = posting_id;
  transaction_id = id;
  account = e.account;
  direction = direction_value e.direction;
  amount_minor = e.amount.amount_minor;
  currency = currency_name e.amount.currency;
}

-- the `BigInteger` column of each row
unfoldable pub entries_fit : List Entry → Bool
unfolding is_bigint
entries_fit [] = true
entries_fit (e ∷ es) = is_bigint e.amount.amount_minor && entries_fit es

-- `post`; all rows are stored or none is
unfoldable pub sql_post : String → Posting → Exec (List EntryRow) ⊤
unfolding entry_row entries_fit
sql_post posting_id p log =
    if entries_fit p.entries
    then (ok tt, log ++ map (entry_row posting_id p.transaction_id) p.entries)
    else (err data_error, log)

-- `Entry(row.account, Direction(row.direction), Money(row.amount_minor, row.currency))`
unfoldable pub read_entry : EntryRow → Result Entry
unfolding read_direction read_money
read_entry row = do
  direction ← read_direction row.direction
  amount ← read_money row.amount_minor row.currency
  ok (record { account = row.account; direction = direction; amount = amount })

-- `groups` and `order`
pub record Groups : Type 0 where
  pub groups : Dict String (List Entry)
  pub order : List String

-- `if row.posting_id not in groups`
unfoldable pub opened : String → Groups → Groups
opened k g =
    if is_some (lookup k g.groups)
    then g
    else record { groups = insert k [] g.groups; order = g.order ++ k ∷ [] }

abbrev pub entries_of : Option (List Entry) → List Entry
entries_of none = []
entries_of (some es) = es

abbrev pub with_entry : String → Entry → Groups → Groups
with_entry k e g = record g {
  groups = insert k (entries_of (lookup k g.groups) ++ e ∷ []) g.groups;
}

-- the loop over the rows
unfoldable pub grouped : List EntryRow → Groups → Result Groups
unfolding opened read_entry
grouped [] g = ok g
grouped (r ∷ rs) g = do
  e ← read_entry r
  grouped rs (with_entry r.posting_id e (opened r.posting_id g))

-- `[Posting(transaction_id=transaction_id, entries=tuple(groups[pid])) for pid in order]`
unfoldable pub built : String → Dict String (List Entry) → List String → Result (List Posting)
built id groups [] = ok []
built id groups (k ∷ ks) = do
  p ← posting id (entries_of (lookup k groups))
  ps ← built id groups ks
  ok (p ∷ ps)

-- `for_transaction`
unfoldable pub sql_for_transaction : String → List EntryRow → Result (List Posting)
unfolding grouped built
sql_for_transaction id log = do
  g ← grouped (filter (λ r. r.transaction_id == id) log) (record { groups = []; order = [] })
  built id g.groups g.order
