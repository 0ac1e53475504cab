-- ===== src/Sql.antt =====
-- backend/src/drc_pay_api/adapters/sql.py: the stores over a database. The database toolkit is a
-- parameter, `Sql.Table`, with what the stores rely on as its laws.
pub mod Fallible
pub mod Table
pub mod Rows
pub mod Transactions
pub mod Calls
pub mod Ledger
pub mod Grouping
pub mod LedgerRead
pub mod Charges
pub mod Holds
pub mod Refine
pub mod Keyed
pub mod Accounts
pub mod Names
