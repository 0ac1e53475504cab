-- ===== src/Ledger/Posting.antt =====
-- backend/src/drc_pay_api/domains/ledger/ledger.py: entries, and the check that makes a posting.
use drc_pay.Base.{String, ◌&&◌, Bool, Option, none, some, List, [], ◌∷◌, length, ltb, if◌then◌else◌}
use drc_pay.Int.{ℤ, pos, ◌+ℤ◌, ◌-ℤ◌, beq_ℤ}
use drc_pay.Exec.{Result, ok, err, unbalanced_posting}
use drc_pay.Dict.{Dict, lookup, insert}
use drc_pay.Ledger.Money.{Money, Currency, currency_eq}

pub data Direction : Type 0 where
  debit credit : Direction

pub record Entry : Type 0 where
  pub account : String
  pub direction : Direction
  pub amount : Money

pub record Posting : Type 0 where
  pub transaction_id : String
  pub entries : List Entry

abbrev pub signed_by : Direction → ℤ → ℤ
signed_by debit n = n
signed_by credit n = pos 0 -ℤ n

abbrev pub or_zero : Option ℤ → ℤ
or_zero none = pos 0
or_zero (some n) = n

-- one round of the loop over the entries
unfoldable pub add_total : Entry → Dict Currency ℤ → Dict Currency ℤ
add_total entry totals =
    insert entry.amount.currency
      (or_zero (lookup entry.amount.currency totals)
        +ℤ signed_by entry.direction entry.amount.amount_minor)
      totals

unfoldable pub sum_totals : List Entry → Dict Currency ℤ → Dict Currency ℤ
sum_totals [] totals = totals
sum_totals (entry ∷ entries) totals = sum_totals entries (add_total entry totals)

-- `unbalanced` is empty
unfoldable pub all_zero : Dict Currency ℤ → Bool
all_zero [] = Bool.true
all_zero ((_, total) ∷ totals) = beq_ℤ total (pos 0) && all_zero totals

-- `Posting.__post_init__`
unfoldable pub posting : String → List Entry → Result Posting
posting id entries =
    if ltb (length entries) 2
    then err unbalanced_posting
    else if all_zero (sum_totals entries [])
    then ok (record { transaction_id = id; entries = entries })
    else err unbalanced_posting
