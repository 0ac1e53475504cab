-- ===== src/Ledger/Balance.antt =====
-- What the check of domains/ledger/ledger.py accepts, against sums over the entries of each side.
use drc_pay.Base.{
  String, ◌≡◌, refl, ◌≤◌, ◌↔◌, true, none, some, List, [], ◌∷◌, length, arith, ◌==◌, Bool-cases,
  inl, inr, if◌then◌else◌,
}
use drc_pay.Int.{ℤ, pos, ◌+ℤ◌, int_laws, eq_of_parts, parts_of_eq, beq_ℤ_iff}
use drc_pay.Dict.{IsUnique, insert-IsUnique, Dict, lookup, lookup-insert}
use drc_pay.Exec.{ok}
use drc_pay.Ledger.Money.{Currency, currency_eq, currency_beq_iff}
use drc_pay.Ledger.Posting.{
  Direction, debit, credit, Entry, or_zero, signed_by, add_total, sum_totals, all_zero, posting,
}

abbrev of_side : Direction → Direction → ℤ → ℤ
of_side debit debit n = n
of_side credit credit n = n
of_side _ _ n = pos 0

-- The sum of the amounts in currency `c` on side `d`.
unfoldable pub side_sum : Direction → Currency → List Entry → ℤ
side_sum d c [] = pos 0
side_sum d c (e ∷ es) =
    (if e.amount.currency == c then of_side d e.direction e.amount.amount_minor else pos 0)
    +ℤ side_sum d c es

signed_for : Currency → Entry → ℤ
signed_for c e =
    if e.amount.currency == c then signed_by e.direction e.amount.amount_minor else pos 0

lookup-add_total :
    (c : Currency) (e : Entry) (t : Dict Currency ℤ)
    → or_zero (lookup c (add_total e t)) ≡ or_zero (lookup c t) +ℤ signed_for c e
unfolding add_total signed_for
lookup-add_total c e t = rw lookup-insert (grind (int_laws, currency_beq_iff e.amount.currency c))

side_sum-signed_for :
    (c : Currency) (e : Entry) (es : List Entry)
    → signed_for c e +ℤ side_sum debit c es +ℤ side_sum credit c (e ∷ es)
      ≡ side_sum debit c (e ∷ es) +ℤ side_sum credit c es
unfolding side_sum signed_for
side_sum-signed_for c e es = grind int_laws

-- The total that the loop has for `c`, if it started at `t`.
sum_totals_lem :
    (c : Currency) (es : List Entry) (t : Dict Currency ℤ)
    → or_zero (lookup c (sum_totals es t)) +ℤ side_sum credit c es
      ≡ or_zero (lookup c t) +ℤ side_sum debit c es
unfolding sum_totals
sum_totals_lem c [] t = unfold side_sum in refl
sum_totals_lem c (e ∷ es) t = omega (
  int_laws,
  parts_of_eq (sum_totals_lem c es (add_total e t)),
  parts_of_eq (lookup-add_total c e t),
  parts_of_eq (side_sum-signed_for c e es),
)

module _ (es : List Entry) where
  -- Debits equal credits in every currency.
  abbrev pub IsBalanced : Type 0
  IsBalanced = (c : Currency) → side_sum debit c es ≡ side_sum credit c es

all_zero→lookup :
    (t : Dict Currency ℤ) (c : Currency) → all_zero t ≡ true → or_zero (lookup c t) ≡ pos 0
unfolding all_zero lookup
all_zero→lookup [] c h = refl
all_zero→lookup ((k, n) ∷ t) c h = ground (arith, beq_ℤ_iff n (pos 0), all_zero→lookup t c)

lookup_rest :
    (k : Currency) (n : ℤ) (t : Dict Currency ℤ) (c : Currency)
    → lookup k t ≡ none
    → or_zero (if k == c then some n else lookup c t) ≡ pos 0
    → or_zero (lookup c t) ≡ pos 0
lookup_rest k n t c u h = elim (Bool-cases (k == c)) [
  | inl e ↦ rw (← (currency_beq_iff k c).0 e) (rw u)
  | inr e ↦ rw e at h
]

lookup→all_zero :
    (t : Dict Currency ℤ)
    → IsUnique t
    → ((c : Currency) → or_zero (lookup c t) ≡ pos 0)
    → all_zero t ≡ true
unfolding all_zero lookup
lookup→all_zero [] u h = refl
lookup→all_zero ((k, n) ∷ t) u h = ground (
  arith,
  h k,
  currency_beq_iff k k,
  beq_ℤ_iff n (pos 0),
  lookup→all_zero t u.1 (λ c. lookup_rest k n t c u.0 (h c)),
)

sum_totals-IsUnique :
    (es : List Entry) (t : Dict Currency ℤ) → IsUnique t → IsUnique (sum_totals es t)
unfolding sum_totals add_total
sum_totals-IsUnique [] t u = u
sum_totals-IsUnique (e ∷ es) t u =
    sum_totals-IsUnique es (add_total e t) (insert-IsUnique e.amount.currency _ t u)

totals_iff : (es : List Entry) → (all_zero (sum_totals es []) ≡ true) ↔ IsBalanced es
unfolding lookup
totals_iff es = (
  λ h c. eq_of_parts _ _ (
      omega (
        int_laws,
        parts_of_eq (sum_totals_lem c es []),
        parts_of_eq (all_zero→lookup (sum_totals es []) c h),
      )),
  λ h. lookup→all_zero (sum_totals es []) (sum_totals-IsUnique es [] tt) λ c.
      eq_of_parts _ _ (omega (int_laws, parts_of_eq (sum_totals_lem c es []), parts_of_eq (h c))),
)

-- `Posting(id, entries)` is made exactly when there are at least two entries and the debits equal
-- the credits in every currency; otherwise it raises UnbalancedPosting.
pub posting_ok_iff :
    (id : String) (es : List Entry)
    → (posting id es ≡ ok (record { transaction_id = id; entries = es }))
      ↔ ((2 ≤ length es) × IsBalanced es)
unfolding posting
posting_ok_iff id es = (
  λ h. (ground arith, (totals_iff es).0 (ground arith)),
  λ h. ground (arith, h.0, (totals_iff es).1 h.1),
)
