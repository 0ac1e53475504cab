-- ===== src/Transactions/Books.antt =====
-- What the ledger holds for a payment in each of its states, written out independently of the
-- handlers of domains/transactions/orchestrator.py and on_net.py that post it.
use drc_pay.Base.{
  ℕ, ◌≡◌, refl, String, Option, none, some, List, [], ◌∷◌, ◌++◌, ◌==◌, Bool-cases, inl, inr, arith,
  if◌then◌else◌,
}
use drc_pay.Int.{ℤ, pos, ◌+ℤ◌, ◌-ℤ◌, ◌≤ℤ◌, ◌<ℤ◌, int_laws, parts_of_eq, scale_div}
use drc_pay.Exec.{ok}
use drc_pay.Ledger.Money.{Money, Currency, sub, is_positive, currency_eq, currency_beq_iff}
use drc_pay.Ledger.Posting.{Direction, Entry, Posting, debit, credit}
use drc_pay.Ledger.Balance.{IsBalanced, side_sum}
use drc_pay.Transactions.States.{
  TxState, initiated, collection_pending, collection_failed, payout_succeeded, refunded,
}
use drc_pay.Transactions.Models.{Transaction, Provenance, rail_verified, merchant_attested}
use drc_pay.Transactions.Pricing.{collection_cost, payout_cost}
use drc_pay.Transactions.Steps.{
  customer, merchant, clearing, revenue, expense, debited, credited, if_positive, require_provider,
}

abbrev pub provider_of : Option String → String
provider_of none = ""
provider_of (some p) = p

abbrev pub minus : Money → Money → Money
minus a b = record a { amount_minor = a.amount_minor -ℤ b.amount_minor }

-- Subtraction within one currency succeeds.
pub sub-eq : (a b : Money) → a.currency ≡ b.currency → sub a b ≡ ok (minus a b)
unfolding sub
sub-eq a b e = rw ((currency_beq_iff a.currency b.currency).1 e)

abbrev pub collect_of : Transaction → Money
collect_of t = collection_cost t.amount (provider_of t.customer_provider)

abbrev pub payout_of : Transaction → Money
payout_of t = payout_cost t.amount (provider_of t.merchant_provider)

abbrev pub margin_of : Transaction → Money
margin_of t = minus (minus t.fee (collect_of t)) (payout_of t)

abbrev pub collection_entries : Transaction → List Entry
collection_entries t =
    debited customer t.amount
    ∷ credited clearing (minus t.amount (collect_of t))
    ∷ if_positive expense (collect_of t)

abbrev pub settlement_entries : Transaction → List Entry
settlement_entries t =
    debited clearing (minus t.amount (collect_of t))
    ∷ credited merchant (minus t.amount t.fee)
    ∷ (if_positive expense (payout_of t) ++ if_positive revenue (margin_of t))

abbrev pub refund_entries : Transaction → List Entry
refund_entries t = debited clearing t.amount ∷ credited customer t.amount ∷ []

abbrev pub on_net_entries : Transaction → List Entry
on_net_entries t = debited customer t.amount ∷ credited merchant t.amount ∷ []

abbrev pub for_tx : Transaction → List Entry → Posting
for_tx t es = record { transaction_id = t.id; entries = es }

-- The postings of a payment: its collection, settlement, refund and on-net sale, as far as its
-- state has got.
abbrev pub expected_at : Provenance → TxState → Posting → Posting → Posting → Posting → List Posting
expected_at merchant_attested payout_succeeded c s r o = o ∷ []
expected_at merchant_attested _ c s r o = []
expected_at rail_verified initiated c s r o = []
expected_at rail_verified collection_pending c s r o = []
expected_at rail_verified collection_failed c s r o = []
expected_at rail_verified payout_succeeded c s r o = c ∷ s ∷ []
expected_at rail_verified refunded c s r o = c ∷ r ∷ []
expected_at rail_verified _ c s r o = c ∷ []

abbrev pub collected : Transaction → Posting
collected t = for_tx t (collection_entries t)

abbrev pub settled : Transaction → Posting
settled t = for_tx t (settlement_entries t)

abbrev pub returned : Transaction → Posting
returned t = for_tx t (refund_entries t)

abbrev pub sold : Transaction → Posting
sold t = for_tx t (on_net_entries t)

abbrev pub expected : Transaction → List Posting
expected t = expected_at t.provenance t.state (collected t) (settled t) (returned t) (sold t)

-- What the postings of a routed payment need to balance: the fee is in the currency of the amount
-- and covers the costs of both legs, and both operators are known.
pub record IsPriced (amount fee : Money) (customer_provider merchant_provider : Option String)
    : Type 0 where
  pub same_currency : fee.currency ≡ amount.currency
  pub positive : pos 0 <ℤ amount.amount_minor
  pub covered :
      (collection_cost amount (provider_of customer_provider)).amount_minor
        +ℤ (payout_cost amount (provider_of merchant_provider)).amount_minor
      ≤ℤ fee.amount_minor
  pub payer : require_provider customer_provider ≡ ok (provider_of customer_provider)
  pub payee : require_provider merchant_provider ≡ ok (provider_of merchant_provider)

abbrev pub IsRouted : Transaction → Type 0
IsRouted t = IsPriced t.amount t.fee t.customer_provider t.merchant_provider

pub scale_div_nonneg : (a : ℤ) (n d : ℕ) → pos 0 ≤ℤ a → pos 0 ≤ℤ scale_div a n d
scale_div_nonneg a n d h = ground arith

-- What the optional credit of `amount` adds in currency `c`, if `amount` is not negative.
abbrev in_currency : Currency → Money → ℤ
in_currency c m = if m.currency == c then m.amount_minor else pos 0

module _ (c : Currency) (account : String) (m : Money) where
  credit-if_positive :
      pos 0 ≤ℤ m.amount_minor → side_sum credit c (if_positive account m) ≡ in_currency c m
  unfolding side_sum
  credit-if_positive h = elim (Bool-cases (is_positive m)) [
    | inl p ↦ rw p (grind int_laws)
    | inr p ↦ rw p (grind int_laws)
  ]

  debit-if_positive : side_sum debit c (if_positive account m) ≡ pos 0
  unfolding side_sum
  debit-if_positive = elim (Bool-cases (is_positive m)) [
    | inl p ↦ rw p (grind int_laws)
    | inr p ↦ rw p refl
  ]

side_sum-append :
    (d : Direction) (c : Currency) (xs ys : List Entry)
    → side_sum d c (xs ++ ys) ≡ side_sum d c xs +ℤ side_sum d c ys
unfolding side_sum
side_sum-append d c [] ys = omega int_laws
side_sum-append d c (x ∷ xs) ys = omega (int_laws, parts_of_eq (side_sum-append d c xs ys))

-- A debit of `a` against credits of `a - k` and `k`.
split_IsBalanced :
    (x y z : String) (a k : Money)
    → k.currency ≡ a.currency
    → pos 0 ≤ℤ k.amount_minor
    → IsBalanced (debited x a ∷ credited y (minus a k) ∷ if_positive z k)
unfolding side_sum
split_IsBalanced x y z a k e h c =
    rw (credit-if_positive c z k h, debit-if_positive c z k, e)
      (elim (Bool-cases (a.currency == c)) [ inl p ↦ rw p (omega int_laws) | inr p ↦ rw p refl ])

-- A debit of `a - k` against credits of `a - f`, `p` and what `f` leaves over `k` and `p`.
settle_IsBalanced :
    (x y z u : String) (a f k p : Money)
    → f.currency ≡ a.currency
    → p.currency ≡ a.currency
    → pos 0 ≤ℤ p.amount_minor
    → k.amount_minor +ℤ p.amount_minor ≤ℤ f.amount_minor
    → IsBalanced (
        debited x (minus a k)
        ∷ credited y (minus a f)
        ∷ (if_positive z p ++ if_positive u (minus (minus f k) p)))
unfolding side_sum
settle_IsBalanced x y z u a f k p ef ep hp hf c =
    let m = minus (minus f k) p in
    let hm : pos 0 ≤ℤ m.amount_minor = omega int_laws in
    rw
      (
        side_sum-append debit c (if_positive z p) (if_positive u m),
        side_sum-append credit c (if_positive z p) (if_positive u m),
        credit-if_positive c z p hp,
        debit-if_positive c z p,
        credit-if_positive c u m hm,
        debit-if_positive c u m,
        ep,
        ef,
      )
      (elim (Bool-cases (a.currency == c)) [ inl q ↦ rw q (omega int_laws) | inr q ↦ rw q refl ])

pub currency-collect_of : (t : Transaction) → (collect_of t).currency ≡ t.amount.currency
unfolding collection_cost
currency-collect_of t = refl

pub currency-payout_of : (t : Transaction) → (payout_of t).currency ≡ t.amount.currency
unfolding payout_cost
currency-payout_of t = refl

module _ (t : Transaction) (r : IsRouted t) where
  pub collect_nonneg : pos 0 ≤ℤ (collect_of t).amount_minor
  unfolding collection_cost
  collect_nonneg = scale_div_nonneg t.amount.amount_minor _ 10000 (omega (arith, r.positive))

  pub payout_nonneg : pos 0 ≤ℤ (payout_of t).amount_minor
  unfolding payout_cost
  payout_nonneg = scale_div_nonneg t.amount.amount_minor _ 10000 (omega (arith, r.positive))

  pub collection_entries-IsBalanced : IsBalanced (collection_entries t)
  collection_entries-IsBalanced =
      split_IsBalanced _ _ _ t.amount (collect_of t) (currency-collect_of t) collect_nonneg

  pub settlement_entries-IsBalanced : IsBalanced (settlement_entries t)
  settlement_entries-IsBalanced =
      settle_IsBalanced _ _ _ _ t.amount t.fee (collect_of t) (payout_of t) r.same_currency
        (currency-payout_of t) payout_nonneg r.covered

-- A debit against a credit of the same amount.
pub pair_IsBalanced : (x y : String) (a : Money) → IsBalanced (debited x a ∷ credited y a ∷ [])
unfolding side_sum
pair_IsBalanced x y a c = elim (Bool-cases (a.currency == c)) [
  | inl q ↦ rw q (omega int_laws)
  | inr q ↦ rw q refl
]
