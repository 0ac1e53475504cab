-- ===== src/Transactions/Fees.antt =====
-- domains/transactions/pricing.py: what `default_fee` charges.
use drc_pay.Base.{ℕ, ◌≡◌, ◌⊎◌, refl, String, string_eq, arith, inl, inr}
use drc_pay.Int.{ℤ, pos, negsuc, ◌+ℤ◌, ◌≤ℤ◌, ◌<ℤ◌, scale_div}
use drc_pay.Exec.{ok}
use drc_pay.Ledger.Money.{Money, currency_eq, currency_beq_iff, add}
use drc_pay.Transactions.Pricing.{
  collect_bps, payout_bps, collection_cost, payout_cost, default_fee,
}

collect_bps-cases : (p : String) → (collect_bps p ≡ 250) ⊎ (collect_bps p ≡ 300)
unfolding collect_bps
collect_bps-cases p = ground arith

payout_bps-cases : (p : String) → (payout_bps p ≡ 100) ⊎ (payout_bps p ≡ 200)
unfolding payout_bps
payout_bps-cases p = ground arith

-- Two shares of a positive amount, of at most 3% and at most 2%.
shares_lt :
    (a : ℤ) (n m : ℕ)
    → pos 0 <ℤ a
    → (n ≡ 250) ⊎ (n ≡ 300)
    → (m ≡ 100) ⊎ (m ≡ 200)
    → (pos 0 ≤ℤ scale_div a n 10000 +ℤ scale_div a m 10000)
      × (scale_div a n 10000 +ℤ scale_div a m 10000 <ℤ a)
unfolding ◌+ℤ◌
shares_lt (negsuc a) n m p h k = (omega arith, omega arith)
shares_lt (pos a) n m p (inl h) (inl k) = rw (h, k) (ground arith, ground arith)
shares_lt (pos a) n m p (inl h) (inr k) = rw (h, k) (ground arith, ground arith)
shares_lt (pos a) n m p (inr h) (inl k) = rw (h, k) (ground arith, ground arith)
shares_lt (pos a) n m p (inr h) (inr k) = rw (h, k) (ground arith, ground arith)

pub default_fee-eq :
    (amount : Money) (payer payee : String)
    → default_fee amount payer payee
      ≡ ok (record {
        amount_minor =
            (collection_cost amount payer).amount_minor +ℤ (payout_cost amount payee).amount_minor;
        currency = amount.currency;
      })
unfolding default_fee add collection_cost payout_cost
default_fee-eq amount payer payee =
    rw ((currency_beq_iff amount.currency amount.currency).1 refl) refl

-- The fee that the program charges for a routed payment of a positive amount is exactly what the
-- rails will charge for its two legs, in the currency of the amount, not negative and below the
-- amount.
pub default_fee_lem :
    (amount : Money) (payer payee : String)
    → pos 0 <ℤ amount.amount_minor
    → (fee : Money) × (default_fee amount payer payee ≡ ok fee)
      × (fee.currency ≡ amount.currency)
      × (fee.amount_minor
          ≡ (collection_cost amount payer).amount_minor +ℤ (payout_cost amount payee).amount_minor)
      × (pos 0 ≤ℤ fee.amount_minor)
      × (fee.amount_minor <ℤ amount.amount_minor)
unfolding default_fee add collection_cost payout_cost
default_fee_lem amount payer payee p =
    let (low, high) =
      shares_lt amount.amount_minor (collect_bps payer) (payout_bps payee) p
        (collect_bps-cases payer) (payout_bps-cases payee) in
    (_, rw ((currency_beq_iff amount.currency amount.currency).1 refl) refl, refl, refl, low, high)
