-- ===== src/Transactions/Pricing.antt =====
-- backend/src/drc_pay_api/domains/transactions/pricing.py: the fees of the two legs, in basis points.
use drc_pay.Base.{ℕ, String, ◌==◌, string_eq, if◌then◌else◌}
use drc_pay.Int.{scale_div}
use drc_pay.Exec.{Result}
use drc_pay.Ledger.Money.{Money, add}

-- `_COLLECT_BPS.get(provider, _DEFAULT_COLLECT_BPS)`
unfoldable pub collect_bps : String → ℕ
collect_bps provider =
    if provider == "VODACOM_MPESA_COD"
    then 250
    else if provider == "AIRTEL_COD"
    then 300
    else if provider == "ORANGE_COD"
    then 300
    else 300

-- `_PAYOUT_BPS.get(provider, _DEFAULT_PAYOUT_BPS)`
unfoldable pub payout_bps : String → ℕ
payout_bps provider =
    if provider == "VODACOM_MPESA_COD"
    then 200
    else if provider == "AIRTEL_COD"
    then 200
    else if provider == "ORANGE_COD"
    then 100
    else 200

unfoldable pub collection_cost : Money → String → Money
collection_cost amount payer_provider = record amount {
  amount_minor = scale_div amount.amount_minor (collect_bps payer_provider) 10000;
}

unfoldable pub payout_cost : Money → String → Money
payout_cost amount merchant_provider = record amount {
  amount_minor = scale_div amount.amount_minor (payout_bps merchant_provider) 10000;
}

unfoldable pub default_fee : Money → String → String → Result Money
default_fee amount payer_provider merchant_provider =
    add (collection_cost amount payer_provider) (payout_cost amount merchant_provider)
