-- ===== src/Pawapay/Providers.antt =====
-- backend/src/drc_pay_api/integrations/pawapay/providers.py: the decimal places of the operators, and
-- amounts as pawaPay reads them. An amount is rendered as its number of units of the last place.
use drc_pay.Exec.{value_error, err, ok, Result}
use drc_pay.Ledger.Money.{usd, cdf, Currency}
use drc_pay.Base.{string_eq, nat_eq, ◌/◌, ◌%◌, ◌-◌, ◌==◌, ◌^◌, if◌then◌else◌, ℕ, String}

-- `provider_decimals`
unfoldable pub provider_decimals : String → Currency → ℕ
provider_decimals provider cdf = if provider == "VODACOM_MPESA_COD" then 0 else 2
provider_decimals provider usd = 2

-- `format_amount`, for up to the two places of the currency: the units that are written, or the
-- ValueError of an amount that is finer
unfoldable pub format_amount : ℕ → ℕ → Result ℕ
format_amount amount_minor decimals =
    let unit = 10 ^ (2 - decimals) in
    if amount_minor % unit == 0 then ok (amount_minor / unit) else err value_error
