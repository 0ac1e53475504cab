-- ===== src/Ledger/Money.antt =====
-- backend/src/drc_pay_api/domains/ledger/money.py: amounts in minor units with a currency.
-- A `Currency` is a key of CURRENCY_EXPONENTS, the only values that `__post_init__` lets through.
use drc_pay.Base.{
  string_eq, ℕ, String, ◌≡◌, ◌↔◌, Bool, true, arith, Eq, ◌==◌, nat_beq, if◌then◌else◌,
}
use drc_pay.Int.{ℤ, pos, ◌+ℤ◌, ◌-ℤ◌, ltb_ℤ}
use drc_pay.Exec.{Result, ok, err, unknown_currency, currency_mismatch}

pub data Currency : Type 0 where
  usd cdf : Currency

abbrev currency_index : Currency → ℕ
currency_index usd = 0
currency_index cdf = 1

abbrev pub currency_beq : Currency → Currency → Bool
currency_beq a b = nat_beq (currency_index a) (currency_index b)

pub currency_beq_iff : (a b : Currency) → (currency_beq a b ≡ true) ↔ (a ≡ b)
currency_beq_iff a b = ground arith

instance abbrev pub currency_eq : Eq Currency
currency_eq = record { beq = currency_beq; beq_iff = currency_beq_iff }

-- the keys of CURRENCY_EXPONENTS
abbrev pub currency_name : Currency → String
currency_name usd = "USD"
currency_name cdf = "CDF"

-- CURRENCY_EXPONENTS
abbrev pub exponent : Currency → ℕ
exponent usd = 2
exponent cdf = 2

-- `currency not in CURRENCY_EXPONENTS`
unfoldable pub known_currency : String → Result Currency
known_currency name =
    if name == "USD" then ok usd else if name == "CDF" then ok cdf else err unknown_currency

pub record Money : Type 0 where
  pub amount_minor : ℤ
  pub currency : Currency

-- `__add__`
unfoldable pub add : Money → Money → Result Money
add a b =
    if a.currency == b.currency
    then ok (record { amount_minor = a.amount_minor +ℤ b.amount_minor; currency = a.currency })
    else err currency_mismatch

-- `__sub__`
unfoldable pub sub : Money → Money → Result Money
sub a b =
    if a.currency == b.currency
    then ok (record { amount_minor = a.amount_minor -ℤ b.amount_minor; currency = a.currency })
    else err currency_mismatch

abbrev pub is_positive : Money → Bool
is_positive m = ltb_ℤ (pos 0) m.amount_minor
