-- ===== src/Merchants.antt =====
-- backend/src/drc_pay_api/domains/merchants/models.py: the payee of a payment.
use drc_pay.Dict.{values, Dict}
use drc_pay.Base.{
  [], some, ◌==◌, ◌==◌, if◌then◌else◌, string_eq, ◌∷◌, none, List, String, Bool, true, false,
  Option,
}

-- the lifecycle strings "pending", "active", "rejected" and "suspended"
pub data Status : Type 0 where
  pending active rejected suspended : Status

pub record Merchant : Type 0 where
  pub id : String
  pub name : String
  pub short_code : String
  pub settlement_msisdn : String
  pub settlement_provider : Option String
  pub status : Status
  pub operator_till : Option String

abbrev pub status_active : Status → Bool
status_active active = true
status_active _ = false

abbrev pub is_active : Merchant → Bool
is_active m = status_active m.status

-- `InMemoryMerchantStore.get_by_short_code`
unfoldable pub by_short_code : String → List Merchant → Option Merchant
by_short_code code [] = none
by_short_code code (m ∷ ms) = if m.short_code == code then some m else by_short_code code ms

unfoldable pub get_by_short_code : String → Dict String Merchant → Option Merchant
unfolding by_short_code
get_by_short_code code rows = by_short_code code (values rows)
