-- ===== src/Container.antt =====
-- backend/src/drc_pay_api/container.py: what the channels share. The container holds the rail, the
-- predictor and the settings; the stores hold the rows that the handlers read and write.
use drc_pay.Charges.{Charge}
use drc_pay.Merchants.{Merchant}
use drc_pay.Application.Payments.{Predictor}
use drc_pay.Dict.{Dict}
use drc_pay.Base.{Bool, String, Option}
use drc_pay.Exec.{Exec}
use drc_pay.Transactions.Models.{World, PaymentRail}

pub record Container (R : Type 0) : Type 0 where
  pub rail : PaymentRail R
  pub predictor : Option Predictor
  pub simulated : Bool
  pub demo_controls_enabled : Bool
  pub ussd_shortcode : String

-- the transaction store, the ledger and the rail's state; the merchants by id; the charges by id
pub record Stores (R : Type 0) : Type 0 where
  pub world : World R
  pub merchants : Dict String Merchant
  pub charges : Dict String Charge

module _ {R A : Type 0} where
  -- a call on the transaction store, the ledger and the rail
  abbrev pub on_world : Exec (World R) A → Exec (Stores R) A
  on_world m s = let (r, w) = m s.world in (r, record s { world = w })
