-- ===== src/Pawapay/Rail.antt =====
-- backend/src/drc_pay_api/integrations/pawapay/rail.py: the rail over the pawaPay client. The client's
-- requests and `uuid5` in the fixed namespace are parameters; a request that returns is accepted or
-- not, and `err` is any exception.
use drc_pay.Base.{true, false, none, some, Bool, Option}
use drc_pay.Exec.{err, ok, Result}
use drc_pay.Ledger.Money.{Money}
use drc_pay.Transactions.Models.{
  refund, rejected, accepted, payout, Answer, deposit, PaymentRail, Leg,
}
use Prim.Native.String.{String, ◌++◌}

-- `PawaPayClient`, as far as the rail calls it
pub record Client (S : Type 0) : Type 0 where
  pub request_deposit : String → String → String → Money → S → Result Bool × S
  pub client_payout : String → String → String → Money → S → Result Bool × S
  pub client_refund : String → String → Money → String → S → Result Bool × S

-- the names of the legs
abbrev pub leg_name : Leg → String
leg_name deposit = "deposit"
leg_name payout = "payout"
leg_name refund = "refund"

-- `_op_id`
unfoldable pub rail_op_id : (String → String) → String → Leg → String
rail_op_id uuid5 id kind = uuid5 (id ++ (":" ++ leg_name kind))

-- `_ensure_accepted`, and the return of the id
unfoldable pub ensure_accepted : {S : Type 0} → String → Result Bool × S → Result Answer × S
ensure_accepted op (ok true, s) = (ok (accepted (some op)), s)
ensure_accepted op (ok false, s) = (ok rejected, s)
ensure_accepted op (err e, s) = (err e, s)

module _ {S : Type 0} (client : Client S) (uuid5 : String → String) where
  unfoldable pub rail_collection : String → String → Money → String → S → Result Answer × S
  unfolding rail_op_id ensure_accepted
  rail_collection id msisdn amount provider s =
      let op = rail_op_id uuid5 id deposit in
      ensure_accepted op (client.request_deposit op msisdn provider amount s)

  unfoldable pub rail_payout : String → String → Money → String → S → Result Answer × S
  unfolding rail_op_id ensure_accepted
  rail_payout id msisdn amount provider s =
      let op = rail_op_id uuid5 id payout in
      ensure_accepted op (client.client_payout op msisdn provider amount s)

  unfoldable pub rail_refund : String → Option String → Money → String → S → Result Answer × S
  unfolding rail_op_id ensure_accepted
  rail_refund id none amount provider s = (ok rejected, s)
  rail_refund id (some deposit_id) amount provider s =
      let op = rail_op_id uuid5 id refund in
      ensure_accepted op (client.client_refund op deposit_id amount provider s)

  -- `PawaPayRail`
  abbrev pub pawapay_rail : PaymentRail S
  pawapay_rail = record {
    request_collection = rail_collection;
    request_payout = rail_payout;
    request_refund = rail_refund;
  }
