-- ===== src/Transactions/Models.antt =====
-- backend/src/drc_pay_api/domains/transactions/models.py and ports.py: the workflow record of a
-- payment, and the rail that moves money outside the system. A rail keeps a state of its own type
-- `R`. A call that returns is an `Answer` (`rejected` is the exception RailRejected, which the
-- orchestrator catches); `err` is any other exception.
use drc_pay.Base.{String, Option, List}
use drc_pay.Exec.{Result}
use drc_pay.Ledger.Money.{Money}
use drc_pay.Ledger.Posting.{Posting}
use drc_pay.Dict.{Dict}
use drc_pay.Transactions.States.{TxState}

-- RAIL_VERIFIED, MERCHANT_ATTESTED
pub data Provenance : Type 0 where
  rail_verified merchant_attested : Provenance

pub record Transaction : Type 0 where
  pub id : String
  pub customer_msisdn : String
  pub merchant_msisdn : String
  pub amount : Money
  pub fee : Money
  pub state : TxState
  pub history : List TxState
  pub idempotency_key : Option String
  pub merchant_id : Option String
  pub customer_provider : Option String
  pub merchant_provider : Option String
  pub deposit_id : Option String
  pub payout_id : Option String
  pub refund_id : Option String
  pub provenance : Provenance

-- the strings "deposit", "payout" and "refund" by which the legs are named
pub data Leg : Type 0 where
  deposit payout refund : Leg

pub data Answer : Type 0 where
  accepted : Option String → Answer
  rejected : Answer

-- `PaymentRail`
pub record PaymentRail (R : Type 0) : Type 0 where
  pub request_collection : String → String → Money → String → R → Result Answer × R
  pub request_payout : String → String → Money → String → R → Result Answer × R
  pub request_refund : String → Option String → Money → String → R → Result Answer × R

-- What the channels share: the rows of the transaction store, the postings of the ledger, and the
-- state of the rail.
pub record World (R : Type 0) : Type 0 where
  pub rows : Dict String Transaction
  pub postings : List Posting
  pub rail : R
