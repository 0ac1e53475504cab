-- ===== src/Pawapay/Client.antt =====
-- backend/src/drc_pay_api/integrations/pawapay/client.py: the requests to pawaPay and the reading of the
-- answers. The HTTP client is a parameter, which gives the status code and the JSON value of an answer,
-- or raises; a request is its path and the fields of its body.
use drc_pay.Transactions.Models.{refund, payout, deposit, Leg}
use drc_pay.Sweep.{status, http_error, StatusPoller, Poll}
use drc_pay.Dict.{lookup, Dict}
use drc_pay.Pawapay.Status.{other, text, Json}
use drc_pay.Base.{Option, none, some, string_eq, nat_eq, if◌then◌else◌, leb, ℕ, String}
use Prim.Native.String.{◌++◌}

-- the value of a field: a text or what else is no object, or an object
pub data Field : Type 0 where
  plain : Json → Field
  nested : Dict String Json → Field

-- `response.json()`, and `no_json` where it raises ValueError
pub data Document : Type 0 where
  object : Dict String Field → Document
  no_object no_json : Document

pub record HttpResponse : Type 0 where
  pub status_code : ℕ
  pub body : Document

abbrev pub string_value : Option Json → Option String
string_value none = none
string_value (some (text s)) = some s
string_value (some (other _)) = none

abbrev pub plain_value : Option Field → Option Json
plain_value (some (plain v)) = some v
plain_value _ = none

-- the fields that hold the status: those of `data`, if it is an object
abbrev pub status_in : Option Field → Dict String Field → Option String
status_in (some (nested inner)) fields = string_value (lookup "status" inner)
status_in _ fields = string_value (plain_value (lookup "status" fields))

abbrev pub document_status : Document → Option String
document_status (object fields) = status_in (lookup "data" fields) fields
document_status _ = none

-- `_status`
unfoldable pub read_status : HttpResponse → Option String
read_status r = if leb 400 r.status_code then none else document_status r.body

-- the HTTP client: `get` raises `httpx.HTTPError` or answers
pub record Http (S : Type 0) : Type 0 where
  pub get : String → S → Option HttpResponse

abbrev pub poll_of : Option HttpResponse → Poll
poll_of none = http_error
poll_of (some r) = status (read_status r)

abbrev pub status_path : String → Leg → String → String
status_path base deposit id = base ++ ("/v2/deposits/" ++ id)
status_path base payout id = base ++ ("/v2/payouts/" ++ id)
status_path base refund id = base ++ ("/v2/refunds/" ++ id)

-- `get_deposit_status`, `get_payout_status` and `get_refund_status`
unfoldable pub client_poller : {S : Type 0} → Http S → String → StatusPoller S
unfolding read_status
client_poller http base = record {
  get_deposit_status = λ id s. poll_of (http.get (status_path base deposit id) s);
  get_payout_status = λ id s. poll_of (http.get (status_path base payout id) s);
  get_refund_status = λ id s. poll_of (http.get (status_path base refund id) s);
}
