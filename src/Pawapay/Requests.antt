-- ===== src/Pawapay/Requests.antt =====
-- backend/src/drc_pay_api/integrations/pawapay/client.py: the financial requests, the predictor and the key
-- of the callbacks. The HTTP client is a parameter, which answers or raises. An answer's JSON is as the
-- rail sees it: objects with their fields, `other` texts of what is neither text nor object.
use drc_pay.Pawapay.Client.{
  Field, HttpResponse, object, no_object, no_json, plain, nested, plain_value, string_value,
}
use drc_pay.Pawapay.Status.{Json, text, other}
use drc_pay.Pawapay.Providers.{format_amount, provider_decimals}
use drc_pay.Pawapay.Rail.{Client}
use drc_pay.Ledger.Money.{Money, currency_name}
use drc_pay.Int.{ℤ, pos, negsuc}
use drc_pay.Ledger.Amounts.{signed}
use drc_pay.Dict.{Dict, lookup}
use drc_pay.Exec.{Result, ok, err, rail_raised}
use drc_pay.Base.{
  ℕ, suc, Bool, true, false, ◌||◌, Option, none, some, List, [], ◌∷◌, ◌==◌, string_eq, String,
  if◌then◌else◌, leb,
}
use Prim.Native.String.{◌++◌}

-- the fields of a request's JSON body, with the amount as the number of units of the provider's last place
pub data RequestBody : Type 0 where
  deposit_body : String → String → String → ℤ → String → RequestBody
  payout_body : String → String → String → ℤ → String → RequestBody
  refund_body : String → String → ℤ → String → RequestBody

-- the HTTP client's `post`: `none` where it raises
pub record Poster (S : Type 0) : Type 0 where
  pub post : String → RequestBody → S → Option HttpResponse × S

-- `str` of a field that is a text or something else
abbrev pub text_of : Json → String
text_of (text s) = s
text_of (other s) = s

-- `str(data.get("status", "UNKNOWN"))`; the texts of objects are not `ACCEPTED`
abbrev pub status_text : Option Field → String
status_text none = "UNKNOWN"
status_text (some (plain v)) = text_of v
status_text (some (nested _)) = "{}"

-- `failure.get` raises where the reason is neither an object nor false in a test
abbrev pub is_falsy : Json → Bool
is_falsy (text s) = s == ""
is_falsy (other s) = s == "None" || s == "False" || s == "0" || s == "0.0" || s == "[]"

abbrev pub readable_failure : Option Field → Bool
readable_failure none = true
readable_failure (some (plain v)) = is_falsy v
readable_failure (some (nested _)) = true

-- `_ack`, as far as the rail looks at it: whether it is accepted, or an error
unfoldable pub ack : HttpResponse → Result Bool
ack r = elim r.body [
  | no_json ↦ err rail_raised
  | no_object ↦ err rail_raised
  | object fields ↦
      if readable_failure (lookup "failureReason" fields)
      then ok (status_text (lookup "status" fields) == "ACCEPTED")
      else err rail_raised
]

abbrev pub acknowledged : {S : Type 0} → Option HttpResponse × S → Result Bool × S
acknowledged (none, s) = (err rail_raised, s)
acknowledged (some r, s) = (ack r, s)

abbrev pub with_sign : Bool → Result ℕ → Result ℤ
with_sign negative (ok n) = ok (signed negative n)
with_sign negative (err e) = err e

-- `format_amount(amount, provider_decimals(provider, amount.currency))`, with its sign
unfoldable pub units : Money → String → Result ℤ
units amount provider = elim amount.amount_minor [
  | pos n ↦ with_sign false (format_amount n (provider_decimals provider amount.currency))
  | negsuc n ↦ with_sign true (format_amount (suc n) (provider_decimals provider amount.currency))
]

module _ {S : Type 0} (http : Poster S) (base : String) where
  -- the body is made before anything is sent
  abbrev pub send : String → (ℤ → RequestBody) → Result ℤ → S → Result Bool × S
  send path body (err e) s = (err rail_raised, s)
  send path body (ok n) s = acknowledged (http.post (base ++ path) (body n) s)

  -- without a message to the customer, as the rail calls it
  unfoldable pub request_deposit : String → String → String → Money → S → Result Bool × S
  unfolding units ack
  request_deposit op phone provider amount =
      send "/v2/deposits" (λ n. deposit_body op phone provider n (currency_name amount.currency))
        (units amount provider)

  unfoldable pub request_payout : String → String → String → Money → S → Result Bool × S
  unfolding units ack
  request_payout op phone provider amount =
      send "/v2/payouts" (λ n. payout_body op phone provider n (currency_name amount.currency))
        (units amount provider)

  unfoldable pub request_refund : String → String → Money → String → S → Result Bool × S
  unfolding units ack
  request_refund op deposit_id amount provider =
      send "/v2/refunds" (λ n. refund_body op deposit_id n (currency_name amount.currency))
        (units amount provider)

  -- `PawaPayClient`, as the rail's client
  abbrev pub http_client : Client S
  http_client = record {
    request_deposit = request_deposit;
    client_payout = request_payout;
    client_refund = request_refund;
  }

-- what `predict_provider` returns, or none where it raises
abbrev pub predicted : HttpResponse → Option (Option Json × (Option Json × Option Json))
predicted r = elim r.body [
  | object fields ↦ some (
    plain_value (lookup "provider" fields),
    (plain_value (lookup "phoneNumber" fields), plain_value (lookup "country" fields)),
  )
  | no_object ↦ none
  | no_json ↦ none
]

-- the answer of the key endpoint: an array of values, of which some are objects, one value, or no JSON
pub data KeyDocument : Type 0 where
  array : List (Option (Dict String Field)) → KeyDocument
  single : Option (Dict String Field) → KeyDocument
  unreadable_key : KeyDocument

abbrev pub key_of : Option (Dict String Field) → Option (Dict String Field × String)
key_of none = none
key_of (some fields) = elim (string_value (plain_value (lookup "key" fields))) [
  | none ↦ none
  | some key ↦ some (fields, key)
]

-- the objects that have a text as their key
unfoldable pub usable_keys : List (Option (Dict String Field)) → List (Dict String Field × String)
usable_keys [] = []
usable_keys (v ∷ vs) =
    let rest = usable_keys vs in elim (key_of v) [ none ↦ rest | some k ↦ k ∷ rest ]

module _ (names_curve : String → Bool) where
  abbrev pub id_text : Option Field → String
  id_text none = ""
  id_text (some (plain v)) = text_of v
  id_text (some (nested _)) = "{}"

  -- the key whose id names the curve, or else the first; `names_curve` looks for `P256` and `EC`
  unfoldable pub preferred_key : List (Dict String Field × String) → Option String
  preferred_key [] = none
  preferred_key ((fields, key) ∷ ks) =
      let rest = preferred_key ks in
      if names_curve (id_text (lookup "id" fields)) then some key else rest

  abbrev pub first_key : List (Dict String Field × String) → Option String
  first_key [] = none
  first_key ((fields, key) ∷ ks) = some key

  abbrev pub or_first : Option String → List (Dict String Field × String) → Option String
  or_first (some k) ks = some k
  or_first none ks = first_key ks

  -- `get_callback_public_key`, where the request has been answered with a status code and a document
  unfoldable pub callback_public_key : Option (ℕ × KeyDocument) → Option String
  unfolding usable_keys preferred_key
  callback_public_key none = none
  callback_public_key (some (code, unreadable_key)) = none
  callback_public_key (some (code, array vs)) =
      let keys = usable_keys vs in if leb 400 code then none else or_first (preferred_key keys) keys
  callback_public_key (some (code, single v)) =
      let keys = usable_keys (v ∷ []) in
      if leb 400 code then none else or_first (preferred_key keys) keys
