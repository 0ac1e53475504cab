-- ===== src/GateTests.antt =====
-- Concrete amounts, callbacks, requests and tables, as tests of what is stated about them.
use drc_pay.Ledger.Money.{usd}
use drc_pay.Ledger.Amounts.{Decimal, to_major_str, from_user_input}
use drc_pay.Ledger.RoundTrip.{from_user_input-to_major_str}
use drc_pay.Int.{pos}
use drc_pay.Exec.{arithmetic_error, err, http_exception, ok, Result}
use drc_pay.Application.Onboarding.{first_free}
use drc_pay.Application.Onboarding.Search.{first_free-stops}
use drc_pay.Merchants.{Merchant, Status, get_by_short_code}
use drc_pay.Text.{show_nat, codes, lstrip, rstrip, read_digits}
use drc_pay.Dict.{Dict, insert, lookup, values}
use drc_pay.Auth.{MerchantCredential}
use drc_pay.Pawapay.Scan.{
  digest_parts, input_parts, words, lstrip_quotes, rstrip_quotes, find_params, last_value,
  find_signature, span, after_char, after_text, param_at,
}
use drc_pay.Pawapay.Signatures.{
  Crypto, Callback, good, bad, signature_error, verify_pawapay_signature, check_input,
  parse_signature_input, get_header, check_content_digest, created_at, build_signature_base,
  component_value, parse_signature, der_sig, check_signature,
}
use drc_pay.Pawapay.Signatures.Accepts.{
  IsSigned, verify_pawapay_signature_iff, replayed-is_refused, tampered-is_refused,
}
use drc_pay.Http.Gate.{
  Settings, passed_on, sandbox-gate, basic_credentials, gate, startup_error, partition, is_gated,
  basic_auth_ok,
}
use drc_pay.Sql.Table.{always_fits, listed, violates, put, fetch_row}
use drc_pay.Sql.Accounts.{
  credential_key, same_username, sql_save_credential, sql_credential_by_username,
}
use drc_pay.Sql.Names.{by_username-save_credential, save_credential-taken}
use drc_pay.Sql.Keyed.{keyed_save, keyed_first}
use drc_pay.Tests.{awaiting, rail, empty}
use drc_pay.Container.{Container, Stores}
use drc_pay.Http.PublicRoutes.{PayRequest, network_of, outcome_of, pay}
use drc_pay.Http.Paid.{paid-is_closed}
use drc_pay.Charges.{Charge, is_payable}
use drc_pay.Transactions.Models.{Transaction}
use drc_pay.Transactions.States.{
  collection_failed, collection_pending, can_transition, member, transitions,
}
use drc_pay.Transactions.OnNet.{start, new_on_net}
use drc_pay.Transactions.Steps.{transition}
use drc_pay.Transactions.Store.{save, clashes, get}
use drc_pay.Http.Guards.{charge_tx_state}
use drc_pay.Application.Payments.{
  start_merchant_payment, resolve_provider, find_or_start, use_on_net, on_net_provider,
  start_on_net,
}
use drc_pay.Base.{
  sym, ◌∙◌, ◌⊎◌, ⊤, ◌↔◌, ◌≡◌, ◌≢◌, refl, true, none, some, List, [], ◌∷◌, string_eq, nat_eq, arith,
  ℕ, String, suc, length, ◌+◌,
}

from_user_input-to_major_str_example :
    from_user_input (to_major_str (record { amount_minor = pos 1050; currency = usd })) usd
    ≡ ok (record { amount_minor = pos 1050; currency = usd })
from_user_input-to_major_str_example = from_user_input-to_major_str 1050 usd refl

abbrev shop : String → String → Merchant
shop id code = record {
  id = id;
  name = id;
  short_code = code;
  settlement_msisdn = "243973456789";
  settlement_provider = none;
  status = Status.active;
  operator_till = none;
}

abbrev shops : Dict String Merchant
shops = ("m1", shop "m1" "1001") ∷ ("m2", shop "m2" "1002") ∷ []

first_free-stops_example :
    get_by_short_code (show_nat (first_free (suc (length shops)) 1001 shops) "") shops ≡ none
first_free-stops_example = first_free-stops 1001 shops

-- A library whose hashes are the length, whose base64 is the text itself and whose one key takes the
-- signature that is the base.
abbrev plain : Crypto ℕ
plain = record {
  sha256 = λ s. (48 + length s) ∷ [];
  sha512 = λ s. (48 + length s) ∷ [];
  b64encode = λ s. s;
  b64decode = λ s. some s;
  load_key = λ s. some 1;
  is_elliptic = λ k. true;
  encode_dss = λ r s. [];
  verifies = λ k s base. true;
}

abbrev callback : Callback
callback = record {
  method = codes "POST";
  path = codes "/webhooks/pawapay";
  host = codes "Pay.example";
  headers =
      (codes "Content-Digest", codes "sha-256=:3:")
      ∷ (codes "signature-input", codes "sig-pp=(\"@method\" \"@path\");created=1000")
      ∷ (codes "signature", codes "sig-pp=:AAAA:")
      ∷ [];
  raw_body = 1 ∷ 2 ∷ 3 ∷ [];
}

accepted : verify_pawapay_signature plain (codes "key") callback 1100 ≡ good tt
unfolding verify_pawapay_signature check_input parse_signature_input get_header check_content_digest
    created_at build_signature_base component_value parse_signature der_sig check_signature
    digest_parts input_parts words lstrip_quotes rstrip_quotes find_params last_value find_signature
    span after_char after_text param_at lstrip rstrip read_digits
accepted = refl

verify_pawapay_signature_iff_example :
    (verify_pawapay_signature plain (codes "key") callback 1100 ≡ good tt)
    ↔ IsSigned plain (codes "key") callback 1100
verify_pawapay_signature_iff_example =
    verify_pawapay_signature_iff plain (codes "key") callback 1100

replayed-is_refused_example :
    verify_pawapay_signature plain (codes "key") callback 1701 ≡ bad signature_error
replayed-is_refused_example =
    replayed-is_refused plain (codes "key") callback 1100 1701 accepted (omega arith)

same_head : (a b : ℕ) → (a ∷ []) ≡ (b ∷ []) → a ≡ b
same_head a b h = cc

other_length : ◌≢◌ {A = List ℕ} (49 ∷ []) (51 ∷ [])
other_length h = omega (arith, same_head 49 51 h)

tampered-is_refused_example :
    verify_pawapay_signature plain (codes "key") (record callback { raw_body = 1 ∷ [] }) 1100
    ≡ bad signature_error
tampered-is_refused_example =
    tampered-is_refused plain (codes "key") callback 1100 (1 ∷ []) accepted other_length
      other_length

abbrev sandbox : Settings
sandbox = record {
  environment = "sandbox";
  basic_auth_password = codes "secret";
  ussd_shared_secret = [];
}

sandbox_starts : startup_error sandbox ≡ none
unfolding startup_error
sandbox_starts = refl

docs_gated : is_gated (codes "/docs") ≡ true
unfolding is_gated after_text
docs_gated = refl

docs_opened :
    gate some some sandbox (codes "GET") (codes "/docs") (codes "Basic drcpay:secret")
    ≡ good passed_on
unfolding gate is_gated basic_auth_ok basic_credentials after_text partition
docs_opened = refl

sandbox-gate_example :
    basic_credentials some some (codes "Basic drcpay:secret")
    ≡ some (codes "drcpay", codes "secret")
sandbox-gate_example =
    sandbox-gate some some sandbox (codes "GET") (codes "/docs") (codes "Basic drcpay:secret")
      sandbox_starts refl (λ h. cc) docs_gated docs_opened

abbrev login_of : String → String → MerchantCredential
login_of id name = record { merchant_id = id; username = name; password_hash = "hash" }

abbrev logins : List MerchantCredential
logins = login_of "m1" "alpha" ∷ login_of "m2" "beta" ∷ []

renamed :
    sql_save_credential
      (listed credential_key same_username always_fits)
      (login_of "m1" "gamma")
      logins
    ≡ some (login_of "m1" "gamma" ∷ login_of "m2" "beta" ∷ [])
unfolding sql_save_credential keyed_save fetch_row violates put
renamed = refl

by_username-save_credential_example :
    sql_credential_by_username
      (listed credential_key same_username always_fits)
      "gamma"
      (login_of "m1" "gamma" ∷ login_of "m2" "beta" ∷ [])
    ≡ some (login_of "m1" "gamma")
by_username-save_credential_example =
    by_username-save_credential (listed credential_key same_username always_fits)
      (login_of "m1" "gamma") logins (login_of "m1" "gamma" ∷ login_of "m2" "beta" ∷ []) renamed

beta_taken :
    sql_credential_by_username (listed credential_key same_username always_fits) "beta" logins
    ≡ some (login_of "m2" "beta")
unfolding sql_credential_by_username keyed_first
beta_taken = refl

save_credential-taken_example :
    sql_save_credential
      (listed credential_key same_username always_fits)
      (login_of "m1" "beta")
      logins
    ≡ none
save_credential-taken_example =
    save_credential-taken (listed credential_key same_username always_fits) (login_of "m1" "beta")
      logins (login_of "m2" "beta") beta_taken refl

abbrev page : Container ⊤
page = record {
  rail = rail;
  predictor = none;
  simulated = true;
  demo_controls_enabled = true;
  ussd_shortcode = "*123#";
}

abbrev bill : Charge
bill = record {
  id = "c1";
  merchant_id = "m1";
  amount = record { amount_minor = pos 1050; currency = usd };
  transaction_id = none;
}

abbrev page_stores : Stores ⊤
page_stores = record {
  world = empty;
  merchants = ("m1", record (shop "m1" "1001") { settlement_provider = some "AIRTEL_COD" }) ∷ [];
  charges = ("c1", bill) ∷ [];
}

abbrev order : String → PayRequest
order outcome = record {
  charge_id = some "c1";
  merchant_id = "";
  amount = "";
  outcome = outcome;
  payer_network = "airtel";
}

abbrev no_decimal : String → Result Decimal
no_decimal s = err arithmetic_error

abbrev answer : Result Transaction → Transaction
answer (ok t) = t
answer (err _) = awaiting

abbrev first_payment : Result Transaction × Stores ⊤
first_payment = pay page "t1" no_decimal (order "success") page_stores

bill_paid :
    pay page "t1" no_decimal (order "success") page_stores
    ≡ (ok (answer first_payment.0), first_payment.1)
unfolding pay outcome_of network_of lookup is_payable start_merchant_payment resolve_provider
    find_or_start use_on_net on_net_provider start_on_net start new_on_net transition can_transition
    member transitions save clashes values insert get charge_tx_state
bill_paid = refl

bill_pending : (answer first_payment.0).state ≡ collection_pending
unfolding pay outcome_of network_of lookup is_payable start_merchant_payment resolve_provider
    find_or_start use_on_net on_net_provider start_on_net start new_on_net transition can_transition
    member transitions save clashes values insert get charge_tx_state
bill_pending = refl

bill_settled : (answer first_payment.0).state ≢ collection_failed
bill_settled h = cc (sym bill_pending ∙ h)

paid-is_closed_example :
    (pay page "t2" no_decimal (order "decline") first_payment.1
      ≡ (err (http_exception 409), first_payment.1))
    ⊎ (pay page "t2" no_decimal (order "decline") first_payment.1
        ≡ (err (http_exception 422), first_payment.1))
unfolding lookup
paid-is_closed_example =
    paid-is_closed page "t1" no_decimal (order "success") "c1" page_stores bill
      (answer first_payment.0) first_payment.1 refl refl refl bill_paid bill_settled "t2" no_decimal
      (order "decline") refl
