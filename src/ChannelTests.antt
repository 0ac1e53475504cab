-- ===== src/ChannelTests.antt =====
-- Concrete requests of the channels that the theorems apply to.
use drc_pay.Transactions.States.{can_transition}
use drc_pay.Staff.AccountsKeep.{remove_staff_lem}
use drc_pay.Transactions.Steps.{store_op_id, ask, transition}
use drc_pay.Http.Keeps.{confirm_on_net_payment-IsConsistent, foreign-is_404}
use drc_pay.Transactions.Store.{clashes, save}
use drc_pay.Application.PaymentsKeep.{start_merchant_payment-IsConsistent}
use drc_pay.Staff.Accounts.{removed, count_sessions, last_staff_account, remove_staff}
use drc_pay.Ussd.Keeps.{parse_amount_bounds, KeepsWorld}
use drc_pay.Ussd.Pays.{handle-pays_confirmed, IsAnswered}
use drc_pay.Http.Orders
use drc_pay.Transactions.Orchestrator.{
  after_collection, collection_leg, new_routed, start_transaction,
}
use drc_pay.Tests.{
  started-IsConsistent, started_awaiting, offered-IsConsistent, awaiting, empty-IsConsistent,
  offered, started, empty, rail, ten_dollars,
}
use drc_pay.Staff.{credential_by_id, StaffAuth, StaffCredential}
use drc_pay.Text.{codes, rstrip, lstrip, read_digits}
use drc_pay.Ledger.Amounts.{
  rescaled, from_decimal, fraction, plain_parts, plain_decimal, from_user_input, Decimal,
}
use drc_pay.Transactions.Invariant.{IsConsistent}
use drc_pay.Http.MerchantApi.{
  create_transaction, confirm_on_net_payment, CreateTransactionRequest, get_transaction,
}
use drc_pay.Ussd.Limiter.{allow-IsLimited, allow, IsLimited, SlidingWindowLimiter}
use drc_pay.Int.{◌+ℤ◌, ◌≤ℤ◌, ◌<ℤ◌, pos}
use drc_pay.Ledger.Money.{usd, Money}
use drc_pay.Ussd.{max_amount, handle, parse_amount, UssdRequest}
use drc_pay.Container.{Stores, Container}
use drc_pay.Dict.{insert, values, lookup}
use drc_pay.Application.Payments.{start_merchant_payment, Payment}
use drc_pay.Merchants.{Status, Merchant}
use drc_pay.Base.{
  ℕ, Option, ◌≡◌, refl, true, false, none, some, [], ◌∷◌, string_eq, nat_eq, arith, ⊤, inl, inr,
  ◌⊎◌, length, String, ◌≤◌,
}
use drc_pay.Exec.{Result, http_exception, ok, err}

abbrev shop : Merchant
shop = record {
  id = "m1";
  name = "Alpha";
  short_code = "1001";
  settlement_msisdn = "243990000002";
  settlement_provider = some "AIRTEL_COD";
  status = Status.active;
  operator_till = none;
}

abbrev request : Payment
request = record {
  simulated = true;
  customer_msisdn = "243810000001";
  merchant = shop;
  amount = ten_dollars;
  customer_provider_override = some "VODACOM_MPESA_COD";
  idempotency_key = some "k1";
  scenario = "refund_fail";
  defer = false;
}

start_merchant_payment-IsConsistent_example :
    IsConsistent (start_merchant_payment rail none "t9" request empty).1
unfolding lookup
start_merchant_payment-IsConsistent_example =
    start_merchant_payment-IsConsistent rail "t9" request empty-IsConsistent refl none

abbrev demo : Container ⊤
demo = record {
  rail = rail;
  predictor = none;
  simulated = true;
  demo_controls_enabled = true;
  ussd_shortcode = "*123#";
}

abbrev stores : Stores ⊤
stores = record { world = empty; merchants = ("m1", shop) ∷ []; charges = [] }

abbrev dialled : UssdRequest
dialled = record { session_id = "s1"; msisdn = "243810000001"; text = "9*1001*10,50*1" }

abbrev ten_fifty : Money
ten_fifty = record { amount_minor = pos 1050; currency = usd }

ten_fifty_read : parse_amount "10,50" ≡ some ten_fifty
unfolding parse_amount from_user_input plain_decimal plain_parts fraction from_decimal rescaled
    lstrip rstrip read_digits ◌+ℤ◌
ten_fifty_read = refl

handle-pays_confirmed_example :
    KeepsWorld stores (handle demo "t9" dialled stores).1
    × IsAnswered demo "t9" dialled stores (handle demo "t9" dialled stores).1
unfolding lookup
handle-pays_confirmed_example =
    handle-pays_confirmed demo "t9" dialled stores empty-IsConsistent refl

parse_amount_bounds_example :
    (from_user_input "10,50" usd ≡ ok ten_fifty)
    × (pos 0 <ℤ pos 1050)
    × (pos 1050 ≤ℤ pos max_amount)
parse_amount_bounds_example = parse_amount_bounds "10,50" ten_fifty ten_fifty_read

abbrev limiter : SlidingWindowLimiter
limiter = record {
  limit = 2;
  window = 60;
  hits = ("243810000001", 5 ∷ 90 ∷ []) ∷ [];
  ops_since_sweep = 1023;
}

allow-IsLimited_example : IsLimited (allow "243810000001" 100 limiter).1
allow-IsLimited_example = allow-IsLimited "243810000001" 100 limiter (omega arith)

foreign-is_404_example :
    (get_transaction "t1" (record shop { id = "m2" }) started ≡ (err (http_exception 404), started))
    × (confirm_on_net_payment "t1" (record shop { id = "m2" }) true started
        ≡ (err (http_exception 404), started))
foreign-is_404_example =
    foreign-is_404 "t1" (record shop { id = "m2" }) true started
      (inr (awaiting, started_awaiting, refl))

confirm_on_net_payment-IsConsistent_example :
    IsConsistent (confirm_on_net_payment "t2" (record shop { id = "m2" }) true offered).1
confirm_on_net_payment-IsConsistent_example =
    confirm_on_net_payment-IsConsistent (record shop { id = "m2" }) offered offered-IsConsistent
      "t2" true

abbrev ten : String → Result Decimal
ten s = ok (record { negative = false; coefficient = 10; places = pos 0 })

abbrev posted : CreateTransactionRequest
posted = record {
  customer_msisdn = "243810000001";
  merchant_id = none;
  amount = "10";
  currency = "USD";
  customer_provider = some "VODACOM_MPESA_COD";
  scenario = "success";
  defer = false;
}

create_transaction-IsAnswered_example :
    IsConsistent (create_transaction demo "t9" ten posted shop (some "k9") started).1
    × Orders.IsAnswered demo "t9" ten posted shop
        (some "k9")
        started
        (create_transaction demo "t9" ten posted shop (some "k9") started).1
unfolding lookup start_transaction save new_routed transition collection_leg ask after_collection
    store_op_id insert clashes values can_transition
create_transaction-IsAnswered_example =
    Orders.create_transaction-IsAnswered demo "t9" ten posted shop (some "k9") started
      started-IsConsistent refl

abbrev as_number : String → Result (Option ℕ)
as_number s = ok (some (read_digits 0 (codes s)))

abbrev boss : StaffCredential
boss = record { staff_id = "s1"; username = "boss"; password_hash = "x"; role = "admin" }

abbrev clerk : StaffCredential
clerk = record { staff_id = "s2"; username = "clerk"; password_hash = "y"; role = "admin" }

abbrev office : StaffAuth
office = record {
  credentials = ("boss", boss) ∷ ("clerk", clerk) ∷ [];
  sessions = ("h", record { token_hash = "h"; staff_id = "s2"; expires_at = 9 }) ∷ [];
  failures = [];
}

remove_staff_lem_example :
    ((length office.credentials ≤ 1)
      × (remove_staff "clerk" office ≡ (inl last_staff_account, office)))
    ⊎ ((2 ≤ length office.credentials)
        × (remove_staff "clerk" office
            ≡ (inr (count_sessions "s2" office.sessions), removed "s2" office))
        × (count_sessions "s2" (removed "s2" office).sessions ≡ 0)
        × (credential_by_id "s2" (values (removed "s2" office).credentials) ≡ none))
unfolding lookup
remove_staff_lem_example = remove_staff_lem "clerk" clerk office refl
