-- ===== src/Tests.antt =====
-- Concrete payments that the theorems apply to.
use drc_pay.Base.{
  Bool, String, ℕ, ◌==◌, ◌+◌, leb, if◌then◌else◌, string_eq, ◌≡◌, refl, true, false, none, some, [],
  ◌∷◌, ⊤, arith, ◌⊎◌, ◌↔◌, is_some, length, ◌≤◌,
}
use drc_pay.Int.{pos, ◌≤ℤ◌, ◌<ℤ◌, ◌+ℤ◌}
use drc_pay.Exec.{ok}
use drc_pay.Dict.{lookup, values, insert}
use drc_pay.Ledger.Money.{Money, usd, currency_eq}
use drc_pay.Ledger.Posting.{posting}
use drc_pay.Transactions.States.{
  TxState, initiated, collection_pending, can_transition, member, pending_states,
}
use drc_pay.Transactions.Models.{
  Transaction, World, PaymentRail, Answer, accepted, Leg, deposit, rail_verified, merchant_attested,
}
use drc_pay.Transactions.Pricing.{
  collect_bps, payout_bps, collection_cost, payout_cost, default_fee,
}
use drc_pay.Transactions.Store.{save, for_transaction, clashes}
use drc_pay.Transactions.Orchestrator.{
  Start, start_transaction, new_routed, collection_leg, after_collection,
}
use drc_pay.Transactions.Steps.{transition, ask, store_op_id}
use drc_pay.Transactions.OnNet.{OnNetStart, start, new_on_net, on_confirm}
use drc_pay.Transactions.Invariant.{IsConsistent}
use drc_pay.Transactions.Rules.{Lands}
use drc_pay.Transactions.StartKeeps.{IsCovered, start_transaction-IsConsistent}
use drc_pay.Transactions.OnNetKeeps.{start-IsConsistent, on_confirm-Lands, confirmed}
use drc_pay.Application.Outcomes.{apply_outcome, ignored, awaiting_state}
use drc_pay.Transactions.Fees.{default_fee_lem}
use drc_pay.Ledger.Balance.{IsBalanced, posting_ok_iff}
use drc_pay.Auth.{
  AuthService, Readings, session_ttl, record_failure, login, resolve, logout, locked, may_enter,
}
use drc_pay.Auth.Sessions.{resolve-logout, resolve-login, login-record_failure}
use drc_pay.Charges.{
  awaiting_payment, is_dangling, Charge, charge_status, is_payable, open_status,
  is_payable-charge_status,
}
use drc_pay.Sweep.{StatusPoller, status, sweep_one, leg_for_state}
use drc_pay.Sweep.Keeps.{leg_for_state-awaiting, sweep_one-IsConsistent}
use drc_pay.Transactions.Books.{on_net_entries}
use drc_pay.Application.OutcomesKeep.{outcome_states, apply_outcome_lem, apply_outcome_once}

-- A rail that gives the same answer to every request.
abbrev pub answering : Answer → PaymentRail ⊤
answering a = record {
  request_collection = λ id msisdn amount provider s. (ok a, s);
  request_payout = λ id msisdn amount provider s. (ok a, s);
  request_refund = λ id op amount provider s. (ok a, s);
}

abbrev pub rail : PaymentRail ⊤
rail = answering (accepted (some "op-1"))

abbrev pub empty : World ⊤
empty = record { rows = []; postings = []; rail = tt }

pub empty-IsConsistent : IsConsistent empty
unfolding lookup for_transaction
empty-IsConsistent = record { keys = tt; sound = λ j. tt; unique = λ j. refl; books = λ j. refl }

abbrev pub ten_dollars : Money
ten_dollars = record { amount_minor = pos 1000; currency = usd }

abbrev pub order : Start
order = record {
  transaction_id = "t1";
  customer_msisdn = "243810000001";
  merchant_msisdn = "243990000002";
  amount = ten_dollars;
  fee = record { amount_minor = pos 45; currency = usd };
  customer_provider = "VODACOM_MPESA_COD";
  merchant_provider = "AIRTEL_COD";
  merchant_id = some "m1";
  idempotency_key = some "k1";
}

order-IsCovered : IsCovered order
unfolding collection_cost payout_cost collect_bps payout_bps ◌+ℤ◌
order-IsCovered = record { covered = omega arith; payer = refl; payee = refl }

abbrev pub started : World ⊤
started = (start_transaction rail order empty).1

pub started-IsConsistent : IsConsistent started
unfolding lookup
started-IsConsistent =
    start_transaction-IsConsistent rail order empty-IsConsistent refl order-IsCovered

start_transaction-IsConsistent_example : IsConsistent started
unfolding lookup
start_transaction-IsConsistent_example =
    start_transaction-IsConsistent rail order empty-IsConsistent refl order-IsCovered

-- The payment when its collection has been accepted by the rail.
abbrev pub awaiting : Transaction
awaiting = record {
  id = "t1";
  customer_msisdn = "243810000001";
  merchant_msisdn = "243990000002";
  amount = ten_dollars;
  fee = record { amount_minor = pos 45; currency = usd };
  state = collection_pending;
  history = initiated ∷ collection_pending ∷ [];
  idempotency_key = some "k1";
  merchant_id = some "m1";
  customer_provider = some "VODACOM_MPESA_COD";
  merchant_provider = some "AIRTEL_COD";
  deposit_id = some "op-1";
  payout_id = none;
  refund_id = none;
  provenance = rail_verified;
}

pub started_awaiting : lookup "t1" started.rows ≡ some awaiting
unfolding lookup start_transaction save new_routed transition collection_leg ask after_collection
    store_op_id insert clashes values can_transition
started_awaiting = refl

apply_outcome_lem_example :
    ((awaiting.state ≡ awaiting_state deposit)
      × Lands rail_verified
          (λ j. lookup j started.rows)
          "t1"
          (outcome_states deposit)
          (apply_outcome rail "t1" deposit true started).1)
    ⊎ (apply_outcome rail "t1" deposit true started ≡ (ok (ignored awaiting.state), started))
apply_outcome_lem_example =
    apply_outcome_lem rail "t1" awaiting started-IsConsistent started_awaiting refl deposit true

apply_outcome_once_example :
    let w' = (apply_outcome rail "t1" deposit true started).1 in
    (s : TxState) × (apply_outcome rail "t1" deposit false w' ≡ (ok (ignored s), w'))
apply_outcome_once_example =
    apply_outcome_once rail "t1" awaiting deposit true false started-IsConsistent started_awaiting
      refl

abbrev pub poller : StatusPoller ⊤
poller = record {
  get_deposit_status = λ id s. status (some "COMPLETED");
  get_payout_status = λ id s. status (some "FAILED");
  get_refund_status = λ id s. status none;
}

sweep_one-IsConsistent_example :
    IsConsistent (sweep_one rail poller awaiting (leg_for_state collection_pending) started).1
sweep_one-IsConsistent_example =
    sweep_one-IsConsistent rail poller awaiting started-IsConsistent started_awaiting

leg_for_state-awaiting_example :
    (is_some (leg_for_state collection_pending) ≡ member collection_pending pending_states)
    × ((kind : Leg)
        → leg_for_state collection_pending ≡ some kind
        → awaiting_state kind ≡ collection_pending)
leg_for_state-awaiting_example = leg_for_state-awaiting collection_pending

abbrev pub sale : OnNetStart
sale = record {
  transaction_id = "t2";
  payer_msisdn = "243810000001";
  merchant_msisdn = "243810000003";
  amount = ten_dollars;
  provider = "VODACOM_MPESA_COD";
  merchant_id = some "m2";
  idempotency_key = some "k2";
}

abbrev pub offered : World ⊤
offered = (start sale empty).1

pub offered-IsConsistent : IsConsistent offered
unfolding lookup
offered-IsConsistent = start-IsConsistent sale empty-IsConsistent refl

start-IsConsistent_example : IsConsistent (start sale empty).1
unfolding lookup
start-IsConsistent_example = start-IsConsistent sale empty-IsConsistent refl

abbrev pub unconfirmed : Transaction
unconfirmed = record {
  id = "t2";
  customer_msisdn = "243810000001";
  merchant_msisdn = "243810000003";
  amount = ten_dollars;
  fee = record { amount_minor = pos 0; currency = usd };
  state = collection_pending;
  history = initiated ∷ collection_pending ∷ [];
  idempotency_key = some "k2";
  merchant_id = some "m2";
  customer_provider = some "VODACOM_MPESA_COD";
  merchant_provider = some "VODACOM_MPESA_COD";
  deposit_id = none;
  payout_id = none;
  refund_id = none;
  provenance = merchant_attested;
}

offered_unconfirmed : lookup "t2" offered.rows ≡ some unconfirmed
unfolding lookup start save new_on_net transition insert clashes values can_transition
offered_unconfirmed = refl

on_confirm-Lands_example :
    Lands merchant_attested
      (λ j. lookup j offered.rows)
      "t2"
      (confirmed true ∷ [])
      (on_confirm "t2" true offered).1
on_confirm-Lands_example =
    on_confirm-Lands unconfirmed offered-IsConsistent offered_unconfirmed refl refl true

posting_ok_iff_example :
    (posting "t2" (on_net_entries unconfirmed)
      ≡ ok (record { transaction_id = "t2"; entries = on_net_entries unconfirmed }))
    ↔ ((2 ≤ length (on_net_entries unconfirmed)) × IsBalanced (on_net_entries unconfirmed))
posting_ok_iff_example = posting_ok_iff "t2" (on_net_entries unconfirmed)

default_fee_lem_example :
    (fee : Money) × (default_fee ten_dollars "ORANGE_COD" "AIRTEL_COD" ≡ ok fee)
    × (fee.currency ≡ usd)
    × (fee.amount_minor
        ≡ (collection_cost ten_dollars "ORANGE_COD").amount_minor
          +ℤ (payout_cost ten_dollars "AIRTEL_COD").amount_minor)
    × (pos 0 ≤ℤ fee.amount_minor)
    × (fee.amount_minor <ℤ pos 1000)
default_fee_lem_example = default_fee_lem ten_dollars "ORANGE_COD" "AIRTEL_COD" (omega arith)

abbrev pub bill : Charge
bill = record { id = "c1"; merchant_id = "m1"; amount = ten_dollars; transaction_id = some "t1" }

is_payable-charge_status_example :
    ((is_dangling bill.transaction_id none ≡ false)
      × (is_payable bill none ≡ open_status (charge_status bill none)))
    ⊎ ((is_dangling bill.transaction_id none ≡ true)
        × (is_payable bill none ≡ false)
        × (charge_status bill none ≡ awaiting_payment))
is_payable-charge_status_example = is_payable-charge_status bill none

abbrev pub enrolled : AuthService
enrolled = record {
  credentials =
      ("alpha", record { merchant_id = "m1"; username = "alpha"; password_hash = "secret" }) ∷ [];
  sessions = [];
  failures = ("alpha", (4, 9)) ∷ [];
}

abbrev pub readings : Readings
readings = record { before = 10; after = 20; utc = 1000 }

abbrev pub same_text : String → String → Bool
same_text a b = a == b

login-record_failure_example :
    login same_text
      (λ x. x)
      none
      "token"
      readings
      "alpha"
      "secret"
      (record_failure "alpha" 5 enrolled)
    ≡ (none, record_failure "alpha" 5 enrolled)
unfolding lookup
login-record_failure_example =
    login-record_failure same_text (λ x. x) none "token" readings "alpha" "secret" enrolled 5
      (omega arith) (omega arith)

resolve-login_example :
    let x = login same_text (λ x. x) none "token" readings "alpha" "secret" enrolled in
    (x.0 ≡ some "token")
    × ((later : ℕ)
        → (resolve (λ x. x) "token" later x.1).0
          ≡ (if leb (1000 + session_ttl) later then none else some "m1"))
unfolding lookup locked may_enter
resolve-login_example =
    resolve-login same_text (λ x. x) none "token" readings "alpha" "secret" enrolled
      (record { merchant_id = "m1"; username = "alpha"; password_hash = "secret" }) refl refl refl
      refl

resolve-logout_example : (resolve (λ x. x) "token" 5 (logout (λ x. x) "token" enrolled)).0 ≡ none
resolve-logout_example = resolve-logout (λ x. x) "token" 5 enrolled
