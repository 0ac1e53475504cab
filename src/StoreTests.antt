-- ===== src/StoreTests.antt =====
-- Concrete databases, sweeps and sign-ups, as tests of what is stated about them.
use drc_pay.Sql.Charges.{
  charge-save_charge, sql_charge, blank_charge, no_clash, charge_id, charge_fits, sql_save_charge,
  ChargeRow,
}
use drc_pay.Charges.{Charge}
use drc_pay.Application.Onboarding.{next_short_code, with_status}
use drc_pay.Http.Admin.{approve_merchant}
use drc_pay.Merchants.{get_by_short_code, Status, Merchant}
use drc_pay.Sql.Refine.{run_refines}
use drc_pay.Sql.LedgerRead.{for_transaction-post_all}
use drc_pay.Transactions.Store.{clashes, save, for_transaction}
use drc_pay.Sql.Transactions.{same_key, row_id, row_fits}
use drc_pay.Http.SignupKeep.{entered, approved, post_signup-approve-login, joined, newcomer}
use drc_pay.Sql.Grouping.{post_all, IsMade}
use drc_pay.Sql.Table.{made, overflowed, is_bigint, listed}
use drc_pay.Sweep.Pass.{reconcile_pending-IsConsistent}
use drc_pay.Text.{is_digit, show_nat}
use drc_pay.Sql.Ledger.{entries_fit, sql_for_transaction}
use drc_pay.Int.{◌-ℤ◌, ◌+ℤ◌, pos}
use drc_pay.Staff.{StaffPrincipal}
use drc_pay.Auth.{locked, Readings}
use drc_pay.Http.SignupRoute.{
  known_provider, is_till, is_drc_number, valid_settlement, post_signup, valid_names, SignupRequest,
}
use drc_pay.Http.Session.{strip_text, current_merchant, auth_login, rstrip_text, lstrip_text, Site}
use drc_pay.Ledger.Posting.{all_zero, add_total, credit, sum_totals, debit, posting, Posting}
use drc_pay.Ledger.Money.{usd, Money}
use drc_pay.Dict.{insert, lookup, Dict, values}
use drc_pay.Sql.Calls.{
  memory_step, memory_run, op_pending, op_by_op, op_get, IsStorable, sql_run, op_save, Op,
}
use drc_pay.Sql.Rows.{to_domain-filled, blank_row, filled, to_domain}
use drc_pay.Transactions.Invariant.{IsConsistent}
use drc_pay.Sweep.{reconcile_pending, status, StatusPoller}
use drc_pay.Base.{
  if◌then◌else◌, ◌⊎◌, ◌≡◌, refl, Bool, true, false, ◌&&◌, Option, none, some, List, [], ◌∷◌, ◌==◌,
  string_eq, nat_eq, arith, ⊤, ℕ, String,
}
use drc_pay.Exec.{Result, http_exception, ok, err}
use drc_pay.Tests.{started, awaiting, started-IsConsistent, rail, empty}

-- A poller that knows every operation as completed.
abbrev completed : StatusPoller ⊤
completed = record {
  get_deposit_status = λ op r. status (some "COMPLETED");
  get_payout_status = λ op r. status (some "COMPLETED");
  get_refund_status = λ op r. status none;
}

reconcile_pending-IsConsistent_example : IsConsistent (reconcile_pending rail completed started).1
reconcile_pending-IsConsistent_example =
    reconcile_pending-IsConsistent rail completed started started-IsConsistent

to_domain-filled_example : to_domain (filled awaiting (blank_row "t1")) ≡ ok awaiting
to_domain-filled_example = to_domain-filled awaiting (blank_row "t1") refl refl

abbrev calls : List Op
calls =
    op_save awaiting
    ∷ op_save (record awaiting { id = "t3" })
    ∷ op_get "t1"
    ∷ op_pending
    ∷ op_by_op "op-1"
    ∷ []

storable : (id : String) → IsStorable (record awaiting { id = id })
unfolding is_bigint
storable id = record { one_currency = refl; amount_fits = refl; fee_fits = refl }

run_refines_example :
    sql_run (listed row_id same_key row_fits) calls [] ≡ memory_run {R = ⊤} calls empty
unfolding values memory_step save clashes insert lookup
run_refines_example =
    run_refines (listed row_id same_key row_fits) calls [] empty
      (record { keyed = tt; fit = tt; rows = refl })
      (storable "t1", (storable "t3", (tt, (tt, (omega arith, tt)))))

abbrev ten_usd : Money
ten_usd = record { amount_minor = pos 1000; currency = usd }

abbrev sale : String → Posting
sale id = record {
  transaction_id = id;
  entries =
      record { account = "a"; direction = debit; amount = ten_usd }
      ∷ record { account = "b"; direction = credit; amount = ten_usd }
      ∷ [];
}

abbrev postings : Dict String Posting
postings = ("p1", sale "t1") ∷ ("p2", sale "t2") ∷ ("p3", sale "t1") ∷ []

sale-IsMade : (id : String) → IsMade ("p", sale id)
unfolding posting sum_totals add_total all_zero lookup insert ◌+ℤ◌ ◌-ℤ◌ entries_fit
sale-IsMade id = (refl, refl)

for_transaction-post_all_example :
    sql_for_transaction "t1" (post_all postings []) ≡ ok (for_transaction "t1" (values postings))
unfolding lookup
for_transaction-post_all_example =
    for_transaction-post_all "t1" postings (refl, (refl, (refl, tt)))
      (sale-IsMade "t1", (sale-IsMade "t2", (sale-IsMade "t1", tt)))

abbrev nobody : Site
nobody = record {
  merchants = [];
  auth = record { credentials = []; sessions = []; failures = [] };
  staff = record { credentials = []; sessions = []; failures = [] };
}

abbrev applicant : SignupRequest
applicant = record {
  name = "Alpha";
  settlement_msisdn = " +243990000002";
  settlement_provider = some "AIRTEL_COD";
  operator_till = some "12345";
  username = "alpha";
  password = "correct horse";
}

applicant_valid : (valid_names applicant && valid_settlement is_digit applicant) ≡ true
unfolding valid_names valid_settlement is_drc_number is_till known_provider lstrip_text rstrip_text
applicant_valid = refl

abbrev clock : Readings
clock = record { before = 0; after = 1; utc = 10 }

abbrev administrator : StaffPrincipal
administrator = record { staff_id = "s1"; username = "root"; role = "admin" }

abbrev no_numbers : String → Result (Option ℕ)
no_numbers s = ok none

first_code : next_short_code no_numbers nobody.merchants ≡ ok "1001"
unfolding next_short_code values show_nat get_by_short_code
first_code = refl

-- the stores of the example after the sign-up, after the approval and after the sign-in
abbrev first : Merchant
first = newcomer is_digit no_numbers "m7" "hash" applicant nobody "1001"

abbrev with_first : Site
with_first = joined is_digit no_numbers "m7" "hash" applicant nobody "1001"

abbrev with_active : Site
with_active = approved is_digit no_numbers "m7" "hash" applicant nobody "1001"

abbrev right_password : String → String → Bool
right_password hash password = hash == "hash"

abbrev plain_token : String → String
plain_token t = t

unlocked : locked (strip_text applicant.username) clock.before nobody.auth ≡ false
unfolding locked lookup
unlocked = refl

abbrev with_session_of_first : Site
with_session_of_first =
    entered is_digit no_numbers "m7" "hash" applicant nobody "1001" right_password plain_token
      "token" clock refl unlocked

post_signup-approve-login_example :
    (post_signup is_digit no_numbers "m7" "hash" applicant nobody ≡ (ok first, with_first))
    × ((auth_login right_password plain_token "token" clock
          (strip_text applicant.username)
          "correct horse"
          with_first).0
        ≡ err (http_exception 401))
    × (approve_merchant "m7" administrator with_first
        ≡ (ok (with_status Status.active first), with_active))
    × (auth_login right_password plain_token "token" clock
          (strip_text applicant.username)
          "correct horse"
          with_active
        ≡ (ok ("token", with_status Status.active first), with_session_of_first))
    × (current_merchant plain_token 20 "" "token" with_session_of_first
        ≡ (ok (with_status Status.active first), with_session_of_first))
unfolding lookup
post_signup-approve-login_example =
    post_signup-approve-login is_digit no_numbers "m7" "hash" applicant nobody "1001" right_password
      plain_token "token" clock refl unlocked administrator 20 first_code applicant_valid refl refl
      refl (omega arith)

abbrev bill : Charge
bill = record { id = "c1"; merchant_id = "m1"; amount = ten_usd; transaction_id = none }

charge-save_charge_example :
    ((is_bigint bill.amount.amount_minor ≡ true)
      × ((d : List ChargeRow) × (sql_save_charge
              (listed charge_id no_clash charge_fits)
              bill
              (blank_charge "c1" ∷ [])
            ≡ made d)
          × ((k : String)
              → sql_charge (listed charge_id no_clash charge_fits) k d ≡ (
                  if bill.id == k
                  then ok bill
                  else sql_charge
                      (listed charge_id no_clash charge_fits)
                      k
                      (blank_charge "c1" ∷ [])))))
    ⊎ ((is_bigint bill.amount.amount_minor ≡ false)
        × (sql_save_charge (listed charge_id no_clash charge_fits) bill (blank_charge "c1" ∷ [])
            ≡ overflowed))
charge-save_charge_example =
    charge-save_charge (listed charge_id no_clash charge_fits) bill (blank_charge "c1" ∷ [])
