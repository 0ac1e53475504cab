-- ===== src/Ussd.antt =====
-- backend/src/drc_pay_api/ussd/session.py: a customer pays by dialling. The text of a request is all
-- that the customer has entered, read anew each time as till, amount and choice. A message is the
-- key of its template with the values that fill it.
pub mod Limiter
pub mod Keeps
pub mod Route
pub mod Pays
pub mod Entries
use drc_pay.Transactions.Store.{get}
use drc_pay.Int.{pos, ltb_ℤ}
use drc_pay.Text.{parts, show_int}
use drc_pay.Application.Payments.{start_merchant_payment, truthy, Payment}
use drc_pay.Ledger.Amounts.{to_major_str, from_user_input}
use drc_pay.Ledger.Money.{is_positive, usd, Money}
use drc_pay.Merchants.{is_active, get_by_short_code, Merchant}
use drc_pay.Container.{on_world, Stores, Container}
use drc_pay.Transactions.Models.{World, merchant_attested, Provenance, rail_verified}
use drc_pay.Exec.{ok, pure, err, Exec, Result, ◌>>=◌}
use drc_pay.Dict.{Dict}
use Prim.Native.String.{◌++◌}
use drc_pay.Base.{
  ◌||◌, [], not, leb, none, string_eq, ◌+◌, ◌==◌, some, ◌∷◌, if◌then◌else◌, ltb, Option, List,
  false, true, Bool, String, ℕ,
}

-- _MAX_AMOUNT, in minor units of _CURRENCY
abbrev pub max_amount : ℕ
max_amount = 1000000

-- _MAX_ATTEMPTS
abbrev pub max_attempts : ℕ
max_attempts = 3

pub record UssdRequest : Type 0 where
  pub session_id : String
  pub msisdn : String
  pub text : String

-- the keys of _STRINGS
pub data Message : Type 0 where
  ask_till bad_till inactive_till cancelled too_many rate_limited : Message
  ask_amount bad_amount : String → Message
  confirm routed_done : String → String → Message
  onnet_till_done onnet_msisdn_done : String → String → String → Message

pub record UssdResponse : Type 0 where
  pub message : Message
  pub continue_session : Bool

-- `UssdResponse.con` and `UssdResponse.end`
abbrev pub con : Message → UssdResponse
con m = record { message = m; continue_session = true }

abbrev pub end : Message → UssdResponse
end m = record { message = m; continue_session = false }

-- what one entry is for the field that is read
pub data Verdict (A : Type 0) : Type 0 where
  take : A → Verdict A
  miss stop : Verdict A

-- how the loop for a field ends: with a value and the entries after it, with too many misses, at an
-- entry that ends the session, or at the end of the entries, with misses or without
pub data Field (A : Type 0) : Type 0 where
  got : A → List String → Field A
  exhausted stopped : Field A
  asked : Bool → Field A

-- the three `while idx < len(parts)` loops
unfoldable pub read_field : {A : Type 0} → (String → Verdict A) → ℕ → List String → Field A
read_field verdict misses [] = asked (ltb 0 misses)
read_field verdict misses (p ∷ ps) =
    let rest = read_field verdict (misses + 1) ps in
    elim (verdict p) [
      | take a ↦ got a ps
      | stop ↦ stopped
      | miss ↦ if leb max_attempts (misses + 1) then exhausted else rest
    ]

abbrev pub till_found : Option Merchant → Verdict Merchant
till_found none = miss
till_found (some m) = if is_active m then take m else stop

unfoldable pub till_verdict : Dict String Merchant → String → Verdict Merchant
till_verdict merchants p = till_found (get_by_short_code p merchants)

abbrev pub in_range : Result Money → Option Money
in_range (err _) = none
in_range (ok amount) =
    if not (is_positive amount) || ltb_ℤ (pos max_amount) amount.amount_minor
    then none
    else some amount

-- `_parse_amount`
unfoldable pub parse_amount : String → Option Money
parse_amount text = in_range (from_user_input text usd)

abbrev pub amount_read : Option Money → Verdict Money
amount_read none = miss
amount_read (some a) = take a

unfoldable pub amount_verdict : String → Verdict Money
unfolding parse_amount
amount_verdict p = amount_read (parse_amount p)

unfoldable pub choice_verdict : String → Verdict Bool
choice_verdict p = if p == "1" then take true else if p == "2" then take false else miss

abbrev pub is_attested : Provenance → Bool
is_attested merchant_attested = true
is_attested rail_verified = false

-- the key of `_start_payment`
unfoldable pub payment_key : String → String → Merchant → Money → String
payment_key session_id msisdn merchant amount =
    "ussd:"
    ++ (session_id
        ++ (":"
            ++ (msisdn ++ (":" ++ (merchant.short_code ++ (":" ++ show_int amount.amount_minor))))))

module _ {R : Type 0} (c : Container R) (uuid : String) where
  abbrev pub ussd_payment : UssdRequest → Merchant → Money → Payment
  ussd_payment r merchant amount = record {
    simulated = c.simulated;
    customer_msisdn = r.msisdn;
    merchant = merchant;
    amount = amount;
    customer_provider_override = none;
    idempotency_key = some (payment_key r.session_id r.msisdn merchant amount);
    scenario = "success";
    defer = false;
  }

  -- `_start_payment`
  unfoldable pub start_payment : UssdRequest → Merchant → Money → Exec (World R) Bool
  unfolding payment_key
  start_payment r merchant amount = do
    id ← start_merchant_payment c.rail c.predictor uuid (ussd_payment r merchant amount)
    t ← get id
    pure (is_attested t.provenance)

  abbrev pub pay_till : Merchant → Money → Option String → UssdResponse
  pay_till merchant amount (some till) =
      end (onnet_till_done (to_major_str amount) merchant.name till)
  pay_till merchant amount none =
      end (onnet_msisdn_done (to_major_str amount) merchant.name merchant.settlement_msisdn)

  -- the closing message
  unfoldable pub closing : Merchant → Money → Bool → UssdResponse
  closing merchant amount true = pay_till merchant amount (truthy merchant.operator_till)
  closing merchant amount false = end (routed_done (to_major_str amount) merchant.name)

  -- from the choice on
  unfoldable pub at_choice :
      UssdRequest → Merchant → Money → Field Bool → Exec (Stores R) UssdResponse
  unfolding start_payment closing
  at_choice r merchant amount (got true _) = do
    on_net ← on_world (start_payment r merchant amount)
    pure (closing merchant amount on_net)
  at_choice r merchant amount (got false _) = pure (end cancelled)
  at_choice r merchant amount (asked _) = pure (con (confirm (to_major_str amount) merchant.name))
  at_choice r merchant amount _ = pure (end too_many)

  -- from the amount on
  unfoldable pub at_amount : UssdRequest → Merchant → Field Money → Exec (Stores R) UssdResponse
  unfolding at_choice
  at_amount r merchant (got amount rest) =
      at_choice r merchant amount (read_field choice_verdict 0 rest)
  at_amount r merchant (asked false) = pure (con (ask_amount merchant.name))
  at_amount r merchant (asked true) = pure (con (bad_amount merchant.name))
  at_amount r merchant _ = pure (end too_many)

  unfoldable pub at_till : UssdRequest → Field Merchant → Exec (Stores R) UssdResponse
  unfolding at_amount
  at_till r (got merchant rest) = at_amount r merchant (read_field amount_verdict 0 rest)
  at_till r stopped = pure (end inactive_till)
  at_till r exhausted = pure (end too_many)
  at_till r (asked false) = pure (con ask_till)
  at_till r (asked true) = pure (con bad_till)

  -- `UssdHandler.handle`
  unfoldable pub handle : UssdRequest → Exec (Stores R) UssdResponse
  unfolding at_till
  handle r s = at_till r (read_field (till_verdict s.merchants) 0 (parts r.text)) s
