-- ===== src/Http/Orders.antt =====
-- http/merchant_api.py: which requests for a payment start one.
use drc_pay.Application.Payments.{found_by, start_merchant_payment}
use drc_pay.Container.{Container}
use drc_pay.Dict.{lookup}
use drc_pay.Exec.{
  err, Error, Exec, http_exception, lift, ok, pure, require, Result, seq_any, state-require, ◌>>=◌,
  ◌>>◌,
}
use drc_pay.Http.Guards.{is_own, none_or, unprocessable}
use drc_pay.Http.Keeps.{create_transaction-IsConsistent}
use drc_pay.Http.MerchantApi.{
  api_payment, create_fresh, create_or_replay, create_transaction, CreateTransactionRequest,
  known_scenario, replay,
}
use drc_pay.Ledger.Amounts.{Decimal, from_major}
use drc_pay.Ledger.Money.{is_positive, Money}
use drc_pay.Merchants.{is_active, Merchant}
use drc_pay.Transactions.Invariant.{IsConsistent}
use drc_pay.Transactions.Models.{Transaction, World}
use drc_pay.Transactions.Store.{get}
use drc_pay.Ussd.Keeps.{state-get}
use drc_pay.Base.{
  ◌≡◌, refl, ap, ◌∙◌, Bool, true, false, ◌⊎◌, inl, inr, none, some, Option, string_eq, nat_eq,
  eq_iff, Option-cases, String,
}

-- A guard holds and the rest runs, or it fails and nothing has changed.
require_cases :
    {S A : Type 0} (P : S → Type 0) (b : Bool) (e : Error) (k : Exec S A) (s : S)
    → (b ≡ false → P s)
    → (b ≡ true → P (k s).1)
    → P ((require b e >> k) s).1
require_cases P true e k s p q = q refl
require_cases P false e k s p q = p refl

-- The amount is read and the rest runs, or it is not and nothing has changed.
amount_cases :
    {S A : Type 0} (P : S → Type 0) (m : Result Money) (k : Money → Exec S A) (s : S)
    → ((e : Error) → m ≡ err e → P s)
    → ((a : Money) → m ≡ ok a → P (k a s).1)
    → P ((lift (unprocessable m) >>= k) s).1
amount_cases P (ok a) k s p q = q a refl
amount_cases P (err e) k s p q = p e refl

state-replay :
    {R : Type 0} (merchant : Merchant) (t : Transaction) (v : World R) → (replay merchant t v).1 ≡ v
unfolding replay
state-replay merchant t v =
    seq_any (λ u. u ≡ v) (require (is_own merchant t) (http_exception 409)) (λ _. pure t) v
      (state-require (is_own merchant t) (http_exception 409) v) (λ _ u h. h)

none_or-true : (o : Option String) (id : String) → none_or o id ≡ true → (o ≡ none) ⊎ (o ≡ some id)
none_or-true none id h = inl refl
none_or-true (some x) id h = inr (ap some ((eq_iff x id).0 h))

module _ {R : Type 0} (c : Container R) (uuid : String) (decimal : String → Result Decimal)
    (body : CreateTransactionRequest) (merchant : Merchant) (key : Option String)
    (w : World R) where
  -- An order for an amount: a known scenario, a positive amount in a known currency, for no other
  -- merchant than the one who is signed in and is active, under a key that no payment holds.
  pub record IsOrder (a : Money) : Type 0 where
    pub scenario_known : known_scenario body.scenario ≡ true
    pub read : from_major decimal body.amount body.currency ≡ ok a
    pub positive : is_positive a ≡ true
    pub own : (body.merchant_id ≡ none) ⊎ (body.merchant_id ≡ some merchant.id)
    pub active : is_active merchant ≡ true
    pub unused : found_by key w ≡ none

  -- What keeps a request from being an order.
  pub data IsNoOrder : Type 0 where
    unknown_scenario : known_scenario body.scenario ≡ false → IsNoOrder
    no_amount : (e : Error) → from_major decimal body.amount body.currency ≡ err e → IsNoOrder
    not_positive :
        (a : Money)
        → from_major decimal body.amount body.currency ≡ ok a
        → is_positive a ≡ false
        → IsNoOrder
    for_another : none_or body.merchant_id merchant.id ≡ false → IsNoOrder
    not_active : is_active merchant ≡ false → IsNoOrder
    repeated : (t : Transaction) → found_by key w ≡ some t → IsNoOrder

  abbrev pub ordered_world : Money → World R
  ordered_world a =
      (start_merchant_payment c.rail c.predictor uuid (api_payment c uuid body merchant key a) w).1

  -- The payment of an order has been started, or the request is no order and nothing has changed.
  abbrev pub IsAnswered : World R → Type 0
  IsAnswered v = ((a : Money) × IsOrder a × (v ≡ ordered_world a)) ⊎ (IsNoOrder × (v ≡ w))

  world-create_fresh :
      (a : Money)
      → (create_fresh c uuid (api_payment c uuid body merchant key a) w).1 ≡ ordered_world a
  unfolding create_fresh
  world-create_fresh a =
      seq_any (λ v. v ≡ ordered_world a)
        (start_merchant_payment c.rail c.predictor uuid (api_payment c uuid body merchant key a))
        (λ id. get id >>= replay merchant) w refl
        (λ id v h.
          seq_any (λ u. u ≡ ordered_world a) (get id) (replay merchant) v (state-get id v ∙ h)
            (λ t u l. state-replay merchant t u ∙ l))

  create_or_replay-IsAnswered :
      (a : Money)
      → (found_by key w ≡ none → IsOrder a)
      → IsAnswered (create_or_replay c uuid (api_payment c uuid body merchant key a) w).1
  unfolding create_or_replay
  create_or_replay-IsAnswered a order = elim (Option-cases (found_by key w)) [
    | inl e ↦ rw (e, create_or_replay) (inl (a, order e, world-create_fresh a))
    | inr (t, e) ↦
        rw (e, create_or_replay) (inr (IsNoOrder.repeated t e, state-replay merchant t w))
  ]

  -- A merchant's request for a payment, under a fresh id in a consistent world, leaves the world
  -- consistent. If it is an order, which is one in a known scenario, of a positive amount, for no other
  -- merchant, by an active one and under a key that no payment holds, then its payment is started; if
  -- it is none, nothing changes.
  pub create_transaction-IsAnswered :
      IsConsistent w
      → lookup uuid w.rows ≡ none
      → IsConsistent (create_transaction c uuid decimal body merchant key w).1
        × IsAnswered (create_transaction c uuid decimal body merchant key w).1
  unfolding create_transaction
  create_transaction-IsAnswered k missing = (
    create_transaction-IsConsistent c uuid w k missing decimal body merchant key,
    require_cases IsAnswered (known_scenario body.scenario) (http_exception 422)
        (lift (unprocessable amount) >>= priced) w (λ e. inr (IsNoOrder.unknown_scenario e, refl))
        (λ scenario.
          amount_cases IsAnswered amount priced w (λ e f. inr (IsNoOrder.no_amount e f, refl))
            (λ a read.
              require_cases IsAnswered (is_positive a) (http_exception 422) (owned a) w
                (λ e. inr (IsNoOrder.not_positive a read e, refl))
                (λ positive.
                  require_cases IsAnswered (none_or body.merchant_id merchant.id)
                    (http_exception 403) (active a) w (λ e. inr (IsNoOrder.for_another e, refl))
                    (λ own.
                      require_cases IsAnswered (is_active merchant) (http_exception 422) (started a)
                        w (λ e. inr (IsNoOrder.not_active e, refl))
                        (λ act. create_or_replay-IsAnswered a (λ unused. record {
                          scenario_known = scenario;
                          read = read;
                          positive = positive;
                          own = none_or-true body.merchant_id merchant.id own;
                          active = act;
                          unused = unused;
                        })))))),
  )
    where
      amount : Result Money
      amount = from_major decimal body.amount body.currency

      started : Money → Exec (World R) Transaction
      started a = create_or_replay c uuid (api_payment c uuid body merchant key a)

      active : Money → Exec (World R) Transaction
      active a = require (is_active merchant) (http_exception 422) >> started a

      owned : Money → Exec (World R) Transaction
      owned a = require (none_or body.merchant_id merchant.id) (http_exception 403) >> active a

      priced : Money → Exec (World R) Transaction
      priced a = require (is_positive a) (http_exception 422) >> owned a
