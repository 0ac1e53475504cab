-- ===== src/Http/Keeps.antt =====
-- http/merchant_api.py: the payments of other merchants, and what the handlers do to store and ledger.
use drc_pay.Application.OutcomesKeep.{get_missing, get-eq}
use drc_pay.Transactions.OnNetKeeps.{on_confirm-Lands}
use drc_pay.Transactions.OnNet.{on_confirm}
use drc_pay.Ussd.Keeps.{state-get}
use drc_pay.Transactions.Focus.{IsConsistent→id}
use drc_pay.Application.PaymentsKeep.{start_merchant_payment-IsConsistent}
use drc_pay.Transactions.States.{state_eq, state_beq_iff, collection_pending}
use drc_pay.Ledger.Amounts.{from_major, Decimal}
use drc_pay.Application.Payments.{start_merchant_payment, found_by, Payment}
use drc_pay.Ussd.{is_attested}
use drc_pay.Transactions.Invariant.{IsConsistent}
use drc_pay.Dict.{lookup}
use drc_pay.Transactions.Models.{rail_verified, merchant_attested, Provenance, Transaction, World}
use drc_pay.Container.{Container}
use drc_pay.Http.MerchantApi.{
  known_scenario, api_payment, CreateTransactionRequest, create_transaction, create_or_replay,
  create_fresh, replay, confirm_attested, confirm_awaited, confirm_owned, confirm_on_net_payment,
  get_transaction,
}
use drc_pay.Transactions.Store.{get}
use drc_pay.Base.{
  ◌≡◌, refl, sym, ap, ◌∙◌, Bool, true, false, Option, none, some, ◌==◌, string_eq, nat_eq,
  Bool-cases, Option-cases, inl, inr, ◌⊎◌, String,
}
use drc_pay.Ledger.Money.{is_positive, Money}
use drc_pay.Merchants.{Merchant, is_active}
use drc_pay.Http.Guards.{or_404-err, or_404-eq, none_or, is_own, or_404, unprocessable}
use drc_pay.Exec.{
  raise-eq, bind-eq, lift_rule, seq_any, bind_rule, require_rule, raise_rule, http_exception,
  Result, ok, err, Exec, ◌>>=◌, ◌>>◌, pure, lift, require,
}
use mathlib.Core.Path.{subst}

or_404-get :
    {R : Type 0} (id : String) (w : World R) (t : Transaction)
    → lookup id w.rows ≡ some t
    → or_404 (get id) w ≡ (ok t, w)
or_404-get id w t h = or_404-eq (get id) (get-eq id h)

or_404-get_missing :
    {R : Type 0} (id : String) (w : World R)
    → lookup id w.rows ≡ none
    → or_404 (get {R = R} id) w ≡ (err (http_exception 404), w)
or_404-get_missing id w h = or_404-err (get id) (get_missing id h)

-- For a merchant a payment that is not theirs is like one that is not there.
abbrev IsForeign : {R : Type 0} → String → Merchant → World R → Type 0
IsForeign id merchant w =
    (lookup id w.rows ≡ none)
    ⊎ ((t : Transaction) × (lookup id w.rows ≡ some t) × (is_own merchant t ≡ false))

-- Asked for a payment that is absent or another merchant's, to show it or to confirm it, the server
-- answers 404 and changes nothing.
pub foreign-is_404 :
    {R : Type 0} (id : String) (merchant : Merchant) (received : Bool) (w : World R)
    → IsForeign id merchant w
    → (get_transaction id merchant w ≡ (err (http_exception 404), w))
      × (confirm_on_net_payment id merchant received w ≡ (err (http_exception 404), w))
unfolding get_transaction confirm_on_net_payment confirm_owned
foreign-is_404 id merchant received w (inl h) = (
  raise-eq (or_404 (get id)) (λ t. require (is_own merchant t) (http_exception 404) >> pure t)
      (or_404-get_missing id w h),
  raise-eq (or_404 (get id)) (confirm_owned id received merchant) (or_404-get_missing id w h),
)
foreign-is_404 id merchant received w (inr (t, h, f)) = (
  bind-eq (or_404 (get id)) (λ x. require (is_own merchant x) (http_exception 404) >> pure x)
        (or_404-get id w t h)
      ∙ raise-eq (require (is_own merchant t) (http_exception 404)) (λ _. pure t) (refused t f),
  bind-eq (or_404 (get id)) (confirm_owned id received merchant) (or_404-get id w t h)
      ∙ raise-eq (require (is_own merchant t) (http_exception 404))
          (λ _. confirm_attested id received t) (refused t f),
)
  where
    refused :
        (t : Transaction)
        → is_own merchant t ≡ false
        → require (is_own merchant t) (http_exception 404) w ≡ (err (http_exception 404), w)
    refused t f = ap (λ b. require b (http_exception 404) w) f

module _ {R : Type 0} (merchant : Merchant) (w : World R) (c : IsConsistent w) where
  confirm_awaited-IsConsistent :
      (id : String) (received : Bool) (t : Transaction)
      → lookup id w.rows ≡ some t
      → is_attested t.provenance ≡ true
      → IsConsistent (confirm_awaited id received t w).1
  unfolding confirm_awaited
  confirm_awaited-IsConsistent id received t h a =
      elim (Bool-cases (t.state == collection_pending)) [
        | inl e ↦
            let i : t.id ≡ id = IsConsistent→id id t c h in
            rw e (
              seq_any IsConsistent (on_confirm id received) (λ _. get id) w
                (subst (λ j. IsConsistent (on_confirm j received w).1) i
                  (on_confirm-Lands t c (subst (λ j. lookup j w.rows ≡ some t) (sym i) h)
                    (attested_of t.provenance a) ((state_beq_iff t.state collection_pending).0 e)
                    received).0)
                (λ _ v k. subst IsConsistent (sym (state-get id v)) k))
        | inr e ↦ rw e c
      ]
    where
      attested_of : (p : Provenance) → is_attested p ≡ true → p ≡ merchant_attested
      attested_of merchant_attested h = refl
      attested_of rail_verified h = cc

  -- Confirming or refusing any payment, as any merchant, leaves a consistent world consistent: own or
  -- not, on-net or not, awaited or not.
  pub confirm_on_net_payment-IsConsistent :
      (id : String) (received : Bool)
      → IsConsistent (confirm_on_net_payment id merchant received w).1
  unfolding confirm_on_net_payment confirm_owned confirm_attested
  confirm_on_net_payment-IsConsistent id received = elim (Option-cases (lookup id w.rows)) [
    | inl h ↦
        raise_rule IsConsistent (or_404 (get id)) (confirm_owned id received merchant)
          (or_404-get_missing id w h) c
    | inr (t, h) ↦
        bind_rule IsConsistent (or_404 (get id)) (confirm_owned id received merchant)
          (or_404-get id w t h)
          (require_rule IsConsistent (is_own merchant t) (http_exception 404)
            (confirm_attested id received t) c
            (λ own.
              require_rule IsConsistent (is_attested t.provenance) (http_exception 422)
                (confirm_awaited id received t) c
                (λ a. confirm_awaited-IsConsistent id received t h a)))
  ]

module _ {R : Type 0} (c : Container R) (uuid : String) (w : World R) (k : IsConsistent w)
    (missing : lookup uuid w.rows ≡ none) where
  replay-IsConsistent :
      (merchant : Merchant) (t : Transaction) (v : World R)
      → IsConsistent v
      → IsConsistent (replay merchant t v).1
  unfolding replay
  replay-IsConsistent merchant t v h =
      require_rule IsConsistent (is_own merchant t) (http_exception 409) (pure t) h (λ _. h)

  create_fresh-IsConsistent : (p : Payment) → IsConsistent (create_fresh c uuid p w).1
  unfolding create_fresh
  create_fresh-IsConsistent p =
      seq_any IsConsistent (start_merchant_payment c.rail c.predictor uuid p)
        (λ id. get id >>= replay p.merchant) w
        (start_merchant_payment-IsConsistent c.rail uuid p k missing c.predictor)
        (λ id v h.
          seq_any IsConsistent (get id) (replay p.merchant) v
            (subst IsConsistent (sym (state-get id v)) h)
            (λ t u l. replay-IsConsistent p.merchant t u l))

  create_or_replay-IsConsistent : (p : Payment) → IsConsistent (create_or_replay c uuid p w).1
  unfolding create_or_replay
  create_or_replay-IsConsistent p = elim (Option-cases (found_by p.idempotency_key w)) [
    | inl e ↦ rw (e, create_or_replay) (create_fresh-IsConsistent p)
    | inr (t, e) ↦ rw (e, create_or_replay) (replay-IsConsistent p.merchant t w k)
  ]

  -- A merchant's request for a payment, under a fresh id in a consistent world, leaves the world
  -- consistent, whether it is refused, repeats an earlier one, or starts a payment.
  pub create_transaction-IsConsistent :
      (decimal : String → Result Decimal) (body : CreateTransactionRequest) (merchant : Merchant)
      (key : Option String)
      → IsConsistent (create_transaction c uuid decimal body merchant key w).1
  unfolding create_transaction
  create_transaction-IsConsistent decimal body merchant key =
      require_rule IsConsistent (known_scenario body.scenario) (http_exception 422)
        (lift amount_of >>= priced) k
        (λ _. lift_rule IsConsistent amount_of priced k (λ a e.
          require_rule IsConsistent (is_positive a) (http_exception 422) (owned a) k (λ _.
            require_rule IsConsistent (none_or body.merchant_id merchant.id) (http_exception 403)
              (active a) k
              (λ _.
                require_rule IsConsistent (is_active merchant) (http_exception 422) (started a) k
                  (λ _. create_or_replay-IsConsistent (api_payment c uuid body merchant key a))))))
    where
      amount_of : Result Money
      amount_of = unprocessable (from_major decimal body.amount body.currency)

      started : Money → Exec (World R) Transaction
      started a = create_or_replay c uuid (api_payment c uuid body merchant key a)

      active : Money → Exec (World R) Transaction
      active a = require (is_active merchant) (http_exception 422) >> started a

      owned : Money → Exec (World R) Transaction
      owned a = require (none_or body.merchant_id merchant.id) (http_exception 403) >> active a

      priced : Money → Exec (World R) Transaction
      priced a = require (is_positive a) (http_exception 422) >> owned a
