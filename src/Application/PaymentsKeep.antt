-- ===== src/Application/PaymentsKeep.antt =====
-- application/payments.py: what the entry that every channel calls does to store and ledger.
use drc_pay.Transactions.Fees.{default_fee-eq}
use drc_pay.Transactions.Orchestrator.{start_transaction}
use drc_pay.Int.{◌+ℤ◌}
use drc_pay.Application.PlayOut.{play_out-IsConsistent}
use drc_pay.Transactions.OnNetKeeps.{start-IsConsistent}
use drc_pay.Transactions.StartKeeps.{start_transaction-Stands, start_states}
use drc_pay.Transactions.Pricing.{payout_cost, collection_cost}
use drc_pay.Transactions.Rules.{Stands}
use drc_pay.Transactions.OnNet.{start}
use drc_pay.Ledger.Money.{Money}
use mathlib.Core.Path.{subst}
use drc_pay.Dict.{lookup}
use drc_pay.Transactions.Invariant.{IsConsistent}
use drc_pay.Transactions.Models.{PaymentRail, World}
use drc_pay.Exec.{
  lift_rule, seq_rule, pure, ◌>>◌, state-seq-pure, ◌>>=◌, lift, err, ok, Result, Error, Exec,
  duplicate_idempotency_key,
}
use drc_pay.Application.Payments.{
  routed_start, on_net_start, find_or_start, simulate, use_on_net, start_merchant_payment,
  start_fresh, start_routed, start_on_net, found_by, demo_provider, Payment, except_duplicate,
  Predictor, or_demo, return_racer, resolve_provider, predict, truthy,
}
use drc_pay.Base.{
  arith, not, ◌&&◌, sym, inr, Option-cases, inl, string_eq, Bool-cases, ◌==◌, ◌≡◌, refl, Option,
  some, none, String, false,
}

-- A resolved operator is never the empty text.
abbrev IsNamed : String → Type 0
IsNamed p = (p == "") ≡ false

truthy-IsNamed : (o : Option String) (p : String) → truthy o ≡ some p → IsNamed p
truthy-IsNamed none p h = cc
truthy-IsNamed (some s) p h = elim (Bool-cases (s == "")) [
  | inl e ↦ cc (rw e at h)
  | inr e ↦ let q : some s ≡ some p = rw e at h in let r : s ≡ p = cc in subst IsNamed r e
]

or_demo-IsNamed : (o : Option String) (q : Option String) → truthy o ≡ q → IsNamed (or_demo q)
or_demo-IsNamed o none h = refl
or_demo-IsNamed o (some p) h = truthy-IsNamed o p h

predict-IsNamed :
    (predictor : Option Predictor) (msisdn p : String) → predict predictor msisdn ≡ ok p → IsNamed p
unfolding predict
predict-IsNamed none msisdn p h = let e : demo_provider ≡ p = cc in subst IsNamed e refl
predict-IsNamed (some f) msisdn p h = found (f msisdn) h
  where
    found :
        (x : Result (Option String))
        → (let y : Result String = elim x [ ok o ↦ ok (or_demo (truthy o)) | err e ↦ err e ] in y)
          ≡ ok p
        → IsNamed p
    found (ok o) h =
        let e : or_demo (truthy o) ≡ p = cc in subst IsNamed e (or_demo-IsNamed o (truthy o) refl)
    found (err e) h = cc

-- A resolved operator has a name.
resolve_provider-IsNamed :
    (predictor : Option Predictor) (msisdn : String) (override : Option String) (p : String)
    → resolve_provider predictor msisdn override ≡ ok p
    → IsNamed p
unfolding resolve_provider
resolve_provider-IsNamed predictor msisdn override p h = resolved (truthy override) refl h
  where
    resolved :
        (q : Option String)
        → truthy override ≡ q
        → (let y : Result String = elim q [ some x ↦ ok x | none ↦ predict predictor msisdn ] in y)
          ≡ ok p
        → IsNamed p
    resolved none e h = predict-IsNamed predictor msisdn p h
    resolved (some x) e h = let r : x ≡ p = cc in subst IsNamed r (truthy-IsNamed override x e)

module _ {R : Type 0} where
  racer_state : (key : Option String) (e : Error) (w : World R) → (return_racer key e w).1 ≡ w
  unfolding return_racer
  racer_state key duplicate_idempotency_key w = elim (Option-cases (found_by key w)) [
    | inl e ↦ rw (e, return_racer) refl
    | inr (t, e) ↦ rw (e, return_racer) refl
  ]
  racer_state key _ w = refl

  -- The handler of a lost race reads the store only.
  state-except_duplicate :
      (key : Option String) (m : Exec (World R) String) (w : World R)
      → (except_duplicate key m w).1 ≡ (m w).1
  state-except_duplicate key m w = both (m w)
    where
      both :
          (x : Result String × World R)
          → (let y : Result String × World R = elim x.0 [
            | ok id ↦ (ok id, x.1)
            | err e ↦ return_racer key e x.1
          ] in
              y.1)
            ≡ x.1
      both (ok id, w') = refl
      both (err e, w') = racer_state key e w'

module _ {R : Type 0} (rail : PaymentRail R) (uuid : String) (p : Payment) {w : World R}
    (c : IsConsistent w) (missing : lookup uuid w.rows ≡ none) where
  start_on_net-IsConsistent :
      (provider : String) → IsConsistent (start_on_net rail uuid p provider w).1
  unfolding start_on_net
  start_on_net-IsConsistent provider =
      subst IsConsistent (sym (state-seq-pure (start (on_net_start uuid p provider)) uuid w))
        (start-IsConsistent (on_net_start uuid p provider) c missing)

  -- What follows the start of a routed payment.
  simulate-IsConsistent :
      (v : World R)
      → Stands uuid start_states v
      → IsConsistent ((simulate rail uuid p >> pure uuid) v).1
  unfolding simulate
  simulate-IsConsistent v s =
      subst IsConsistent (sym (state-seq-pure (simulate rail uuid p) uuid v))
        (elim (Bool-cases (p.simulated && not p.defer)) [
          | inl e ↦ rw e (play_out-IsConsistent rail uuid p.scenario v s)
          | inr e ↦ rw e s.0
        ])

  start_routed-IsConsistent :
      (payer payee : String)
      → IsNamed payer
      → IsNamed payee
      → IsConsistent (start_routed rail uuid p payer payee w).1
  unfolding start_routed
  start_routed-IsConsistent payer payee n m = rw (default_fee-eq p.amount payer payee) (
      seq_rule IsConsistent (start_transaction rail (routed_start uuid p payer payee fee))
        (simulate rail uuid p >> pure uuid) w started.0 (simulate-IsConsistent _ started))
    where
      fee : Money
      fee = record {
        amount_minor =
            (collection_cost p.amount payer).amount_minor
            +ℤ (payout_cost p.amount payee).amount_minor;
        currency = p.amount.currency;
      }

      started :
          Stands uuid start_states
            (start_transaction rail (routed_start uuid p payer payee fee) w).1
      started =
          start_transaction-Stands rail (routed_start uuid p payer payee fee) c missing
            (record { covered = omega arith; payer = n; payee = m })

  start_fresh-IsConsistent :
      (payer payee : String)
      → IsNamed payer
      → IsNamed payee
      → IsConsistent (start_fresh rail uuid p payer payee w).1
  unfolding start_fresh
  start_fresh-IsConsistent payer payee n m = elim (Bool-cases (use_on_net payer payee)) [
    | inl e ↦ rw e (
        subst IsConsistent
          (sym (state-except_duplicate p.idempotency_key (start_on_net rail uuid p payer) w))
          (start_on_net-IsConsistent payer))
    | inr e ↦ rw e (
        subst IsConsistent
          (sym (state-except_duplicate p.idempotency_key (start_routed rail uuid p payer payee) w))
          (start_routed-IsConsistent payer payee n m))
  ]

  find_or_start-IsConsistent :
      (payer payee : String)
      → IsNamed payer
      → IsNamed payee
      → IsConsistent (find_or_start rail uuid p payer payee w).1
  unfolding find_or_start
  find_or_start-IsConsistent payer payee n m = elim (Option-cases (found_by p.idempotency_key w)) [
    | inl e ↦ rw (e, find_or_start) (start_fresh-IsConsistent payer payee n m)
    | inr (t, e) ↦ rw (e, find_or_start) c
  ]

  -- A request to pay a merchant, under a fresh id in a consistent world, leaves the world consistent:
  -- on either route, played out in any scenario on the simulator or not, whatever the rail and the
  -- predictor answer or raise, and also where the request repeats an earlier one.
  pub start_merchant_payment-IsConsistent :
      (predictor : Option Predictor)
      → IsConsistent (start_merchant_payment rail predictor uuid p w).1
  unfolding start_merchant_payment
  start_merchant_payment-IsConsistent predictor =
      lift_rule IsConsistent
        (resolve_provider predictor p.customer_msisdn p.customer_provider_override)
        (λ payer.
          lift
            (resolve_provider predictor p.merchant.settlement_msisdn p.merchant.settlement_provider)
          >>= find_or_start rail uuid p payer)
        c
        (λ payer h.
          lift_rule IsConsistent
            (resolve_provider predictor p.merchant.settlement_msisdn p.merchant.settlement_provider)
            (find_or_start rail uuid p payer) c
            (λ payee k.
              find_or_start-IsConsistent payer payee (resolve_provider-IsNamed _ _ _ payer h)
                (resolve_provider-IsNamed _ _ _ payee k)))
