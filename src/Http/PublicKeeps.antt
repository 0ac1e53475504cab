-- ===== src/Http/PublicKeeps.antt =====
-- http/public_routes.py: what a payment from a page leaves behind.
use drc_pay.Base.{
  ◌≡◌, refl, sym, ◌∙◌, Option, none, some, string_eq, nat_eq, Option-cases, inl, inr, String,
}
use drc_pay.Dict.{lookup, Dict}
use drc_pay.Container.{on_world, Stores, Container}
use drc_pay.Transactions.Invariant.{IsConsistent}
use drc_pay.Transactions.Models.{Transaction}
use drc_pay.Transactions.States.{TxState}
use drc_pay.Transactions.Store.{get}
use drc_pay.Charges.{Charge, is_payable}
use drc_pay.Merchants.{Merchant}
use drc_pay.Ledger.Money.{Money, is_positive}
use drc_pay.Ledger.Amounts.{Decimal, from_major}
use drc_pay.Application.Payments.{truthy, start_merchant_payment}
use drc_pay.Application.PaymentsKeep.{start_merchant_payment-IsConsistent}
use drc_pay.Ussd.Keeps.{state-get}
use drc_pay.Http.Guards.{unprocessable, charge_tx_state, row, or_404, not_found}
use drc_pay.Http.PublicRoutes.{
  PayRequest, outcome_of, network_of, or_http, Target, charge_target, direct_target, target_of,
  link_charge, page_payment, pay_target, pay,
}
use drc_pay.Exec.{
  pure, require, lift, ok, err, http_exception, Exec, Result, ◌>>=◌, ◌>>◌, seq_any, seq_mid,
  lift_rule, require_rule, state-require,
}
use mathlib.Core.Path.{subst}

module _ {S : Type 0} where
  read_seq :
      {A B : Type 0} (m : Exec S A) (f : A → Exec S B)
      → ((s : S) → (m s).1 ≡ s)
      → ((a : A) (s : S) → (f a s).1 ≡ s)
      → (s : S) → ((m >>= f) s).1 ≡ s
  read_seq m f p q s = seq_any (λ v. v ≡ s) m f s (p s) (λ a v h. q a v ∙ h)

  read_row : {V : Type 0} (id : String) (rows : S → Dict String V) (s : S) → (row id rows s).1 ≡ s
  read_row id rows s = elim (Option-cases (lookup id (rows s))) [
    | inl e ↦ rw (e, row) refl
    | inr (v, e) ↦ rw (e, row) refl
  ]

  read_or_404 : {A : Type 0} (m : Exec S A) → ((s : S) → (m s).1 ≡ s) → (s : S) → (or_404 m s).1 ≡ s
  read_or_404 {A} m p s = both (m s) (p s)
    where
      both :
          (x : Result A × S)
          → x.1 ≡ s
          → (let y : Result A × S = elim x.0 [
            | ok a ↦ (ok a, x.1)
            | err e ↦ (err (not_found e), x.1)
          ] in
              y.1)
            ≡ s
      both (ok a, v) h = h
      both (err e, v) h = h

module _ {R : Type 0} where
  read_charge_target : (id : String) (s : Stores R) → (charge_target id s).1 ≡ s
  unfolding charge_target
  read_charge_target id =
      read_seq (or_404 (row id (λ s. s.charges))) found
        (read_or_404 _ (read_row id (λ s. s.charges)))
        (λ charge.
          read_seq (λ s. (ok (charge_tx_state charge s), s)) (tested charge) (λ s. refl)
            (λ state.
              read_seq (require (is_payable charge state) (http_exception 409)) (λ _. owner charge)
                (state-require (is_payable charge state) (http_exception 409))
                (λ _.
                  read_seq (row charge.merchant_id (λ s. s.merchants)) (λ m. pure (target charge m))
                    (read_row charge.merchant_id (λ s. s.merchants)) (λ m s. refl))))
    where
      target : Charge → Merchant → Target
      target charge m = record { charge = some charge; merchant = m; amount = charge.amount }

      owner : Charge → Exec (Stores R) Target
      owner charge = row charge.merchant_id (λ s. s.merchants) >>= λ m. pure (target charge m)

      tested : Charge → Option TxState → Exec (Stores R) Target
      tested charge state = require (is_payable charge state) (http_exception 409) >> owner charge

      found : Charge → Exec (Stores R) Target
      found charge = (λ s. (ok (charge_tx_state charge s), s)) >>= tested charge

  read_direct_target :
      (decimal : String → Result Decimal) (merchant_id major : String) (s : Stores R)
      → (direct_target decimal merchant_id major s).1 ≡ s
  unfolding direct_target
  read_direct_target decimal merchant_id major =
      read_seq (lift (unprocessable (from_major decimal major "USD"))) priced (λ s. refl)
        (λ a.
          read_seq (require (is_positive a) (http_exception 422)) (λ _. payee a)
            (state-require (is_positive a) (http_exception 422))
            (λ _.
              read_seq (or_404 (row merchant_id (λ s. s.merchants))) (λ m. pure (target a m))
                (read_or_404 _ (read_row merchant_id (λ s. s.merchants))) (λ m s. refl)))
    where
      target : Money → Merchant → Target
      target a m = record { charge = none; merchant = m; amount = a }

      payee : Money → Exec (Stores R) Target
      payee a = or_404 (row merchant_id (λ s. s.merchants)) >>= λ m. pure (target a m)

      priced : Money → Exec (Stores R) Target
      priced a = require (is_positive a) (http_exception 422) >> payee a

  pub read_target :
      (decimal : String → Result Decimal) (body : PayRequest) (o : Option String) (s : Stores R)
      → (target_of decimal body o s).1 ≡ s
  unfolding target_of
  read_target decimal body none = read_direct_target decimal body.merchant_id body.amount
  read_target decimal body (some id) = read_charge_target id

  world-link_charge :
      (o : Option Charge) (id : String) (s : Stores R) → (link_charge o id s).1.world ≡ s.world
  unfolding link_charge
  world-link_charge none id s = refl
  world-link_charge (some c) id s = refl

  abbrev Sound : Stores R → Type 0
  Sound s = IsConsistent s.world

  module _ (c : Container R) (uuid : String) (s : Stores R) (k : IsConsistent s.world)
      (missing : lookup uuid s.world.rows ≡ none) where
    pay_target-Sound :
        (outcome network : String × String) (t : Target)
        → Sound (pay_target c uuid outcome network t s).1
    unfolding pay_target
    pay_target-Sound outcome network t =
        seq_any Sound
          (on_world (
            start_merchant_payment c.rail c.predictor uuid (page_payment c uuid outcome network t)))
          (λ id. link_charge t.charge id >> on_world (get id)) s
          (start_merchant_payment-IsConsistent c.rail uuid (page_payment c uuid outcome network t) k
            missing c.predictor)
          (λ id v h.
            seq_any Sound (link_charge t.charge id) (λ _. on_world (get id)) v
              (subst IsConsistent (sym (world-link_charge t.charge id v)) h)
              (λ _ u l. subst IsConsistent (sym (state-get id u.world)) l))

    -- A payment from a page, under a fresh id in a consistent world, leaves a consistent world, whether it
    -- pays a charge or a merchant, is refused, or is played out to any of its outcomes.
    pub pay-IsConsistent :
        (decimal : String → Result Decimal) (body : PayRequest)
        → IsConsistent (pay c uuid decimal body s).1.world
    unfolding pay
    pay-IsConsistent decimal body =
        require_rule Sound c.demo_controls_enabled (http_exception 404)
          (lift (or_http 422 (outcome_of body.outcome)) >>= networked) k
          (λ _. lift_rule Sound (or_http 422 (outcome_of body.outcome)) networked k (λ o e.
            lift_rule Sound (or_http 422 (network_of body.payer_network)) (targeted o) k (λ n f.
              seq_mid (λ v. v ≡ s) Sound (target_of decimal body (truthy body.charge_id))
                (pay_target c uuid o n) s (read_target decimal body (truthy body.charge_id) s)
                (λ v h. subst Sound (sym h) k)
                (λ t v h.
                  subst (λ x. Sound (pay_target c uuid o n t x).1) (sym h)
                    (pay_target-Sound o n t)))))
      where
        targeted : String × String → String × String → Exec (Stores R) Transaction
        targeted o n = target_of decimal body (truthy body.charge_id) >>= pay_target c uuid o n

        networked : String × String → Exec (Stores R) Transaction
        networked o = lift (or_http 422 (network_of body.payer_network)) >>= targeted o
