-- ===== src/Http/Paid.antt =====
-- http/public_routes.py: a charge that has been paid is not paid again.
use drc_pay.Application.Payments.{start_merchant_payment, truthy}
use drc_pay.Charges.{Charge, is_payable, linked_payable}
use drc_pay.Container.{on_world, Container, Stores}
use drc_pay.Dict.{insert, lookup, lookup-insert}
use drc_pay.Exec.{
  bind-eq, bind-ok, err, Exec, http_exception, lift, ok, pure, raise-eq, require, Result, ◌>>=◌,
  ◌>>◌,
}
use drc_pay.Http.Guards.{charge_tx_state, or_404, or_404-eq, row, state_at}
use drc_pay.Http.PublicKeeps.{read_target}
use drc_pay.Http.PublicRoutes.{
  charge_target, link_charge, network_of, or_http, outcome_of, page_payment, pay, pay_target,
  PayRequest, Target, target_of,
}
use drc_pay.Ledger.Amounts.{Decimal}
use drc_pay.Transactions.Models.{Transaction}
use drc_pay.Transactions.States.{collection_failed, TxState}
use drc_pay.Transactions.Store.{get}
use drc_pay.Base.{
  ◌≡◌, ◌≢◌, refl, sym, ap, ◌∙◌, Bool, true, false, ◌⊎◌, inl, inr, some, Option, string_eq, nat_eq,
  beq_refl, Option-cases, String,
}
use mathlib.Core.Path.{subst}

get-ok :
    {R : Type 0} (id : String) (s : Stores R) {t : Transaction} {s' : Stores R}
    → on_world (get id) s ≡ (ok t, s')
    → (lookup id s.world.rows ≡ some t) × (s ≡ s')
unfolding get
get-ok id s {t} h = elim (Option-cases (lookup id s.world.rows)) [
  | inl e ↦ cc (ap (λ x. x.0) (rw (e, get) at h))
  | inr (x, e) ↦
      (let q = rw (e, get) at h in
        let f : ok x ≡ ok t = ap (λ y. y.0) q in
        let g : x ≡ t = cc in (e ∙ ap some g, ap (λ y. y.1) q))
]

row-eq :
    {R : Type 0} (id : String) (s : Stores R) {charge : Charge}
    → lookup id s.charges ≡ some charge
    → or_404 (row id (λ (v : Stores R). v.charges)) s ≡ (ok charge, s)
row-eq id s h = or_404-eq (row id (λ v. v.charges)) (rw (h, row) refl)

closed_state :
    (pid : String) (state : TxState)
    → state ≢ collection_failed
    → linked_payable (some pid) (some state) ≡ false
unfolding linked_payable
closed_state pid collection_failed n = absurd (n refl)
closed_state pid _ n = refl

module _ {R : Type 0} where
  -- `charge_target` from each of its calls on
  abbrev owner : Charge → Exec (Stores R) Target
  owner charge = row charge.merchant_id (λ s. s.merchants) >>= λ m.
      pure (record { charge = some charge; merchant = m; amount = charge.amount })

  abbrev tested : Charge → Option TxState → Exec (Stores R) Target
  tested charge state = require (is_payable charge state) (http_exception 409) >> owner charge

  abbrev state_of : Charge → Exec (Stores R) (Option TxState)
  state_of charge s = (ok (charge_tx_state charge s), s)

  abbrev found : Charge → Exec (Stores R) Target
  found charge = state_of charge >>= tested charge

  abbrev charge_row : String → Exec (Stores R) Charge
  charge_row id = or_404 (row id (λ s. s.charges))

  -- The target of a charge is that charge.
  charge-charge_target :
      (id : String) (s : Stores R) {charge : Charge} {target : Target} {s' : Stores R}
      → lookup id s.charges ≡ some charge
      → charge_target id s ≡ (ok target, s')
      → target.charge ≡ some charge
  unfolding charge_target
  charge-charge_target id s {charge} {target} {s'} h e =
      let (x, v, here, e1) = bind-ok (charge_row id) found e in
      let (state, v2, read, e2) = bind-ok (state_of x) (tested x) e1 in
      let (_, v3, allowed, e3) =
        bind-ok (require (is_payable x state) (http_exception 409)) (λ _. owner x) e2 in
      let (m, v4, payee, e4) =
        bind-ok (row x.merchant_id (λ (u : Stores R). u.merchants))
          (λ m. pure (record { charge = some x; merchant = m; amount = x.amount })) e3 in
      let same : ok x ≡ ok charge = ap (λ y. y.0) (sym here ∙ row-eq id s h) in
      let same' : x ≡ charge = cc in
      let last : ok (record { charge = some x; merchant = m; amount = x.amount }) ≡ ok target =
        ap (λ y. y.0) e4 in
      let last' : record { charge = some x; merchant = m; amount = x.amount } ≡ target = cc in
      sym (ap (λ y. y.charge) last') ∙ ap some same'

  -- A charge that is linked to a payment whose collection has not failed is refused.
  charge_target_closed :
      (id pid : String) (s : Stores R) (charge : Charge) (t : Transaction)
      → lookup id s.charges ≡ some (record charge { transaction_id = some pid })
      → lookup pid s.world.rows ≡ some t
      → t.state ≢ collection_failed
      → charge_target id s ≡ (err (http_exception 409), s)
  unfolding charge_target is_payable charge_tx_state
  charge_target_closed id pid s charge t h k n =
      let x : Charge = record charge { transaction_id = some pid } in
      let closed : is_payable x (charge_tx_state x s) ≡ false =
        ap (λ o. linked_payable (some pid) (state_at o)) k ∙ closed_state pid t.state n in
      bind-eq (charge_row id) found (row-eq id s h)
      ∙ raise-eq (require (is_payable x (charge_tx_state x s)) (http_exception 409)) (λ _. owner x)
          (ap (λ b. require b (http_exception 409) s) closed)

  module _ (c : Container R) where
    -- A payment of a charge that returns has linked the charge to the payment that it returns.
    pay_target-links :
        (uuid : String) (outcome network : String × String) (target : Target) (s : Stores R)
        (charge : Charge) {t : Transaction} {s' : Stores R}
        → target.charge ≡ some charge
        → pay_target c uuid outcome network target s ≡ (ok t, s')
        → (pid : String) × (lookup charge.id s'.charges
            ≡ some (record charge { transaction_id = some pid }))
          × (lookup pid s'.world.rows ≡ some t)
    unfolding pay_target link_charge
    pay_target-links uuid outcome network target s charge {t} {s'} h e =
        let start : Exec (Stores R) String = on_world (
          start_merchant_payment c.rail c.predictor uuid
            (page_payment c uuid outcome network target)) in
        let (pid, v, started, e1) =
          bind-ok start (λ id. link_charge target.charge id >> on_world (get id)) e in
        let (_, u, linked, e2) =
          bind-ok (link_charge target.charge pid) (λ _. on_world (get pid)) e1 in
        let x : Charge = record charge { transaction_id = some pid } in
        let changed : u ≡ record v { charges = insert charge.id x v.charges } =
          sym (ap (λ y. y.1) linked) ∙ ap (λ o. (link_charge o pid v).1) h in
        let (known, same) = get-ok pid u e2 in
        (
          pid,
          ap (λ y. lookup charge.id y.charges) (sym same ∙ changed)
              ∙ (lookup-insert charge.id charge.id x v.charges ∙ rw (beq_refl charge.id) refl),
          ap (λ y. lookup pid y.world.rows) (sym same) ∙ known,
        )

    -- `pay` from each of its calls on
    abbrev targeted :
        String
        → (String → Result Decimal)
        → PayRequest
        → String × String
        → String × String
        → Exec (Stores R) Transaction
    targeted uuid decimal body o n =
        target_of decimal body (truthy body.charge_id) >>= pay_target c uuid o n

    abbrev networked :
        String
        → (String → Result Decimal)
        → PayRequest
        → String × String
        → Exec (Stores R) Transaction
    networked uuid decimal body o =
        lift (or_http 422 (network_of body.payer_network)) >>= targeted uuid decimal body o

    abbrev open_page : String → (String → Result Decimal) → PayRequest → Exec (Stores R) Transaction
    open_page uuid decimal body =
        lift (or_http 422 (outcome_of body.outcome)) >>= networked uuid decimal body

    paid-links :
        (uuid : String) (decimal : String → Result Decimal) (body : PayRequest) (id : String)
        (s : Stores R) (charge : Charge) {t : Transaction} {s' : Stores R}
        → truthy body.charge_id ≡ some id
        → lookup id s.charges ≡ some charge
        → pay c uuid decimal body s ≡ (ok t, s')
        → (c.demo_controls_enabled ≡ true)
          × ((pid : String) × (lookup charge.id s'.charges
                ≡ some (record charge { transaction_id = some pid }))
              × (lookup pid s'.world.rows ≡ some t))
    unfolding pay target_of
    paid-links uuid decimal body id s charge {t} {s'} b h e =
        let (_, v1, enabled, e1) =
          bind-ok (require c.demo_controls_enabled (http_exception 404))
            (λ _. open_page uuid decimal body) e in
        let (o, v2, known, e2) =
          bind-ok (lift (or_http 422 (outcome_of body.outcome))) (networked uuid decimal body) e1 in
        let (n, v3, reached, e3) =
          bind-ok (lift (or_http 422 (network_of body.payer_network)))
            (targeted uuid decimal body o) e2 in
        let (target, v4, aimed, e4) =
          bind-ok (target_of decimal body (truthy body.charge_id)) (pay_target c uuid o n) e3 in
        let (on, same1) = required c.demo_controls_enabled enabled in
        let same : s ≡ v3 = same1 ∙ (ap (λ y. y.1) known ∙ ap (λ y. y.1) reached) in
        let kept : v4 ≡ s =
          sym (ap (λ y. y.1) aimed)
          ∙ (read_target decimal body (truthy body.charge_id) v3 ∙ sym same) in
        let aimed' : charge_target id s ≡ (ok target, v4) =
          sym (ap (λ q. target_of decimal body q s) b)
          ∙ (ap (target_of decimal body (truthy body.charge_id)) same ∙ aimed) in
        (on, pay_target-links uuid o n target v4 charge (charge-charge_target id s h aimed') e4)
      where
        required :
            {v : Stores R} (x : Bool)
            → require x (http_exception 404) s ≡ (ok tt, v)
            → (x ≡ true) × (s ≡ v)
        required true q = (refl, ap (λ y. y.1) q)
        required false q = cc (ap (λ y. y.0) q)

    -- Once a payment of a charge has returned with a payment whose collection has not failed, whoever pays
    -- for that charge from then on is refused, with 409 or, for an unknown outcome or network, 422, and
    -- nothing changes.
    pub paid-is_closed :
        (uuid : String) (decimal : String → Result Decimal) (body : PayRequest) (id : String)
        (s : Stores R) (charge : Charge) (t : Transaction) (s' : Stores R)
        → truthy body.charge_id ≡ some id
        → lookup id s.charges ≡ some charge
        → charge.id ≡ id
        → pay c uuid decimal body s ≡ (ok t, s')
        → t.state ≢ collection_failed
        → (uuid' : String) (decimal' : String → Result Decimal) (body' : PayRequest)
        → truthy body'.charge_id ≡ some id
        → (pay c uuid' decimal' body' s' ≡ (err (http_exception 409), s'))
          ⊎ (pay c uuid' decimal' body' s' ≡ (err (http_exception 422), s'))
    unfolding pay target_of
    paid-is_closed uuid decimal body id s charge t s' b h same e n uuid' decimal' body' b' =
        let (on, link) = paid-links uuid decimal body id s charge b h e in
        let (pid, linked, known) = link in
        let closed : charge_target id s' ≡ (err (http_exception 409), s') =
          charge_target_closed id pid s' charge t
            (subst (λ k. lookup k s'.charges ≡ some (record charge { transaction_id = some pid }))
              same linked)
            known n in
        let aimed : target_of decimal' body' (truthy body'.charge_id) s'
            ≡ (err (http_exception 409), s') =
          ap (λ q. target_of decimal' body' q s') b' ∙ closed in
        let enabled : require c.demo_controls_enabled (http_exception 404) s' ≡ (ok tt, s') =
          ap (λ x. require x (http_exception 404) s') on in
        elim (Option-cases (outcome_of body'.outcome)) [
          | inl f ↦ inr (
              bind-eq (require c.demo_controls_enabled (http_exception 404))
                (λ _. open_page uuid' decimal' body') enabled
              ∙ raise-eq (lift (or_http 422 (outcome_of body'.outcome)))
                  (networked uuid' decimal' body') (ap (λ x. (or_http 422 x, s')) f))
          | inr (o, f) ↦ elim (Option-cases (network_of body'.payer_network)) [
            | inl g ↦ inr (
                bind-eq (require c.demo_controls_enabled (http_exception 404))
                  (λ _. open_page uuid' decimal' body') enabled
                ∙ (bind-eq (lift (or_http 422 (outcome_of body'.outcome)))
                      (networked uuid' decimal' body') (ap (λ x. (or_http 422 x, s')) f)
                    ∙ raise-eq (lift (or_http 422 (network_of body'.payer_network)))
                        (targeted uuid' decimal' body' o) (ap (λ x. (or_http 422 x, s')) g)))
            | inr (m, g) ↦ inl (
                bind-eq (require c.demo_controls_enabled (http_exception 404))
                  (λ _. open_page uuid' decimal' body') enabled
                ∙ (bind-eq (lift (or_http 422 (outcome_of body'.outcome)))
                      (networked uuid' decimal' body') (ap (λ x. (or_http 422 x, s')) f)
                    ∙ (bind-eq (lift (or_http 422 (network_of body'.payer_network)))
                          (targeted uuid' decimal' body' o) (ap (λ x. (or_http 422 x, s')) g)
                        ∙ raise-eq (target_of decimal' body' (truthy body'.charge_id))
                            (pay_target c uuid' o m) aimed)))
          ]
        ]
