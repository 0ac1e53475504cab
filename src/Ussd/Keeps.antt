-- ===== src/Ussd/Keeps.antt =====
-- ussd/session.py: the amounts that a customer may enter, and what a USSD request does to the stores.
use drc_pay.Ledger.Amounts.{from_user_input}
use drc_pay.Application.Payments.{start_merchant_payment, Payment}
use drc_pay.Ledger.Money.{is_positive, Money, usd}
use drc_pay.Exec.{Result, ok, err, ◌>>=◌, pure, seq_any}
use drc_pay.Text.{parts}
use drc_pay.Merchants.{Merchant}
use drc_pay.Int.{pos, ltb_ℤ, ◌≤ℤ◌, ◌<ℤ◌}
use drc_pay.Transactions.Models.{World}
use drc_pay.Base.{
  String, ◌≡◌, refl, sym, Bool, true, false, not, ◌||◌, none, some, string_eq, nat_eq, arith,
  Bool-cases, Option-cases, inl, inr,
}
use drc_pay.Application.PaymentsKeep.{start_merchant_payment-IsConsistent}
use mathlib.Core.Path.{subst}
use drc_pay.Dict.{lookup}
use drc_pay.Transactions.Invariant.{IsConsistent}
use drc_pay.Ussd.{
  closing, is_attested, in_range, asked, amount_verdict, choice_verdict, ussd_payment, max_amount,
  till_verdict, got, read_field, Field, handle, at_till, at_amount, at_choice, start_payment,
  UssdRequest, parse_amount,
}
use drc_pay.Transactions.Store.{get}
use drc_pay.Container.{on_world, Container, Stores}

-- What a request may leave behind: the merchants and the charges as they were, and a consistent world.
abbrev pub KeepsWorld : {R : Type 0} → Stores R → Stores R → Type 0
KeepsWorld s s' = (s'.merchants ≡ s.merchants) × (s'.charges ≡ s.charges) × IsConsistent s'.world

-- Looking a payment up changes nothing.
pub state-get : {R : Type 0} (id : String) (w : World R) → (get {R = R} id w).1 ≡ w
unfolding get
state-get id w = elim (Option-cases (lookup id w.rows)) [
  | inl e ↦ rw (e, get) refl
  | inr (t, e) ↦ rw (e, get) refl
]

module _ {R : Type 0} (c : Container R) (uuid : String) (r : UssdRequest) (s : Stores R)
    (k : IsConsistent s.world) (missing : lookup uuid s.world.rows ≡ none) where
  start_payment-IsConsistent :
      (merchant : Merchant) (amount : Money)
      → IsConsistent (start_payment c uuid r merchant amount s.world).1
  unfolding start_payment
  start_payment-IsConsistent merchant amount =
      seq_any IsConsistent (start_merchant_payment c.rail c.predictor uuid p)
        (λ id. get id >>= λ t. pure (is_attested t.provenance)) s.world
        (start_merchant_payment-IsConsistent c.rail uuid p k missing c.predictor)
        (λ id v h. got_id id v h)
    where
      p : Payment
      p = ussd_payment c uuid r merchant amount

      got_id :
          (id : String) (v : World R)
          → IsConsistent v
          → IsConsistent ((get id >>= λ t. pure (is_attested t.provenance)) v).1
      got_id id v h =
          seq_any IsConsistent (get id) (λ t. pure (is_attested t.provenance)) v
            (subst IsConsistent (sym (state-get id v)) h) (λ t v' h'. h')

  at_choice-KeepsWorld :
      (merchant : Merchant) (amount : Money) (f : Field Bool)
      → KeepsWorld s (at_choice c uuid r merchant amount f s).1
  unfolding at_choice
  at_choice-KeepsWorld merchant amount (got true _) =
      seq_any (KeepsWorld s) (on_world (start_payment c uuid r merchant amount))
        (λ on_net. pure (closing c uuid merchant amount on_net)) s
        (refl, refl, start_payment-IsConsistent merchant amount) (λ on_net s' h. h)
  at_choice-KeepsWorld merchant amount (got false _) = (refl, refl, k)
  at_choice-KeepsWorld merchant amount (asked _) = (refl, refl, k)
  at_choice-KeepsWorld merchant amount _ = (refl, refl, k)

  at_amount-KeepsWorld :
      (merchant : Merchant) (f : Field Money) → KeepsWorld s (at_amount c uuid r merchant f s).1
  unfolding at_amount
  at_amount-KeepsWorld merchant (got amount rest) =
      at_choice-KeepsWorld merchant amount (read_field choice_verdict 0 rest)
  at_amount-KeepsWorld merchant (asked false) = (refl, refl, k)
  at_amount-KeepsWorld merchant (asked true) = (refl, refl, k)
  at_amount-KeepsWorld merchant _ = (refl, refl, k)

  at_till-KeepsWorld : (f : Field Merchant) → KeepsWorld s (at_till c uuid r f s).1
  unfolding at_till
  at_till-KeepsWorld (got merchant rest) =
      at_amount-KeepsWorld merchant (read_field amount_verdict 0 rest)
  at_till-KeepsWorld (asked false) = (refl, refl, k)
  at_till-KeepsWorld (asked true) = (refl, refl, k)
  at_till-KeepsWorld _ = (refl, refl, k)

  -- A USSD request, under a fresh id in a consistent world, leaves a consistent world and the merchants
  -- and charges as they were, whatever its text is and whatever the rail and the predictor do.
  pub handle-KeepsWorld : KeepsWorld s (handle c uuid r s).1
  unfolding handle
  handle-KeepsWorld = at_till-KeepsWorld (read_field (till_verdict s.merchants) 0 (parts r.text))

-- An entry is taken for an amount only if it is the one that is read from the text in dollars, and it is
-- positive and not above the cap.
pub parse_amount_bounds :
    (text : String) (a : Money)
    → parse_amount text ≡ some a
    → (from_user_input text usd ≡ ok a)
      × (pos 0 <ℤ a.amount_minor)
      × (a.amount_minor ≤ℤ pos max_amount)
unfolding parse_amount
parse_amount_bounds text a h = bounded (from_user_input text usd) h
  where
    bounded :
        (x : Result Money)
        → in_range x ≡ some a
        → (x ≡ ok a) × (pos 0 <ℤ a.amount_minor) × (a.amount_minor ≤ℤ pos max_amount)
    bounded (ok m) h =
        elim (Bool-cases (not (is_positive m) || ltb_ℤ (pos max_amount) m.amount_minor)) [
          | inl p ↦ cc (rw p at h)
          | inr p ↦
              let q : some m ≡ some a = rw p at h in
              let e : m ≡ a = cc in
              subst
                (λ y.
                  (ok m ≡ ok y) × (pos 0 <ℤ y.amount_minor) × (y.amount_minor ≤ℤ pos max_amount))
                e (refl, ground arith, ground arith)
        ]
    bounded (err e) h = cc
