-- ===== src/Http/Guards.antt =====
-- What the HTTP handlers share: errors turned into statuses, and whose data a payment is.
use drc_pay.Base.{◌≡◌, ap, Bool, true, Option, none, some, ◌==◌, string_eq, nat_eq, String}
use drc_pay.Exec.{Result, ok, err, Exec, key_error, http_exception, Error}
use drc_pay.Transactions.States.{TxState}
use drc_pay.Transactions.Store.{same_option}
use drc_pay.Container.{Stores}
use drc_pay.Dict.{lookup, Dict}
use drc_pay.Transactions.Models.{Transaction}
use drc_pay.Charges.{Charge}
use drc_pay.Merchants.{Merchant}

-- `except KeyError: raise HTTPException(404)`
abbrev pub not_found : Error → Error
not_found key_error = http_exception 404
not_found e = e

-- `except (ValueError, ArithmeticError): raise HTTPException(422)`, around `Money.from_major`
abbrev pub unprocessable : {A : Type 0} → Result A → Result A
unprocessable (ok a) = ok a
unprocessable (err _) = err (http_exception 422)

abbrev pub or_404 : {S A : Type 0} → Exec S A → Exec S A
or_404 m s = let (r, s') = m s in elim r [ ok a ↦ (ok a, s') | err e ↦ (err (not_found e), s') ]

-- `transaction.merchant_id == merchant.id`
abbrev pub is_own : Merchant → Transaction → Bool
is_own merchant t = same_option t.merchant_id (some merchant.id)

-- `body.merchant_id is None or body.merchant_id == merchant.id`
abbrev pub none_or : Option String → String → Bool
none_or none id = true
none_or (some x) id = x == id

-- a store's `get` of a row by its id, or KeyError
abbrev pub row : {S V : Type 0} → String → (S → Dict String V) → Exec S V
row id rows s = elim (lookup id (rows s)) [ none ↦ (err key_error, s) | some v ↦ (ok v, s) ]

abbrev pub state_at : Option Transaction → Option TxState
state_at none = none
state_at (some t) = some t.state

abbrev pub linked_state : Option String → Dict String Transaction → Option TxState
linked_state none rows = none
linked_state (some id) rows = state_at (lookup id rows)

-- the state of the payment that a charge is linked to, if there is one
unfoldable pub charge_tx_state : {R : Type 0} → Charge → Stores R → Option TxState
charge_tx_state charge s = linked_state charge.transaction_id s.world.rows

pub or_404-eq :
    {S A : Type 0} (m : Exec S A) {s s' : S} {a : A} → m s ≡ (ok a, s') → or_404 m s ≡ (ok a, s')
or_404-eq {S} {A} m h =
    ap {B = Result A × S}
      (λ (x : Result A × S). elim x.0 [ ok a ↦ (ok a, x.1) | err e ↦ (err (not_found e), x.1) ]) h

pub or_404-err :
    {S A : Type 0} (m : Exec S A) {s s' : S}
    → m s ≡ (err key_error, s')
    → or_404 m s ≡ (err (http_exception 404), s')
or_404-err {S} {A} m h =
    ap {B = Result A × S}
      (λ (x : Result A × S). elim x.0 [ ok a ↦ (ok a, x.1) | err e ↦ (err (not_found e), x.1) ]) h
