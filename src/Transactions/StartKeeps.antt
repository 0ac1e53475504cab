-- ===== src/Transactions/StartKeeps.antt =====
-- Starting a payment, routed or on-net, and confirming an on-net one keep the ledger in step with
-- the state: `start_transaction` of domains/transactions/orchestrator.py, and on_net.py.
use drc_pay.Base.{
  String, ◌≡◌, refl, sym, true, false, Option, none, some, List, [], ◌∷◌, ◌==◌, string_eq, arith, ⊤,
  inl, inr,
}
use drc_pay.Int.{ltb_ℤ, ◌+ℤ◌, ◌≤ℤ◌}
use drc_pay.Exec.{
  ok, ◌>>=◌, ◌>>◌, pure, bind_rule, raise_rule, Exec, require, require_rule, value_error,
}
use drc_pay.Dict.{lookup, values}
use drc_pay.Ledger.Money.{currency_eq, currency_beq_iff, is_positive}
use drc_pay.Transactions.States.{
  TxState, initiated, collection_pending, collection_failed, can_transition, member,
}
use drc_pay.Transactions.Models.{
  rail_verified, Transaction, World, PaymentRail, Answer, accepted, rejected, deposit,
}
use drc_pay.Transactions.Pricing.{collection_cost, payout_cost}
use drc_pay.Transactions.Store.{save}
use drc_pay.Transactions.Steps.{transition, require_provider}
use drc_pay.Transactions.Orchestrator.{
  Start, new_routed, after_collection, collection_leg, save_and_collect, start_transaction,
}
use drc_pay.Transactions.Books.{IsPriced, provider_of}
use drc_pay.Transactions.Invariant.{IsConsistent, traced, clash_free}
use drc_pay.Transactions.Focus.{put}
use drc_pay.Transactions.Rules.{Lands→Stands, Stands, Lands, ask_rule}
use drc_pay.Transactions.Routed.{
  IsAt, IsAt→Lands, IsAt-with_rail, IsAt-moved, transition-at, store_op_id-Lands,
}
use drc_pay.Transactions.NewRows.{new-IsFocused, save_new-cases}

-- What `start_transaction` does not check itself: the fee covers the costs of both legs, and both
-- operators are named.
pub record IsCovered (s : Start) : Type 0 where
  pub covered :
      (collection_cost s.amount s.customer_provider).amount_minor
        +ℤ (payout_cost s.amount s.merchant_provider).amount_minor
      ≤ℤ s.fee.amount_minor
  pub payer : (s.customer_provider == "") ≡ false
  pub payee : (s.merchant_provider == "") ≡ false

abbrev pub start_states : List TxState
start_states = collection_pending ∷ collection_failed ∷ []

module _ {R : Type 0} (rail : PaymentRail R) {o : String → Option Transaction} {w : World R}
    {t : Transaction} where
  after_collection-Lands :
      (answer : Answer)
      → IsAt o collection_pending [] w t
      → Lands rail_verified o t.id start_states (after_collection rail t answer w).1
  unfolding after_collection can_transition member
  after_collection-Lands rejected a =
      bind_rule (Lands rail_verified o t.id start_states) (transition t collection_failed)
        (λ _. pure tt) (transition-at collection_failed refl a)
        (IsAt→Lands start_states refl refl (IsAt-moved collection_failed refl a))
  after_collection-Lands (accepted op) a = store_op_id-Lands deposit op start_states refl refl a

module _ {R : Type 0} (rail : PaymentRail R) {o : String → Option Transaction} (s : Start) where
  collection_leg-Lands :
      {w : World R} {t : Transaction}
      → IsAt o collection_pending [] w t
      → Lands rail_verified o t.id start_states (collection_leg rail s t w).1
  unfolding collection_leg member
  collection_leg-Lands {w} {t} a =
      ask_rule (Lands rail_verified o t.id start_states) _ (after_collection rail t) w
        (λ x. IsAt→Lands start_states refl refl (IsAt-with_rail x a))
        (λ answer x. after_collection-Lands rail answer (IsAt-with_rail x a))

  collect-Lands :
      {w : World R} {t : Transaction}
      → IsAt o initiated [] w t
      → Lands rail_verified o t.id start_states
          ((transition t collection_pending >>= collection_leg rail s) w).1
  unfolding can_transition
  collect-Lands {w} {t} a =
      bind_rule (Lands rail_verified o t.id start_states) (transition t collection_pending)
        (collection_leg rail s) (transition-at collection_pending refl a)
        (collection_leg-Lands (IsAt-moved collection_pending refl a))

require_provider-eq :
    (p : String) → (p == "") ≡ false → require_provider (some p) ≡ ok (provider_of (some p))
unfolding require_provider
require_provider-eq p h = rw h refl

priced :
    {s : Start}
    → IsCovered s
    → (s.amount.currency == s.fee.currency) ≡ true
    → is_positive s.amount ≡ true
    → IsPriced s.amount s.fee (some s.customer_provider) (some s.merchant_provider)
priced {s} v same positive = record {
  same_currency = sym ((currency_beq_iff s.amount.currency s.fee.currency).0 same);
  positive = ground arith;
  covered = v.covered;
  payer = require_provider-eq s.customer_provider v.payer;
  payee = require_provider-eq s.merchant_provider v.payee;
}

module _ {R : Type 0} (rail : PaymentRail R) (s : Start) {w : World R} (c : IsConsistent w)
    (missing : lookup s.transaction_id w.rows ≡ none) where
  new_routed-IsAt :
      IsPriced s.amount s.fee (some s.customer_provider) (some s.merchant_provider)
      → clash_free (values w.rows) (some (new_routed s)) ≡ true
      → IsAt (λ j. lookup j w.rows) initiated [] (put (new_routed s) w) (new_routed s)
  unfolding new_routed traced
  new_routed-IsAt p free = record {
    routed = refl;
    state = refl;
    priced = p;
    focus =
        new-IsFocused w (new_routed s) c missing free
          (record { legal = refl; kind = p; legless = λ e. (refl, refl, refl) });
  }

  save_and_collect-Stands :
      IsPriced s.amount s.fee (some s.customer_provider) (some s.merchant_provider)
      → Stands s.transaction_id start_states (save_and_collect rail s (new_routed s) w).1
  unfolding save_and_collect new_routed
  save_and_collect-Stands p = elim (save_new-cases w (new_routed s)) [
    | inl e ↦
        raise_rule (Stands s.transaction_id start_states) (save (new_routed s))
          (λ _. transition (new_routed s) collection_pending >>= collection_leg rail s) e
          (c, inl missing)
    | inr (free, e) ↦
        bind_rule (Stands s.transaction_id start_states) (save (new_routed s))
          (λ _. transition (new_routed s) collection_pending >>= collection_leg rail s) e
          (Lands→Stands s.transaction_id start_states
            (collect-Lands rail s (new_routed-IsAt p free)))
  ]

  -- The payment is absent afterwards, or it stands in one of the two first states.
  pub start_transaction-Stands :
      IsCovered s → Stands s.transaction_id start_states (start_transaction rail s w).1
  unfolding start_transaction
  start_transaction-Stands v =
      require_rule P (s.amount.currency == s.fee.currency) value_error
        (require (is_positive s.amount) value_error >> fee_tested) absent
        (λ same. require_rule P (is_positive s.amount) value_error fee_tested absent (λ positive.
          require_rule P (ltb_ℤ s.fee.amount_minor s.amount.amount_minor) value_error
            (save_and_collect rail s (new_routed s)) absent
            (λ small. save_and_collect-Stands (priced v same positive))))
    where
      P : World R → Type 0
      P = Stands s.transaction_id start_states

      absent : Stands s.transaction_id start_states w
      absent = (c, inl missing)

      fee_tested : Exec (World R) ⊤
      fee_tested =
          require (ltb_ℤ s.fee.amount_minor s.amount.amount_minor) value_error
          >> save_and_collect rail s (new_routed s)

  -- A payment started under a new id in a consistent world, with a fee that covers the costs of its
  -- legs and with both operators named, leaves the world consistent: whatever the rail answers or
  -- raises, and whether or not the tests of the arguments and the store let it through.
  pub start_transaction-IsConsistent : IsCovered s → IsConsistent (start_transaction rail s w).1
  start_transaction-IsConsistent v = (start_transaction-Stands v).0
