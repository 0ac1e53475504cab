-- ===== src/Transactions/RoutedKeeps.antt =====
-- The handlers of domains/transactions/orchestrator.py keep the ledger in step with the state.
use drc_pay.Base.{String, ◌≡◌, refl, sym, ◌∙◌, Bool, true, false, Option, List, [], ◌∷◌, arith}
use drc_pay.Exec.{ok, ◌>>=◌, pure, bind_rule}
use drc_pay.Ledger.Posting.{Posting}
use drc_pay.Transactions.States.{
  TxState, collection_pending, collection_succeeded, collection_failed, payout_pending,
  payout_succeeded, payout_failed, refund_pending, refunded, manual_review, can_transition, member,
}
use drc_pay.Transactions.Models.{
  Transaction, World, payout, refund, Answer, accepted, rejected, PaymentRail, rail_verified,
}
use drc_pay.Transactions.Steps.{moved, transition}
use drc_pay.Transactions.Orchestrator.{
  after_refund, refund_leg, begin_refund, after_payout, payout_leg, begin_payout, book_collection,
  collection_succeeds, collection_result, book_settlement, payout_result, book_refund,
  refund_result,
}
use drc_pay.Transactions.Books.{
  collected, settled, returned, collect_of, payout_of, minus, collection_entries,
  settlement_entries, refund_entries, currency-collect_of, currency-payout_of, sub-eq,
  collection_entries-IsBalanced, settlement_entries-IsBalanced, pair_IsBalanced,
}
use drc_pay.Transactions.Focus.{put, appended}
use drc_pay.Transactions.Rules.{Lands, post_entries-eq, ask_rule}
use drc_pay.Transactions.Routed.{
  IsAt, IsAt→Lands, IsAt-with_rail, IsAt-moved, transition-at, IsAt-appended, store_op_id-Lands,
}

module _ {R : Type 0} (rail : PaymentRail R) {w : World R} {t : Transaction} where
  book_collection-eq :
      {o : String → Option Transaction} {s : TxState} {ps : List Posting}
      → IsAt o s ps w t
      → book_collection rail t w ≡ (ok tt, appended (collected t) w)
  unfolding book_collection
  book_collection-eq a = rw a.priced.payer (
      rw (sub-eq t.amount (collect_of t) (sym (currency-collect_of t))) (
        post_entries-eq t (collection_entries t) w (omega arith)
          (collection_entries-IsBalanced t a.priced)))

  book_settlement-eq :
      {o : String → Option Transaction} {s : TxState} {ps : List Posting}
      → IsAt o s ps w t
      → book_settlement rail t w ≡ (ok tt, appended (settled t) w)
  unfolding book_settlement
  book_settlement-eq a =
      rw (a.priced.payer, a.priced.payee)
        (rw
          (
            sub-eq t.amount t.fee (sym a.priced.same_currency),
            sub-eq t.fee (collect_of t) (a.priced.same_currency ∙ sym (currency-collect_of t)),
            sub-eq (minus t.fee (collect_of t)) (payout_of t)
                (a.priced.same_currency ∙ sym (currency-payout_of t)),
            sub-eq t.amount (collect_of t) (sym (currency-collect_of t)),
          )
          (post_entries-eq t (settlement_entries t) w (omega arith)
            (settlement_entries-IsBalanced t a.priced)))

book_refund-eq :
    {R : Type 0} (rail : PaymentRail R) (w : World R) (t : Transaction)
    → book_refund rail t w ≡ (ok tt, appended (returned t) w)
unfolding book_refund
book_refund-eq rail w t =
    post_entries-eq t (refund_entries t) w (omega arith) (pair_IsBalanced _ _ t.amount)

-- In the states `allowed` a refund attempt may end.
module _ {R : Type 0} (rail : PaymentRail R) (allowed : List TxState)
    (m : member refund_pending allowed ≡ true) (n : member manual_review allowed ≡ true) where
  after_refund-Lands :
      {o : String → Option Transaction} {w : World R} {t : Transaction} (answer : Answer)
      → IsAt o refund_pending (collected t ∷ []) w t
      → Lands rail_verified o t.id allowed (after_refund rail t answer w).1
  unfolding after_refund can_transition
  after_refund-Lands {o} {w} {t} rejected a =
      bind_rule (Lands rail_verified o t.id allowed) (transition t manual_review) (λ _. pure tt)
        (transition-at manual_review refl a)
        (IsAt→Lands allowed n refl (IsAt-moved manual_review refl a))
  after_refund-Lands (accepted op) a = store_op_id-Lands refund op allowed m refl a

  refund_leg-Lands :
      {o : String → Option Transaction} {w : World R} {t : Transaction}
      → IsAt o refund_pending (collected t ∷ []) w t
      → Lands rail_verified o t.id allowed (refund_leg rail t w).1
  unfolding refund_leg
  refund_leg-Lands {o} {w} {t} a = rw a.priced.payer (
      ask_rule (Lands rail_verified o t.id allowed) _ (after_refund rail t) w
        (λ x. IsAt→Lands allowed m refl (IsAt-with_rail x a))
        (λ answer x. after_refund-Lands answer (IsAt-with_rail x a)))

  begin_refund-Lands :
      {o : String → Option Transaction} {w : World R} {t : Transaction}
      → IsAt o payout_failed (collected t ∷ []) w t
      → Lands rail_verified o t.id allowed (begin_refund rail t w).1
  unfolding begin_refund can_transition
  begin_refund-Lands {o} {w} {t} a =
      bind_rule (Lands rail_verified o t.id allowed) (transition t refund_pending) (refund_leg rail)
        (transition-at refund_pending refl a) (refund_leg-Lands (IsAt-moved refund_pending refl a))

  -- A payout that has failed, at once or later.
  fail_payout-Lands :
      {o : String → Option Transaction} {w : World R} {t : Transaction}
      → IsAt o payout_pending (collected t ∷ []) w t
      → Lands rail_verified o t.id allowed ((transition t payout_failed >>= begin_refund rail) w).1
  unfolding can_transition
  fail_payout-Lands {o} {w} {t} a =
      bind_rule (Lands rail_verified o t.id allowed) (transition t payout_failed)
        (begin_refund rail) (transition-at payout_failed refl a)
        (begin_refund-Lands (IsAt-moved payout_failed refl a))

  module _ (p : member payout_pending allowed ≡ true) where
    after_payout-Lands :
        {o : String → Option Transaction} {w : World R} {t : Transaction} (answer : Answer)
        → IsAt o payout_pending (collected t ∷ []) w t
        → Lands rail_verified o t.id allowed (after_payout rail t answer w).1
    unfolding after_payout
    after_payout-Lands rejected a = fail_payout-Lands a
    after_payout-Lands (accepted op) a = store_op_id-Lands payout op allowed p refl a

    payout_leg-Lands :
        {o : String → Option Transaction} {w : World R} {t : Transaction}
        → IsAt o payout_pending (collected t ∷ []) w t
        → Lands rail_verified o t.id allowed (payout_leg rail t w).1
    unfolding payout_leg
    payout_leg-Lands {o} {w} {t} a =
        rw (sub-eq t.amount t.fee (sym a.priced.same_currency), a.priced.payee)
          (ask_rule (Lands rail_verified o t.id allowed) _ (after_payout rail t) w
            (λ x. IsAt→Lands allowed p refl (IsAt-with_rail x a))
            (λ answer x. after_payout-Lands answer (IsAt-with_rail x a)))

    begin_payout-Lands :
        {o : String → Option Transaction} {w : World R} {t : Transaction}
        → IsAt o collection_succeeded (collected t ∷ []) w t
        → Lands rail_verified o t.id allowed (begin_payout rail t w).1
    unfolding begin_payout can_transition
    begin_payout-Lands {o} {w} {t} a =
        bind_rule (Lands rail_verified o t.id allowed) (transition t payout_pending)
          (payout_leg rail) (transition-at payout_pending refl a)
          (payout_leg-Lands (IsAt-moved payout_pending refl a))

abbrev pub after_deposit : List TxState
after_deposit = collection_failed ∷ payout_pending ∷ refund_pending ∷ manual_review ∷ []

abbrev pub after_settlement : List TxState
after_settlement = payout_succeeded ∷ refund_pending ∷ manual_review ∷ []

abbrev pub after_return : List TxState
after_return = refunded ∷ manual_review ∷ []

module _ {R : Type 0} (rail : PaymentRail R) {o : String → Option Transaction} {w : World R}
    {t : Transaction} where
  collection_succeeds-Lands :
      IsAt o collection_succeeded [] w t
      → Lands rail_verified o t.id after_deposit (collection_succeeds rail t w).1
  unfolding collection_succeeds member
  collection_succeeds-Lands a =
      bind_rule (Lands rail_verified o t.id after_deposit) (book_collection rail t)
        (λ _. begin_payout rail t) (book_collection-eq rail a)
        (begin_payout-Lands rail after_deposit refl refl refl
          (IsAt-appended (collection_entries t) a))

module _ {R : Type 0} (rail : PaymentRail R) {o : String → Option Transaction} {w : World R}
    {t : Transaction} where
  -- The outcome of the collection, of a payment that awaits it.
  pub collection_result-Lands :
      (success : Bool)
      → IsAt o collection_pending [] w t
      → Lands rail_verified o t.id after_deposit (collection_result rail success t w).1
  unfolding collection_result can_transition member
  collection_result-Lands false a =
      bind_rule (Lands rail_verified o t.id after_deposit) (transition t collection_failed)
        (λ _. pure tt) (transition-at collection_failed refl a)
        (IsAt→Lands after_deposit refl refl (IsAt-moved collection_failed refl a))
  collection_result-Lands true a =
      bind_rule (Lands rail_verified o t.id after_deposit) (transition t collection_succeeded)
        (collection_succeeds rail) (transition-at collection_succeeded refl a)
        (collection_succeeds-Lands rail (IsAt-moved collection_succeeded refl a))

  -- The outcome of the payout.
  pub payout_result-Lands :
      (success : Bool)
      → IsAt o payout_pending (collected t ∷ []) w t
      → Lands rail_verified o t.id after_settlement (payout_result rail success t w).1
  unfolding payout_result can_transition member
  payout_result-Lands false a = fail_payout-Lands rail after_settlement refl refl a
  payout_result-Lands true a =
      let b = IsAt-moved payout_succeeded refl a in
      bind_rule (Lands rail_verified o t.id after_settlement) (transition t payout_succeeded)
        (book_settlement rail) (transition-at payout_succeeded refl a)
        (rw (book_settlement-eq rail b) (
          IsAt→Lands after_settlement refl refl
            (IsAt-appended (settlement_entries (moved t payout_succeeded)) b)))

  -- A refund that is done, of a payment that may be refunded and has only its collection booked.
  pub refunded-Lands :
      (s : TxState)
      → can_transition s refunded ≡ true
      → IsAt o s (collected t ∷ []) w t
      → Lands rail_verified o t.id after_return (refund_result rail true t w).1
  unfolding refund_result member
  refunded-Lands s c a =
      let b = IsAt-moved refunded c a in
      bind_rule (Lands rail_verified o t.id after_return) (transition t refunded) (book_refund rail)
        (transition-at refunded c a)
        (rw (book_refund-eq rail (put (moved t refunded) w) (moved t refunded))
          (IsAt→Lands after_return refl refl (IsAt-appended (refund_entries (moved t refunded)) b)))

  -- The outcome of the refund.
  pub refund_result-Lands :
      (success : Bool)
      → IsAt o refund_pending (collected t ∷ []) w t
      → Lands rail_verified o t.id after_return (refund_result rail success t w).1
  unfolding refund_result can_transition member
  refund_result-Lands false a =
      bind_rule (Lands rail_verified o t.id after_return) (transition t manual_review)
        (λ _. pure tt) (transition-at manual_review refl a)
        (IsAt→Lands after_return refl refl (IsAt-moved manual_review refl a))
  refund_result-Lands true a = refunded-Lands refund_pending refl a
