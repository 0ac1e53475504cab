-- ===== src/Application/PlayOut.antt =====
-- application/payments.py: `play_out`, the simulated outcomes of a payment that has just been
-- started, and what it does to store and ledger.
use drc_pay.Application.Outcomes.{on_result, awaiting_state}
use mathlib.Core.Path.{subst}
use drc_pay.Application.OutcomesKeep.{IsAt-state, result-Lands, get-eq, get_missing}
use drc_pay.Application.Payments.{play_out}
use drc_pay.Transactions.Store.{get}
use drc_pay.Transactions.Steps.{transition}
use drc_pay.Transactions.Invariant.{IsConsistent}
use drc_pay.Dict.{lookup}
use drc_pay.Transactions.Rules.{transition_refused, Lands→Stands, Stands}
use drc_pay.Exec.{◌>>◌, seq_rule, Result, pure, bind_rule, ◌>>=◌, raise_rule, Exec}
use drc_pay.Transactions.Orchestrator.{
  book_refund, begin_refund, book_settlement, collection_succeeds, refund_result, payout_result,
  collection_result, on_refund_result, on_payout_result, on_collection_result,
}
use drc_pay.Transactions.StartKeeps.{start_states}
use drc_pay.Transactions.RoutedKeeps.{refunded-Lands, after_deposit, after_settlement}
use drc_pay.Transactions.Models.{refund, payout, deposit, Transaction, World, PaymentRail}
use drc_pay.Transactions.States.{
  state_eq, refunded, payout_failed, collection_succeeded, manual_review, payout_pending,
  collection_pending, refund_pending, payout_succeeded, can_transition, collection_failed, member,
  TxState,
}
use drc_pay.Base.{
  not, sym, Bool-cases, inr, some, ◌⊎◌, string_eq, inl, ◌==◌, arith, String, Bool, true, false, ◌≡◌,
  refl, List, ◌∷◌, [],
}

abbrev closing : List TxState
closing = collection_failed ∷ payout_succeeded ∷ refund_pending ∷ manual_review ∷ []

widen_settled : (s : TxState) → member s after_settlement ≡ true → member s closing ≡ true
unfolding member
widen_settled s h = ground arith

-- A state in which `play_out` calls the handler of the collection's outcome.
deposit_refused :
    (s : TxState)
    → member s start_states ≡ true
    → (s == collection_pending) ≡ false
    → (can_transition s collection_succeeded ≡ false)
      × (can_transition s collection_failed ≡ false)
      × (member s after_deposit ≡ true)
unfolding member can_transition
deposit_refused collection_failed m h = (refl, refl, refl)
deposit_refused collection_pending m h = cc
deposit_refused _ m h = cc

payout_refused :
    (s : TxState)
    → member s after_deposit ≡ true
    → (s == payout_pending) ≡ false
    → (can_transition s payout_succeeded ≡ false)
      × (can_transition s payout_failed ≡ false)
      × (member s closing ≡ true)
unfolding member can_transition
payout_refused collection_failed m h = (refl, refl, refl)
payout_refused refund_pending m h = (refl, refl, refl)
payout_refused manual_review m h = (refl, refl, refl)
payout_refused payout_pending m h = cc
payout_refused _ m h = cc

refund_refused :
    (s : TxState)
    → member s closing ≡ true
    → (s == refund_pending) ≡ false
    → (can_transition s manual_review ≡ false)
      × ((can_transition s refunded ≡ false) ⊎ (s ≡ manual_review))
unfolding member can_transition
refund_refused collection_failed m h = (refl, inl refl)
refund_refused payout_succeeded m h = (refl, inl refl)
refund_refused manual_review m h = (refl, inr refl)
refund_refused refund_pending m h = cc
refund_refused _ m h = cc

module _ {R : Type 0} (rail : PaymentRail R) (id : String) {w : World R} where
  -- A handler whose transition is refused, on the stored payment.
  refused-Stands :
      {A : Type 0} (allowed : List TxState) (handler : Transaction → Exec (World R) A) (d : TxState)
      (rest : Transaction → Exec (World R) A) {t : Transaction}
      → lookup id w.rows ≡ some t
      → can_transition t.state d ≡ false
      → handler t w ≡ (transition t d >>= rest) w
      → Stands id allowed w
      → Stands id allowed ((get id >>= handler) w).1
  refused-Stands {A} allowed handler d rest {t} h c e s =
      bind_rule (Stands id allowed) (get id) handler (get-eq id h) (
        subst (λ (x : Result A × World R). Stands id allowed x.1) (sym e)
          (raise_rule (Stands id allowed) (transition t d) rest (transition_refused t d w c) s))

  on_collection_result-Stands :
      (b : Bool)
      → Stands id start_states w
      → Stands id after_deposit (on_collection_result rail id b w).1
  unfolding on_collection_result collection_result awaiting_state on_result
  on_collection_result-Stands b (c, inl missing) =
      raise_rule (Stands id after_deposit) (get id) (collection_result rail b)
        (get_missing id missing) (c, inl missing)
  on_collection_result-Stands b (c, inr (t, h, p, m)) =
      elim (Bool-cases (t.state == collection_pending)) [
        | inl here ↦ Lands→Stands id after_deposit (result-Lands rail id t c h p deposit b here)
        | inr away ↦
            let (x, y, z) = deposit_refused t.state m away in refused b x y (c, inr (t, h, p, z))
      ]
    where
      refused :
          (b : Bool)
          → can_transition t.state collection_succeeded ≡ false
          → can_transition t.state collection_failed ≡ false
          → Stands id after_deposit w
          → Stands id after_deposit (on_collection_result rail id b w).1
      refused true x y s =
          refused-Stands after_deposit (collection_result rail true) collection_succeeded
            (collection_succeeds rail) h x refl s
      refused false x y s =
          refused-Stands after_deposit (collection_result rail false) collection_failed
            (λ _. pure tt) h y refl s

  on_payout_result-Stands :
      (b : Bool) → Stands id after_deposit w → Stands id closing (on_payout_result rail id b w).1
  unfolding on_payout_result payout_result awaiting_state on_result
  on_payout_result-Stands b (c, inl missing) =
      raise_rule (Stands id closing) (get id) (payout_result rail b) (get_missing id missing)
        (c, inl missing)
  on_payout_result-Stands b (c, inr (t, h, p, m)) = elim (Bool-cases (t.state == payout_pending)) [
    | inl here ↦
        let (c', t', h', p', m', _) = result-Lands rail id t c h p payout b here in
        (c', inr (t', h', p', widen_settled t'.state m'))
    | inr away ↦
        let (x, y, z) = payout_refused t.state m away in refused b x y (c, inr (t, h, p, z))
  ]
    where
      refused :
          (b : Bool)
          → can_transition t.state payout_succeeded ≡ false
          → can_transition t.state payout_failed ≡ false
          → Stands id closing w
          → Stands id closing (on_payout_result rail id b w).1
      refused true x y s =
          refused-Stands closing (payout_result rail true) payout_succeeded (book_settlement rail) h
            x refl s
      refused false x y s =
          refused-Stands closing (payout_result rail false) payout_failed (begin_refund rail) h y
            refl s

  on_refund_result-IsConsistent :
      (b : Bool) → Stands id closing w → IsConsistent (on_refund_result rail id b w).1
  unfolding on_refund_result refund_result awaiting_state on_result can_transition
  on_refund_result-IsConsistent b (c, inl missing) =
      raise_rule IsConsistent (get id) (refund_result rail b) (get_missing id missing) c
  on_refund_result-IsConsistent b (c, inr (t, h, p, m)) =
      elim (Bool-cases (t.state == refund_pending)) [
        | inl here ↦ (result-Lands rail id t c h p refund b here).0
        | inr away ↦ let (x, y) = refund_refused t.state m away in refused b x y
      ]
    where
      refused :
          (b : Bool)
          → can_transition t.state manual_review ≡ false
          → (can_transition t.state refunded ≡ false) ⊎ (t.state ≡ manual_review)
          → IsConsistent (on_refund_result rail id b w).1
      refused false x y =
          (refused-Stands closing (refund_result rail false) manual_review (λ _. pure tt) h x refl
            (c, inr (t, h, p, m))).0
      refused true x (inl y) =
          (refused-Stands closing (refund_result rail true) refunded (book_refund rail) h y refl
            (c, inr (t, h, p, m))).0
      refused true x (inr y) =
          bind_rule IsConsistent (get id) (refund_result rail true) (get-eq id h)
            (refunded-Lands rail manual_review refl (IsAt-state rail id t c h p manual_review y)).0

-- A payment that has just been started, played out in any scenario, leaves a consistent world,
-- whatever the rail answers or raises.
pub play_out-IsConsistent :
    {R : Type 0} (rail : PaymentRail R) (id scenario : String) (w : World R)
    → Stands id start_states w
    → IsConsistent (play_out rail id scenario w).1
unfolding play_out
play_out-IsConsistent rail id scenario w s = elim (Bool-cases (scenario == "collection_fail")) [
  | inl e ↦ rw e (on_collection_result-Stands rail id false s).0
  | inr e ↦ rw e (elim (Bool-cases (scenario == "success")) [
    | inl f ↦ rw f (
        seq_rule IsConsistent (on_collection_result rail id true) (on_payout_result rail id true) w
          collected'.0 (on_payout_result-Stands rail id true collected').0)
    | inr f ↦ rw f (
        seq_rule IsConsistent (on_collection_result rail id true)
          (on_payout_result rail id false >> on_refund_result rail id fate) w collected'.0
          (seq_rule IsConsistent (on_payout_result rail id false) (on_refund_result rail id fate)
            (on_collection_result rail id true w).1 failed.0
            (on_refund_result-IsConsistent rail id fate failed)))
  ])
]
  where
    fate : Bool
    fate = not (scenario == "refund_fail")

    collected' : Stands id after_deposit (on_collection_result rail id true w).1
    collected' = on_collection_result-Stands rail id true s

    failed :
        Stands id closing (on_payout_result rail id false (on_collection_result rail id true w).1).1
    failed = on_payout_result-Stands rail id false collected'
