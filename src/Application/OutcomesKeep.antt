-- ===== src/Application/OutcomesKeep.antt =====
-- application/outcomes.py: an outcome, applied to a routed payment, keeps the ledger in step with
-- the state, and is applied once.
use mathlib.Core.Path.{subst}
use drc_pay.Base.{
  String, ◌≡◌, sym, ap, ◌∙◌, Bool, true, false, Option, none, some, List, ◌==◌, if◌then◌else◌,
  string_eq, arith, Bool-cases, inl, inr, ◌⊎◌,
}
use drc_pay.Exec.{Result, ok, err, ◌>>◌, pure, bind-eq, bind_rule, state-seq-pure, key_error}
use drc_pay.Dict.{lookup}
use drc_pay.Transactions.States.{
  TxState, collection_pending, payout_pending, refund_pending, member, state_eq, state_beq_iff,
}
use drc_pay.Transactions.Models.{
  Transaction, World, rail_verified, Leg, deposit, payout, refund, PaymentRail,
}
use drc_pay.Transactions.Store.{get}
use drc_pay.Transactions.Orchestrator.{
  on_collection_result, on_payout_result, on_refund_result, collection_result, payout_result,
  refund_result,
}
use drc_pay.Transactions.Books.{collected, settled, returned, sold, expected, expected_at}
use drc_pay.Transactions.Invariant.{IsConsistent, IsFocused, IsKind}
use drc_pay.Transactions.Focus.{IsConsistent→IsFocused, IsConsistent→id, IsFocused→IsSound}
use drc_pay.Transactions.Rules.{Lands}
use drc_pay.Transactions.Routed.{IsAt, due}
use drc_pay.Transactions.RoutedKeeps.{
  collection_result-Lands, payout_result-Lands, refund_result-Lands, after_deposit,
  after_settlement, after_return,
}
use drc_pay.Application.Outcomes.{
  Applied, applied, ignored, awaiting_state, on_result, apply_awaited, apply_outcome,
}

-- The states in which an applied outcome of a leg may leave a payment.
abbrev pub outcome_states : Leg → List TxState
outcome_states deposit = after_deposit
outcome_states payout = after_settlement
outcome_states refund = after_return

pub get-eq :
    {R : Type 0} (id : String) {w : World R} {t : Transaction}
    → lookup id w.rows ≡ some t
    → get id w ≡ (ok t, w)
unfolding get
get-eq id h = rw (h, get)

pub get_missing :
    {R : Type 0} (id : String) {w : World R}
    → lookup id w.rows ≡ none
    → get {R = R} id w ≡ (err key_error, w)
unfolding get
get_missing id h = rw (h, get)

module _ {R : Type 0} (rail : PaymentRail R) (id : String) (kind : Leg) (success : Bool) where
  apply_outcome_split :
      (w : World R) {t : Transaction} (b : Bool)
      → lookup id w.rows ≡ some t
      → (t.state == awaiting_state kind) ≡ b
      → apply_outcome rail id kind success w
        ≡ (if b then on_result rail kind id success >> pure applied else pure (ignored t.state)) w
  unfolding apply_outcome
  apply_outcome_split w {t} b stored p =
      bind-eq (get id) (λ x. apply_awaited rail id x kind success) (get-eq id stored)
      ∙ ap
          (λ x.
            (if x then on_result rail kind id success >> pure applied else pure (ignored t.state))
              w)
          p

module _ {R : Type 0} (rail : PaymentRail R) {w : World R} (id : String) (t : Transaction)
    (c : IsConsistent w) (stored : lookup id w.rows ≡ some t)
    (routed : t.provenance ≡ rail_verified) where
  abbrev pub others : String → Option Transaction
  others j = lookup j w.rows

  pub IsAt-state : (s : TxState) → t.state ≡ s → IsAt others s (due s t) w t
  IsAt-state s e =
      let f : IsFocused others w t (expected t) = IsConsistent→IsFocused id t c stored in
      record {
        routed = routed;
        state = e;
        priced =
            subst (λ p. IsKind p t.amount t.fee t.customer_provider t.merchant_provider t.state)
              routed (IsFocused→IsSound f).kind;
        focus =
            subst (IsFocused others w t)
              (λ i. expected_at (routed i) (e i) (collected t) (settled t) (returned t) (sold t)) f;
      }

  -- The outcome of the awaited leg: the invariant is kept whatever the rail answers, and also if a
  -- handler raises; the payment ends in one of the leg's states, and no other row changes.
  on_result-Lands :
      (kind : Leg) (success : Bool)
      → t.state ≡ awaiting_state kind
      → Lands rail_verified others t.id (outcome_states kind) (on_result rail kind id success w).1
  unfolding on_result awaiting_state on_collection_result on_payout_result on_refund_result
  on_result-Lands deposit success e =
      bind_rule (Lands rail_verified others t.id after_deposit) (get id)
        (collection_result rail success) (get-eq id stored)
        (collection_result-Lands rail success (IsAt-state collection_pending e))
  on_result-Lands payout success e =
      bind_rule (Lands rail_verified others t.id after_settlement) (get id)
        (payout_result rail success) (get-eq id stored)
        (payout_result-Lands rail success (IsAt-state payout_pending e))
  on_result-Lands refund success e =
      bind_rule (Lands rail_verified others t.id after_return) (get id) (refund_result rail success)
        (get-eq id stored) (refund_result-Lands rail success (IsAt-state refund_pending e))

  -- The same, by the id under which the payment is stored.
  pub result-Lands :
      (kind : Leg) (success : Bool)
      → (t.state == awaiting_state kind) ≡ true
      → Lands rail_verified others id (outcome_states kind) (on_result rail kind id success w).1
  result-Lands kind success p =
      subst
        (λ j.
          Lands rail_verified others j (outcome_states kind) (on_result rail kind id success w).1)
        (IsConsistent→id id t c stored)
        (on_result-Lands kind success ((state_beq_iff t.state (awaiting_state kind)).0 p))

  apply_outcome-Lands :
      (kind : Leg) (success : Bool)
      → (t.state == awaiting_state kind) ≡ true
      → Lands rail_verified others id (outcome_states kind) (apply_outcome rail id kind success w).1
  apply_outcome-Lands kind success p =
      subst (Lands rail_verified others id (outcome_states kind))
        (sym (
          ap (λ (x : Result Applied × World R). x.1)
            (apply_outcome_split rail id kind success w true stored p)
          ∙ state-seq-pure (on_result rail kind id success) applied w))
        (result-Lands kind success p)

  -- An outcome for a routed payment in a consistent world: if the payment awaits the leg, then
  -- whatever the rail answers or raises, the world is consistent again, the payment is in one of the
  -- states that the leg may lead to, and no other row has changed; otherwise the outcome is ignored
  -- and nothing changes.
  pub apply_outcome_lem :
      (kind : Leg) (success : Bool)
      → ((t.state ≡ awaiting_state kind)
          × Lands rail_verified others id
              (outcome_states kind)
              (apply_outcome rail id kind success w).1)
        ⊎ (apply_outcome rail id kind success w ≡ (ok (ignored t.state), w))
  apply_outcome_lem kind success = elim (Bool-cases (t.state == awaiting_state kind)) [
    | inl p ↦
        inl ((state_beq_iff t.state (awaiting_state kind)).0 p, apply_outcome-Lands kind success p)
    | inr p ↦ inr (apply_outcome_split rail id kind success w false stored p)
  ]

outcome-not-awaiting :
    (kind : Leg) (s : TxState)
    → member s (outcome_states kind) ≡ true
    → (s == awaiting_state kind) ≡ false
unfolding member awaiting_state
outcome-not-awaiting deposit s h = ground arith
outcome-not-awaiting payout s h = ground arith
outcome-not-awaiting refund s h = ground arith

-- In a consistent world, an outcome for a leg of a routed payment has its effect once: after any
-- delivery of it, whatever that did, every later delivery for the same leg is ignored and changes
-- nothing.
pub apply_outcome_once :
    {R : Type 0} (rail : PaymentRail R) {w : World R} (id : String) (t : Transaction) (kind : Leg)
    (success again : Bool)
    → IsConsistent w
    → lookup id w.rows ≡ some t
    → t.provenance ≡ rail_verified
    → let w' = (apply_outcome rail id kind success w).1 in
      (s : TxState) × (apply_outcome rail id kind again w' ≡ (ok (ignored s), w'))
apply_outcome_once rail {w} id t kind success again c h e =
    elim (Bool-cases (t.state == awaiting_state kind)) [
      | inl p ↦
          let (_, t', h', _, m, _) = apply_outcome-Lands rail id t c h e kind success p in
          (
            t'.state,
            apply_outcome_split rail id kind again _ false h'
                (outcome-not-awaiting kind t'.state m),
          )
      | inr p ↦
          subst (λ x. (s : TxState) × (apply_outcome rail id kind again x ≡ (ok (ignored s), x)))
            (sym (
              ap (λ (x : Result Applied × World _). x.1)
                (apply_outcome_split rail id kind success w false h p)))
            (t.state, apply_outcome_split rail id kind again w false h p)
    ]
