-- ===== src/Sweep/Keeps.antt =====
-- jobs/reconciliation/sweep.py: the sweep of one payment keeps the ledger in step with the state.
use drc_pay.Transactions.Focus.{IsConsistent→id}
use mathlib.Core.Path.{subst}
use drc_pay.Base.{
  ◌==◌, String, string_eq, ◌≡◌, refl, sym, ap, true, false, Option, none, some, is_some, Bool, inl,
  inr, [], ◌∷◌,
}
use drc_pay.Exec.{◌>>=◌, pure, state-then_pure}
use drc_pay.Dict.{lookup}
use drc_pay.Pawapay.Status.{Outcome, success, failure, pending, classify}
use drc_pay.Transactions.States.{
  TxState, collection_pending, payout_pending, refund_pending, member, pending_states, state_eq,
}
use drc_pay.Transactions.Models.{
  Transaction, World, rail_verified, merchant_attested, Leg, deposit, payout, refund, PaymentRail,
  Provenance,
}
use drc_pay.Transactions.Invariant.{IsConsistent, IsSound, IsLegless, SoundAt}
use drc_pay.Application.Outcomes.{awaiting_state, apply_outcome}
use drc_pay.Application.OutcomesKeep.{apply_outcome_lem}
use drc_pay.Sweep.{
  StatusPoller, Poll, status, http_error, leg_for_state, op_id, poll, apply_terminal, resolve,
  resolve_poll, poll_leg, sweep_one, resolved,
}

pending_lem : (s : TxState) → is_some (leg_for_state s) ≡ member s pending_states
unfolding leg_for_state member pending_states
pending_lem collection_pending = refl
pending_lem payout_pending = refl
pending_lem refund_pending = refl
pending_lem _ = refl

awaited : (s : TxState) (kind : Leg) → leg_for_state s ≡ some kind → awaiting_state kind ≡ s
unfolding leg_for_state awaiting_state
awaited collection_pending deposit e = refl
awaited payout_pending payout e = refl
awaited refund_pending refund e = refl
awaited _ kind e = cc

-- The sweep polls exactly the payments in a pending state, for the leg whose outcome applies in that
-- state.
pub leg_for_state-awaiting :
    (s : TxState)
    → (is_some (leg_for_state s) ≡ member s pending_states)
      × ((kind : Leg) → leg_for_state s ≡ some kind → awaiting_state kind ≡ s)
leg_for_state-awaiting s = (pending_lem s, λ kind e. awaited s kind e)

-- What has an operation at the rail is a routed payment.
routed_of_op :
    (t : Transaction) (kind : Leg) (op : String)
    → IsSound t
    → op_id t kind ≡ some op
    → t.provenance ≡ rail_verified
unfolding op_id
routed_of_op t kind op s h = routed t.provenance refl
  where
    at_leg : IsLegless t → (k : Leg) → op_id t k ≡ some op → t.provenance ≡ rail_verified
    at_leg (d, p, r) deposit h = cc
    at_leg (d, p, r) payout h = cc
    at_leg (d, p, r) refund h = cc

    routed : (p : Provenance) → t.provenance ≡ p → t.provenance ≡ rail_verified
    routed rail_verified e = e
    routed merchant_attested e = at_leg (s.legless e) kind h

-- What the sweep of the payment `t` keeps: the invariant, and every row but that of `t`.
abbrev pub Kept : {R : Type 0} → Transaction → World R → World R → Type 0
Kept t w v =
    IsConsistent v × ((j : String) → (t.id == j) ≡ false → lookup j v.rows ≡ lookup j w.rows)

module _ {R : Type 0} (rail : PaymentRail R) (poller : StatusPoller R) {w : World R}
    (t : Transaction) (c : IsConsistent w) (stored : lookup t.id w.rows ≡ some t) where
  unchanged : Kept t w w
  unchanged = (c, λ j _. refl)

  applied-Kept :
      (kind : Leg) (good : Bool)
      → t.provenance ≡ rail_verified
      → Kept t w (apply_outcome rail t.id kind good w).1
  applied-Kept kind good e = elim (apply_outcome_lem rail t.id t c stored e kind good) [
    | inl (_, (k, t', h, _, _, frame)) ↦
        (k, λ j n. frame j (subst (λ x. (x == j) ≡ false) (sym (IsConsistent→id t.id t' k h)) n))
    | inr same ↦ subst (Kept t w) (sym (ap (λ x. x.1) same)) unchanged
  ]

  after-Kept :
      (kind : Leg) (good : Bool) (d : Outcome)
      → t.provenance ≡ rail_verified
      → Kept t w
          (◌>>=◌ {S = World R} (apply_outcome rail t.id kind good) (λ a. pure (resolved d a)) w).1
  after-Kept kind good d e =
      subst (Kept t w)
        (sym (state-then_pure (apply_outcome rail t.id kind good) (λ a. resolved d a) w))
        (applied-Kept kind good e)

  resolve_poll-Kept :
      (kind : Leg) (answer : Poll)
      → t.provenance ≡ rail_verified
      → Kept t w (resolve_poll rail t.id kind answer w).1
  unfolding resolve_poll resolve apply_terminal
  resolve_poll-Kept kind http_error e = unchanged
  resolve_poll-Kept kind (status none) e = unchanged
  resolve_poll-Kept kind (status (some raw)) e = terminal (classify (some raw))
    where
      terminal : (d : Outcome) → Kept t w (apply_terminal rail t.id kind d w).1
      terminal pending = unchanged
      terminal success = after-Kept kind true success e
      terminal failure = after-Kept kind false failure e

  poll_leg-Kept :
      (kind : Leg) (op : Option String)
      → op_id t kind ≡ op
      → Kept t w (poll_leg rail poller t.id kind op w).1
  unfolding poll_leg
  poll_leg-Kept kind none h = unchanged
  poll_leg-Kept kind (some op) h =
      resolve_poll-Kept kind (poll poller kind op w.rail)
        (routed_of_op t kind op (subst (SoundAt t.id) stored (c.sound t.id)).1 h)

  pub sweep_one-Kept : (leg : Option Leg) → Kept t w (sweep_one rail poller t leg w).1
  unfolding sweep_one
  sweep_one-Kept none = unchanged
  sweep_one-Kept (some kind) =
      subst (Kept t w)
        (sym (
          state-then_pure (poll_leg rail poller t.id kind (op_id t kind))
            (λ d. record { transaction_id = t.id; kind = kind; disposition = d } ∷ []) w))
        (poll_leg-Kept kind (op_id t kind) refl)

  -- The sweep of a stored payment, routed or on-net, in any state of a consistent world leaves the
  -- world consistent, whatever the poll says and whatever the rail answers or raises.
  pub sweep_one-IsConsistent : IsConsistent (sweep_one rail poller t (leg_for_state t.state) w).1
  sweep_one-IsConsistent = (sweep_one-Kept (leg_for_state t.state)).0
