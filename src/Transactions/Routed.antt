-- ===== src/Transactions/Routed.antt =====
-- A routed payment under the steps of domains/transactions/orchestrator.py: its state, its terms and
-- the postings that it has so far.
use drc_pay.Base.{◌++◌, String, ◌≡◌, refl, true, Option, none, some, List, [], ◌∷◌}
use drc_pay.Exec.{ok}
use drc_pay.Ledger.Posting.{Entry, Posting}
use drc_pay.Transactions.States.{TxState, can_transition, member}
use drc_pay.Transactions.Models.{Transaction, World, rail_verified, Leg, deposit, payout, refund}
use drc_pay.Transactions.Steps.{moved, transition, store_op_id, with_op_id}
use drc_pay.Transactions.Books.{IsRouted, expected_at, for_tx, collected, settled, returned, sold}
use drc_pay.Transactions.Invariant.{IsFocused, IsKind}
use drc_pay.Transactions.Focus.{put, appended, with_rail, IsFocused-with_rail, save-eq}
use drc_pay.Transactions.Rules.{
  Lands, IsFocused→Lands, transition-eq, moved-IsFocused, op_id-IsFocused, appended-IsFocused,
  IsSameKey-with_op_id,
}

-- A routed payment in state `s` on which a handler works, with the postings that it has.
pub record IsAt {R : Type 0} (o : String → Option Transaction) (s : TxState) (ps : List Posting)
    (w : World R) (t : Transaction) : Type 0 where
  pub routed : t.provenance ≡ rail_verified
  pub state : t.state ≡ s
  pub priced : IsRouted t
  pub focus : IsFocused o w t ps

-- What the books should hold for a routed payment in state `s`.
abbrev pub due : TxState → Transaction → List Posting
due s t = expected_at rail_verified s (collected t) (settled t) (returned t) (sold t)

module _ {R : Type 0} {w : World R} {t : Transaction} {s : TxState} {ps : List Posting}
    {o : String → Option Transaction} where
  pub IsAt→Lands :
      (allowed : List TxState)
      → member s allowed ≡ true
      → ps ≡ due s t
      → IsAt o s ps w t
      → Lands rail_verified o t.id allowed w
  IsAt→Lands allowed m e a =
      IsFocused→Lands allowed a.routed a.focus (rw (a.routed, a.state) e) (rw a.state m)

  pub IsAt-with_rail : (x : R) → IsAt o s ps w t → IsAt o s ps (with_rail x w) t
  IsAt-with_rail x a = record {
    routed = a.routed;
    state = a.state;
    priced = a.priced;
    focus = IsFocused-with_rail x a.focus;
  }

  IsKind-of_routed :
      (d : TxState)
      → IsAt o s ps w t
      → IsKind t.provenance t.amount t.fee t.customer_provider t.merchant_provider d
  IsKind-of_routed d a = rw a.routed a.priced

  -- An allowed transition of the payment.
  pub IsAt-moved :
      (d : TxState)
      → can_transition s d ≡ true
      → IsAt o s ps w t
      → IsAt o d ps (put (moved t d) w) (moved t d)
  IsAt-moved d c a = record {
    routed = a.routed;
    state = refl;
    priced = a.priced;
    focus = moved-IsFocused d a.focus (rw a.state c) (IsKind-of_routed d a);
  }

  pub transition-at :
      (d : TxState)
      → can_transition s d ≡ true
      → IsAt o s ps w t
      → transition t d w ≡ (ok (moved t d), put (moved t d) w)
  transition-at d c a = transition-eq d a.focus (rw a.state c)

  pub IsAt-appended :
      (es : List Entry)
      → IsAt o s ps w t
      → IsAt o s (ps ++ for_tx t es ∷ []) (appended (for_tx t es) w) t
  IsAt-appended es a = record {
    routed = a.routed;
    state = a.state;
    priced = a.priced;
    focus = appended-IsFocused es a.focus;
  }

  IsAt-with_op_id :
      (kind : Leg) (op : String)
      → IsAt o s ps w t
      → IsAt o s ps (put (with_op_id kind op t) w) (with_op_id kind op t)
  IsAt-with_op_id deposit op a = record {
    routed = a.routed;
    state = a.state;
    priced = a.priced;
    focus = op_id-IsFocused deposit op a.routed a.focus;
  }
  IsAt-with_op_id payout op a = record {
    routed = a.routed;
    state = a.state;
    priced = a.priced;
    focus = op_id-IsFocused payout op a.routed a.focus;
  }
  IsAt-with_op_id refund op a = record {
    routed = a.routed;
    state = a.state;
    priced = a.priced;
    focus = op_id-IsFocused refund op a.routed a.focus;
  }

-- The handler's `_store_op_id` at the end of a leg.
pub store_op_id-Lands :
    {R : Type 0} {w : World R} {t : Transaction} {s : TxState} {ps : List Posting}
    {o : String → Option Transaction} (kind : Leg) (op : Option String) (allowed : List TxState)
    → member s allowed ≡ true
    → ps ≡ due s t
    → IsAt o s ps w t
    → Lands rail_verified o t.id allowed (store_op_id kind op t w).1
unfolding store_op_id
store_op_id-Lands kind none allowed m e a = IsAt→Lands allowed m e a
store_op_id-Lands deposit (some op) allowed m e a =
    rw (save-eq a.focus (IsSameKey-with_op_id deposit op _))
      (IsAt→Lands allowed m e (IsAt-with_op_id deposit op a))
store_op_id-Lands payout (some op) allowed m e a =
    rw (save-eq a.focus (IsSameKey-with_op_id payout op _))
      (IsAt→Lands allowed m e (IsAt-with_op_id payout op a))
store_op_id-Lands refund (some op) allowed m e a =
    rw (save-eq a.focus (IsSameKey-with_op_id refund op _))
      (IsAt→Lands allowed m e (IsAt-with_op_id refund op a))
