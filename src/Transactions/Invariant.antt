-- ===== src/Transactions/Invariant.antt =====
-- The invariant of the transaction store and the ledger together, and how it is kept while a
-- handler of domains/transactions/ works on one payment.
use drc_pay.Base.{
  String, ◌≡◌, Bool, true, false, ◌&&◌, not, Option, none, some, is_some, List, [], ◌∷◌, ◌++◌, ◌==◌,
  string_eq, arith, if◌then◌else◌, ⊤, Bool-cases, inl, inr,
}
use drc_pay.Int.{pos, ◌<ℤ◌}
use drc_pay.Ledger.Money.{Money}
use drc_pay.Dict.{lookup, values, IsUnique}
use drc_pay.Ledger.Posting.{Posting}
use drc_pay.Transactions.States.{
  TxState, initiated, collection_pending, collection_failed, payout_succeeded, can_transition,
  member, state_eq,
}
use drc_pay.Transactions.Models.{Transaction, World, Provenance, rail_verified, merchant_attested}
use drc_pay.Transactions.Store.{clashes, for_transaction}
use drc_pay.Transactions.Books.{IsPriced, expected}

-- The end of a path of allowed transitions through the list.
walk : TxState → List TxState → Option TxState
walk s [] = some s
walk s (d ∷ l) = let rest = walk d l in if can_transition s d then rest else none

-- The end of such a path that begins at `initiated`.
unfoldable pub traced : List TxState → Option TxState
unfolding walk
traced [] = none
traced (s ∷ l) = if s == initiated then walk s l else none

walk-snoc :
    (s : TxState) (l : List TxState) (e d : TxState)
    → walk s l ≡ some e
    → can_transition e d ≡ true
    → walk s (l ++ d ∷ []) ≡ some d
unfolding walk
walk-snoc s [] e d h c = ground arith
walk-snoc s (x ∷ l) e d h c = ground (arith, walk-snoc x l e d)

pub traced-snoc :
    (l : List TxState) (e d : TxState)
    → traced l ≡ some e
    → can_transition e d ≡ true
    → traced (l ++ d ∷ []) ≡ some d
unfolding traced
traced-snoc [] e d h c = cc
traced-snoc (s ∷ l) e d h c = elim (Bool-cases (s == initiated)) [
  | inl p ↦ rw p (walk-snoc s l e d (rw p at h) c)
  | inr p ↦ cc (rw p at h)
]

abbrev pub on_net_states : List TxState
on_net_states = initiated ∷ collection_pending ∷ collection_failed ∷ payout_succeeded ∷ []

-- A routed payment has its terms right; an on-net payment is of a positive amount, and in one of
-- the states of its flow.
abbrev pub IsKind : Provenance → Money → Money → Option String → Option String → TxState → Type 0
IsKind rail_verified amount fee payer payee state = IsPriced amount fee payer payee
IsKind merchant_attested amount fee payer payee state =
    (pos 0 <ℤ amount.amount_minor) × (member state on_net_states ≡ true)

abbrev pub KindOf : Transaction → Type 0
KindOf t = IsKind t.provenance t.amount t.fee t.customer_provider t.merchant_provider t.state

-- No operation of the rail belongs to the payment.
abbrev pub IsLegless : Transaction → Type 0
IsLegless t = (t.deposit_id ≡ none) × (t.payout_id ≡ none) × (t.refund_id ≡ none)

-- A payment whose history is a path of allowed transitions to its state.
pub record IsSound (t : Transaction) : Type 0 where
  pub legal : traced t.history ≡ some t.state
  pub kind : KindOf t
  pub legless : t.provenance ≡ merchant_attested → IsLegless t

abbrev pub SoundAt : String → Option Transaction → Type 0
SoundAt id none = ⊤
SoundAt id (some t) = (t.id ≡ id) × IsSound t

abbrev pub booked : Option Transaction → List Posting
booked none = []
booked (some t) = expected t

-- `save` of the row would not raise.
abbrev pub clash_free : List Transaction → Option Transaction → Bool
clash_free ts none = true
clash_free ts (some t) = not (is_some t.idempotency_key && clashes t ts)

-- The invariant: every row is sound and stored under its id, no two rows share an idempotency key,
-- and the ledger holds for each id exactly what the state of its payment calls for.
pub record IsConsistent {R : Type 0} (w : World R) : Type 0 where
  pub keys : IsUnique w.rows
  pub sound : (j : String) → SoundAt j (lookup j w.rows)
  pub unique : (j : String) → clash_free (values w.rows) (lookup j w.rows) ≡ true
  pub books : (j : String) → for_transaction j w.postings ≡ booked (lookup j w.rows)

-- The same while a handler is at work on the stored payment `t`, whose postings are now `ps`; the
-- other rows are those of `o`.
pub record IsFocused {R : Type 0} (o : String → Option Transaction) (w : World R) (t : Transaction)
    (ps : List Posting) : Type 0 where
  pub stored : lookup t.id w.rows ≡ some t
  pub keys : IsUnique w.rows
  pub sound : (j : String) → SoundAt j (lookup j w.rows)
  pub unique : (j : String) → clash_free (values w.rows) (lookup j w.rows) ≡ true
  pub others :
      (j : String) → (t.id == j) ≡ false → for_transaction j w.postings ≡ booked (lookup j w.rows)
  pub mine : for_transaction t.id w.postings ≡ ps
  pub frame : (j : String) → (t.id == j) ≡ false → lookup j w.rows ≡ o j
