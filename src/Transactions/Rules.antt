-- ===== src/Transactions/Rules.antt =====
-- A rule for each step of a handler of domains/transactions/: `_transition`, `_store_op_id`, `_post`
-- and a call of the rail, on a focused payment.
use mathlib.Core.List.{append-nil}
use drc_pay.Base.{
  inr, none, ◌⊎◌, String, ◌≡◌, refl, ap, ◌∙◌, ◌≤◌, true, false, Option, some, List, [], ◌∷◌, ◌++◌,
  ◌==◌, string_eq, beq_refl, filter-append, filter_keep, filter_drop, length,
}
use drc_pay.Exec.{illegal_transition, Result, ok, err, Exec, ◌>>=◌, pure, bind-eq}
use drc_pay.Dict.{lookup}
use drc_pay.Ledger.Posting.{Entry, Posting}
use drc_pay.Ledger.Balance.{IsBalanced, posting_ok_iff}
use drc_pay.Transactions.States.{TxState, can_transition, member}
use drc_pay.Transactions.Models.{
  Provenance, Transaction, World, rail_verified, Leg, deposit, payout, refund, Answer,
}
use drc_pay.Transactions.Store.{for_transaction, post, save}
use drc_pay.Transactions.Steps.{moved, transition, post_entries, with_op_id, ask}
use drc_pay.Transactions.Books.{expected, for_tx}
use drc_pay.Transactions.Invariant.{IsSound, IsConsistent, IsFocused, traced-snoc, KindOf}
use drc_pay.Transactions.Focus.{
  put, appended, with_rail, IsFocused→IsConsistent, IsFocused→IsSound, IsSameKey, save-eq,
  put-IsFocused,
}

-- Where a handler may leave the payment `id`: the invariant holds, its state is one
-- of these, its provenance is `p`, and the other rows are those of `o`.
abbrev pub Lands :
    {R : Type 0}
    → Provenance
    → (String → Option Transaction)
    → String
    → List TxState
    → World R
    → Type 0
Lands p o id allowed w =
    IsConsistent w
    × (t : Transaction) × (lookup id w.rows ≡ some t)
    × (t.provenance ≡ p)
    × (member t.state allowed ≡ true)
    × ((j : String) → (t.id == j) ≡ false → lookup j w.rows ≡ o j)

-- The invariant holds, and the payment `id`, if it is there, is a routed one in one of these states.
abbrev pub Stands : {R : Type 0} → String → List TxState → World R → Type 0
Stands id allowed w =
    IsConsistent w
    × ((lookup id w.rows ≡ none)
        ⊎ ((t : Transaction) × (lookup id w.rows ≡ some t)
            × (t.provenance ≡ rail_verified)
            × (member t.state allowed ≡ true)))

pub Lands→Stands :
    {R : Type 0} {o : String → Option Transaction} {w : World R} (id : String)
    (allowed : List TxState)
    → Lands rail_verified o id allowed w
    → Stands id allowed w
Lands→Stands id allowed (c, t, h, p, m, _) = (c, inr (t, h, p, m))

-- A transition that is not allowed raises, and changes nothing.
pub transition_refused :
    {R : Type 0} (t : Transaction) (d : TxState) (w : World R)
    → can_transition t.state d ≡ false
    → transition t d w ≡ (err (illegal_transition t.state d), w)
unfolding transition
transition_refused t d w h = rw h refl

for_transaction-snoc_self :
    (p : Posting) (l : List Posting)
    → for_transaction p.transaction_id (l ++ p ∷ []) ≡ for_transaction p.transaction_id l ++ p ∷ []
unfolding for_transaction
for_transaction-snoc_self p l = rw filter-append (rw (filter_keep _ p (beq_refl p.transaction_id)))

for_transaction-snoc_ne :
    (j : String) (p : Posting) (l : List Posting)
    → (p.transaction_id == j) ≡ false
    → for_transaction j (l ++ p ∷ []) ≡ for_transaction j l
unfolding for_transaction
for_transaction-snoc_ne j p l h = rw filter-append (rw (filter_drop _ p h) (append-nil _))

pub IsSameKey-with_op_id :
    (kind : Leg) (op : String) (t : Transaction) → IsSameKey t (with_op_id kind op t)
IsSameKey-with_op_id deposit op t = record { id = refl; key = refl }
IsSameKey-with_op_id _ op t = record { id = refl; key = refl }

IsSound-with_op_id :
    (kind : Leg) (op : String) (t : Transaction)
    → t.provenance ≡ rail_verified
    → IsSound t
    → IsSound (with_op_id kind op t)
IsSound-with_op_id deposit op t e s = record { legal = s.legal; kind = s.kind; legless = λ n. cc }
IsSound-with_op_id payout op t e s = record { legal = s.legal; kind = s.kind; legless = λ n. cc }
IsSound-with_op_id refund op t e s = record { legal = s.legal; kind = s.kind; legless = λ n. cc }

-- Balanced entries are posted.
pub post_entries-eq :
    {R : Type 0} (t : Transaction) (es : List Entry) (w : World R)
    → 2 ≤ length es
    → IsBalanced es
    → post_entries t es w ≡ (ok tt, appended (for_tx t es) w)
unfolding post_entries post
post_entries-eq t es w n b = rw ((posting_ok_iff t.id es).1 (n, b))

module _ {R : Type 0} {w : World R} {t : Transaction} {ps : List Posting}
    {o : String → Option Transaction} where
  pub IsFocused→Lands :
      {p : Provenance} (allowed : List TxState)
      → t.provenance ≡ p
      → IsFocused o w t ps
      → ps ≡ expected t
      → member t.state allowed ≡ true
      → Lands p o t.id allowed w
  IsFocused→Lands allowed q f e m = (IsFocused→IsConsistent f e, t, f.stored, q, m, f.frame)

  -- An allowed transition of a stored payment succeeds.
  pub transition-eq :
      (d : TxState)
      → IsFocused o w t ps
      → can_transition t.state d ≡ true
      → transition t d w ≡ (ok (moved t d), put (moved t d) w)
  unfolding transition
  transition-eq d f c = rw c (
      bind-eq (save (moved t d)) (λ _. pure (moved t d))
        (save-eq f (record { id = refl; key = refl })))

  pub moved-IsFocused :
      (d : TxState)
      → IsFocused o w t ps
      → can_transition t.state d ≡ true
      → KindOf (moved t d)
      → IsFocused o (put (moved t d) w) (moved t d) ps
  moved-IsFocused d f c k =
      put-IsFocused f (record { id = refl; key = refl })
        (record {
          legal = traced-snoc t.history t.state d (IsFocused→IsSound f).legal c;
          legless = (IsFocused→IsSound f).legless;
          kind = k;
        })

  pub appended-IsFocused :
      (es : List Entry)
      → IsFocused o w t ps
      → IsFocused o (appended (for_tx t es) w) t (ps ++ for_tx t es ∷ [])
  appended-IsFocused es f = record {
    stored = f.stored;
    keys = f.keys;
    sound = f.sound;
    unique = f.unique;
    others = λ j h. for_transaction-snoc_ne j (for_tx t es) w.postings h ∙ f.others j h;
    mine =
        for_transaction-snoc_self (for_tx t es) w.postings
        ∙ ap (λ (l : List Posting). l ++ for_tx t es ∷ []) f.mine;
    frame = f.frame;
  }

  pub op_id-IsFocused :
      (kind : Leg) (op : String)
      → t.provenance ≡ rail_verified
      → IsFocused o w t ps
      → IsFocused o (put (with_op_id kind op t) w) (with_op_id kind op t) ps
  op_id-IsFocused kind op e f =
      put-IsFocused f (IsSameKey-with_op_id kind op t)
        (IsSound-with_op_id kind op t e (IsFocused→IsSound f))

ask_cases :
    {R A : Type 0} (P : World R → Type 0) (k : Answer → Exec (World R) A) (w : World R)
    (x : Result Answer × R)
    → ((s : R) → P (with_rail s w))
    → ((a : Answer) (s : R) → P (k a (with_rail s w)).1)
    → P (◌>>=◌ (λ v. (x.0, with_rail x.1 v)) k w).1
ask_cases P k w (ok a, s) stop go = go a s
ask_cases P k w (err e, s) stop go = stop s

-- Whatever the rail answers, and also if it raises.
pub ask_rule :
    {R A : Type 0} (P : World R → Type 0) (f : R → Result Answer × R)
    (k : Answer → Exec (World R) A) (w : World R)
    → ((s : R) → P (with_rail s w))
    → ((a : Answer) (s : R) → P (k a (with_rail s w)).1)
    → P (◌>>=◌ (ask f) k w).1
unfolding ask
ask_rule P f k w stop go = ask_cases P k w (f w.rail) stop go
