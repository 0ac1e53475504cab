-- ===== src/Transactions/OnNetKeeps.antt =====
-- domains/transactions/on_net.py: starting an on-net payment, and confirming or failing it, keep
-- the ledger in step with the state.
use mathlib.Core.Path.{subst}
use drc_pay.Base.{
  String, ◌≡◌, refl, sym, ap, ◌∙◌, Bool, true, false, Option, none, some, List, [], ◌∷◌, ◌++◌,
  string_eq, arith, inl, inr,
}
use drc_pay.Int.{pos, ◌<ℤ◌}
use drc_pay.Exec.{ok, value_error, ◌>>◌, pure, bind_rule, raise_rule, require_rule}
use drc_pay.Dict.{lookup, values}
use drc_pay.Ledger.Money.{is_positive}
use drc_pay.Ledger.Posting.{Posting}
use drc_pay.Transactions.States.{
  TxState, initiated, collection_pending, collection_failed, payout_succeeded, can_transition,
  member, state_eq,
}
use drc_pay.Transactions.Models.{Transaction, World, merchant_attested}
use drc_pay.Transactions.Store.{save, get}
use drc_pay.Transactions.Steps.{
  customer, merchant, debited, credited, transition, moved, post_entries,
}
use drc_pay.Transactions.OnNet.{OnNetStart, new_on_net, start, on_confirm}
use drc_pay.Transactions.Books.{
  expected, expected_at, collected, settled, returned, sold, on_net_entries, pair_IsBalanced,
}
use drc_pay.Transactions.Invariant.{IsConsistent, IsFocused, IsKind, KindOf, traced, clash_free}
use drc_pay.Transactions.Focus.{put, IsFocused→IsSound, IsConsistent→IsFocused}
use drc_pay.Transactions.Rules.{
  Lands, IsFocused→Lands, transition-eq, moved-IsFocused, appended-IsFocused, post_entries-eq,
}
use drc_pay.Transactions.NewRows.{new-IsFocused, save_new-cases}

KindOf-on_net :
    (t : Transaction) (d : TxState)
    → t.provenance ≡ merchant_attested
    → pos 0 <ℤ t.amount.amount_minor
    → member d (initiated ∷ collection_pending ∷ collection_failed ∷ payout_succeeded ∷ []) ≡ true
    → KindOf (moved t d)
KindOf-on_net t d e p m =
    subst (λ x. IsKind x t.amount t.fee t.customer_provider t.merchant_provider d) (sym e) (p, m)

expected-on_net :
    (t : Transaction) (d : TxState)
    → t.provenance ≡ merchant_attested
    → expected (moved t d)
      ≡ expected_at merchant_attested d (collected t) (settled t) (returned t) (sold t)
expected-on_net t d e = ap (λ x. expected_at x d (collected t) (settled t) (returned t) (sold t)) e

module _ {R : Type 0} {o : String → Option Transaction} {w : World R} {t : Transaction}
    (attested : t.provenance ≡ merchant_attested) (positive : pos 0 <ℤ t.amount.amount_minor) where
  -- The last step of a handler: the transition to `d`, for which the postings are already right.
  last_move-Lands :
      {ps : List Posting} (d : TxState)
      → IsFocused o w t ps
      → can_transition t.state d ≡ true
      → member d (initiated ∷ collection_pending ∷ collection_failed ∷ payout_succeeded ∷ []) ≡ true
      → ps ≡ expected (moved t d)
      → member d (d ∷ []) ≡ true
      → Lands merchant_attested o t.id (d ∷ []) ((transition t d >> pure tt) w).1
  last_move-Lands d f c m e here =
      bind_rule (Lands merchant_attested o t.id (d ∷ [])) (transition t d) (λ _. pure tt)
        (transition-eq d f c)
        (IsFocused→Lands (d ∷ []) attested
          (moved-IsFocused d f c (KindOf-on_net t d attested positive m)) e here)

module _ {R : Type 0} {w : World R} (s : OnNetStart) (c : IsConsistent w)
    (missing : lookup s.transaction_id w.rows ≡ none) where
  new_on_net-IsFocused :
      pos 0 <ℤ s.amount.amount_minor
      → clash_free (values w.rows) (some (new_on_net s)) ≡ true
      → IsFocused (λ j. lookup j w.rows) (put (new_on_net s) w) (new_on_net s) []
  unfolding new_on_net traced member
  new_on_net-IsFocused p free =
      new-IsFocused w (new_on_net s) c missing free
        (record { legal = refl; kind = (p, refl); legless = λ e. (refl, refl, refl) })

  saved-IsConsistent :
      pos 0 <ℤ s.amount.amount_minor
      → IsConsistent
          (◌>>◌ {S = World R}
            (save (new_on_net s))
            (transition (new_on_net s) collection_pending >> pure tt)
            w).1
  unfolding new_on_net can_transition member
  saved-IsConsistent p = elim (save_new-cases w (new_on_net s)) [
    | inl e ↦
        raise_rule IsConsistent (save (new_on_net s))
          (λ _. transition (new_on_net s) collection_pending >> pure tt) e c
    | inr (free, e) ↦
        bind_rule IsConsistent (save (new_on_net s))
          (λ _. transition (new_on_net s) collection_pending >> pure tt) e
          (last_move-Lands refl p collection_pending (new_on_net-IsFocused p free) refl refl refl
            refl).0
  ]

  -- An on-net payment started under a new id in a consistent world leaves the world consistent,
  -- whether or not the test of the amount and the store let it through.
  pub start-IsConsistent : IsConsistent (start s w).1
  unfolding start
  start-IsConsistent =
      require_rule IsConsistent (is_positive s.amount) value_error
        (save (new_on_net s) >> (transition (new_on_net s) collection_pending >> pure tt)) c
        (λ p. saved-IsConsistent (ground arith))

-- The state that a confirmation, or the lack of one, leads to.
abbrev pub confirmed : Bool → TxState
confirmed true = payout_succeeded
confirmed false = collection_failed

get-eq :
    {R : Type 0} (id : String) {w : World R} {t : Transaction}
    → lookup id w.rows ≡ some t
    → get id w ≡ (ok t, w)
unfolding get
get-eq id h = rw (h, get)

module _ {R : Type 0} {w : World R} (t : Transaction) (c : IsConsistent w)
    (stored : lookup t.id w.rows ≡ some t) (attested : t.provenance ≡ merchant_attested)
    (awaits : t.state ≡ collection_pending) where
  abbrev others : String → Option Transaction
  others j = lookup j w.rows

  focus : IsFocused others w t (expected t)
  focus = IsConsistent→IsFocused t.id t c stored

  positive : pos 0 <ℤ t.amount.amount_minor
  positive =
      (subst (λ x. IsKind x t.amount t.fee t.customer_provider t.merchant_provider t.state) attested
        (IsFocused→IsSound focus).kind).0

  none_yet : expected t ≡ []
  none_yet =
      ap (λ x. expected_at x t.state (collected t) (settled t) (returned t) (sold t)) attested
      ∙ ap (λ x. expected_at merchant_attested x (collected t) (settled t) (returned t) (sold t))
          awaits

  -- A confirmation or a refusal of an on-net payment that awaits it, in a consistent world: the
  -- world is consistent again, the payment is settled or failed as the merchant said, and no other
  -- row has changed.
  pub on_confirm-Lands :
      (success : Bool)
      → Lands merchant_attested others t.id (confirmed success ∷ []) (on_confirm t.id success w).1
  unfolding on_confirm can_transition member
  on_confirm-Lands false =
      bind_rule (Lands merchant_attested others t.id (collection_failed ∷ [])) (get t.id)
        (λ x. transition x collection_failed >> pure tt) (get-eq t.id stored)
        (last_move-Lands attested positive collection_failed focus (rw awaits refl) refl
          (none_yet ∙ sym (expected-on_net t collection_failed attested)) refl)
  on_confirm-Lands true =
      bind_rule (Lands merchant_attested others t.id (payout_succeeded ∷ [])) (get t.id)
        (λ x.
          post_entries x (debited customer x.amount ∷ credited merchant x.amount ∷ [])
          >> (transition x payout_succeeded >> pure tt))
        (get-eq t.id stored)
        (bind_rule (Lands merchant_attested others t.id (payout_succeeded ∷ []))
          (post_entries t (on_net_entries t)) (λ _. transition t payout_succeeded >> pure tt)
          (post_entries-eq t (on_net_entries t) w (omega arith)
            (pair_IsBalanced customer merchant t.amount))
          (last_move-Lands attested positive payout_succeeded
            (appended-IsFocused (on_net_entries t) focus) (rw awaits refl) refl
            (ap (λ (l : List Posting). l ++ sold t ∷ []) none_yet
              ∙ sym (expected-on_net t payout_succeeded attested))
            refl))
