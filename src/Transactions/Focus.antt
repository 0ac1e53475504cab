-- ===== src/Transactions/Focus.antt =====
-- How `save`, `post` and a call of the rail change the invariant while a handler works on one stored
-- payment. A second `save` of a stored payment never raises.
use drc_pay.Base.{
  sym, ◌∙◌, ◌||◌, String, ◌≡◌, refl, ap, Bool, true, false, ◌&&◌, not, Option, none, some, List, [],
  ◌∷◌, ◌++◌, ◌==◌, string_eq, eq_iff, beq_refl, arith, Bool-cases, inl, inr,
}
use drc_pay.Exec.{ok}
use drc_pay.Dict.{insert-IsUnique, Dict, lookup, insert, values, lookup-insert}
use drc_pay.Ledger.Posting.{Posting}
use drc_pay.Transactions.States.{state_eq}
use drc_pay.Transactions.Models.{Transaction, World}
use drc_pay.Transactions.Store.{clashes, save, for_transaction, same_option}
use drc_pay.Transactions.Books.{expected}
use drc_pay.Transactions.Invariant.{IsSound, SoundAt, booked, clash_free, IsConsistent, IsFocused}
use mathlib.Core.Path.{subst}

abbrev pub put : {R : Type 0} → Transaction → World R → World R
put t w = record w { rows = insert t.id t w.rows }

abbrev pub appended : {R : Type 0} → Posting → World R → World R
appended p w = record w { postings = w.postings ++ p ∷ [] }

abbrev pub with_rail : {R : Type 0} → R → World R → World R
with_rail s w = record w { rail = s }

module _ {R : Type 0} {w : World R} {t : Transaction} {ps : List Posting}
    {o : String → Option Transaction} where
  -- A focus that the books agree with is the invariant again.
  pub IsFocused→IsConsistent : IsFocused o w t ps → ps ≡ expected t → IsConsistent w
  IsFocused→IsConsistent f e = record {
    keys = f.keys;
    sound = f.sound;
    unique = f.unique;
    books = λ j. elim (Bool-cases (t.id == j)) [
      | inl same ↦
          subst (λ i. for_transaction i w.postings ≡ booked (lookup i w.rows))
            ((eq_iff t.id j).0 same) (f.mine ∙ e ∙ ap booked (sym f.stored))
      | inr other ↦ f.others j other
    ];
  }

  pub IsFocused→IsSound : IsFocused o w t ps → IsSound t
  IsFocused→IsSound f = (subst (SoundAt t.id) f.stored (f.sound t.id)).1

  pub IsFocused-with_rail : (s : R) → IsFocused o w t ps → IsFocused o (with_rail s w) t ps
  IsFocused-with_rail s f = record {
    stored = f.stored;
    keys = f.keys;
    sound = f.sound;
    unique = f.unique;
    others = f.others;
    mine = f.mine;
    frame = f.frame;
  }

pub IsConsistent→id :
    {R : Type 0} {w : World R} (id : String) (t : Transaction)
    → IsConsistent w
    → lookup id w.rows ≡ some t
    → t.id ≡ id
IsConsistent→id id t c h = (subst (SoundAt id) h (c.sound id)).0

pub IsConsistent→IsFocused :
    {R : Type 0} {w : World R} (id : String) (t : Transaction)
    → IsConsistent w
    → lookup id w.rows ≡ some t
    → IsFocused (λ j. lookup j w.rows) w t (expected t)
IsConsistent→IsFocused {w} id t c h =
    let e : t.id ≡ id = IsConsistent→id id t c h in
    let h' : lookup t.id w.rows ≡ some t = simp e h in
    record {
      stored = h';
      keys = c.keys;
      sound = c.sound;
      unique = c.unique;
      others = λ j _. c.books j;
      mine = c.books t.id ∙ ap booked h';
      frame = λ j _. refl;
    }

-- Two versions of a payment that agree on id and key.
pub record IsSameKey (t t' : Transaction) : Type 0 where
  pub id : t'.id ≡ t.id
  pub key : t'.idempotency_key ≡ t.idempotency_key

abbrev first_clash : Transaction → Dict String Transaction → Option Transaction → Bool
first_clash x d none = false
first_clash x d (some z) =
    (same_option z.idempotency_key x.idempotency_key && not (z.id == x.id)) || clashes x (values d)

clashes-insert :
    (x t t' : Transaction) (id : String) (rows : Dict String Transaction)
    → IsSameKey t t'
    → lookup id rows ≡ some t
    → clashes x (values (insert id t' rows)) ≡ clashes x (values rows)
unfolding clashes values insert lookup
clashes-insert x t t' id [] s h = cc
clashes-insert x t t' id ((i, y) ∷ d) s h = elim (Bool-cases (i == id)) [
  | inl p ↦
      let e : some y ≡ some t = rw p at h in
      rw p (simp (s.id, s.key) (ap (first_clash x d) (sym e)))
  | inr p ↦ rw p (rw (clashes-insert x t t' id d s (rw p at h)) refl)
]

clashes-same :
    (t t' : Transaction) (ts : List Transaction) → IsSameKey t t' → clashes t' ts ≡ clashes t ts
unfolding clashes
clashes-same t t' [] s = refl
clashes-same t t' (x ∷ xs) s = rw (s.id, s.key, clashes-same t t' xs s)

clash_free-insert :
    (o : Option Transaction) (t t' : Transaction) (id : String) (rows : Dict String Transaction)
    → IsSameKey t t'
    → lookup id rows ≡ some t
    → clash_free (values (insert id t' rows)) o ≡ clash_free (values rows) o
clash_free-insert none t t' id rows s h = refl
clash_free-insert (some x) t t' id rows s h = rw (clashes-insert x t t' id rows s h)

module _ {R : Type 0} {w : World R} {t t' : Transaction} {ps : List Posting}
    {o : String → Option Transaction} where
  unclashed : IsFocused o w t ps → IsSameKey t t' → clash_free (values w.rows) (some t') ≡ true
  unclashed f s =
      simp (s.key, clashes-same t t' (values w.rows) s)
        (subst (λ o. clash_free (values w.rows) o ≡ true) f.stored (f.unique t.id))

  -- Saving a stored payment again never raises.
  pub save-eq : IsFocused o w t ps → IsSameKey t t' → save t' w ≡ (ok tt, put t' w)
  unfolding save
  save-eq f s = ground (arith, unclashed f s)

  pub put-IsFocused :
      IsFocused o w t ps → IsSameKey t t' → IsSound t' → IsFocused o (put t' w) t' ps
  put-IsFocused f s sound' =
      let free : (o : Option Transaction)
          → clash_free (values (insert t'.id t' w.rows)) o ≡ clash_free (values w.rows) o =
        λ o. clash_free-insert o t t' t'.id w.rows s (simp s.id f.stored) in
      record {
        stored = rw (lookup-insert, beq_refl);
        keys = insert-IsUnique t'.id t' w.rows f.keys;
        sound = λ j. rw lookup-insert (elim (Bool-cases (t'.id == j)) [
          | inl p ↦ rw p ((eq_iff t'.id j).0 p, sound')
          | inr p ↦ rw p (f.sound j)
        ]);
        unique = λ j. rw lookup-insert (elim (Bool-cases (t'.id == j)) [
          | inl p ↦ rw p (free (some t') ∙ unclashed f s)
          | inr p ↦ rw p (free (lookup j w.rows) ∙ f.unique j)
        ]);
        others = λ j h. rw (lookup-insert, h) (f.others j (simp (← s.id) h));
        mine = simp s.id f.mine;
        frame = λ j h. rw (lookup-insert, h) (f.frame j (simp (← s.id) h));
      }
