-- ===== src/Transactions/NewRows.antt =====
-- A new row in the store of adapters/memory.py: a `save` under an id that is not taken raises on a
-- key that is, and keeps the invariant otherwise.
use drc_pay.Base.{
  ◌⊎◌, String, ◌≡◌, refl, ap, ◌∙◌, Bool, true, false, not, ◌&&◌, ◌||◌, Option, none, some, is_some,
  [], ◌∷◌, ◌==◌, string_eq, eq_iff, beq_sym, beq_refl, arith, Bool-cases, inl, inr,
}
use drc_pay.Exec.{ok, err, duplicate_idempotency_key}
use drc_pay.Dict.{Dict, lookup, insert, values, lookup-insert, insert-IsUnique}
use drc_pay.Transactions.Models.{Transaction, World}
use drc_pay.Transactions.Store.{clashes, save, same_option}
use drc_pay.Transactions.Invariant.{IsSound, booked, clash_free, IsConsistent, IsFocused}
use drc_pay.Transactions.Focus.{put}

-- The row of `x` takes no part in a clash of `t`.
abbrev apart : Transaction → Option Transaction → Bool
apart t none = true
apart t (some x) = not (same_option x.idempotency_key t.idempotency_key && not (x.id == t.id))

-- No row found under any id clashes, if the list of rows does not.
apart_of_clash_free :
    (t : Transaction) (j : String) (rows : Dict String Transaction)
    → clashes t (values rows) ≡ false
    → apart t (lookup j rows) ≡ true
unfolding clashes values lookup
apart_of_clash_free t j [] h = refl
apart_of_clash_free t j ((i, x) ∷ d) h = ground (arith, apart_of_clash_free t j d)

or_false : (b : Bool) → (b || false) ≡ b
or_false true = refl
or_false false = refl

or_assoc : (a b c : Bool) → (a || (b || c)) ≡ ((a || b) || c)
or_assoc true b c = refl
or_assoc false b c = refl

-- A new row adds its own clash at most.
clashes-insert_new :
    (x t : Transaction) (rows : Dict String Transaction)
    → lookup t.id rows ≡ none
    → clashes x (values (insert t.id t rows)) ≡ (
        clashes x (values rows)
        || (same_option t.idempotency_key x.idempotency_key && not (t.id == x.id)))
unfolding clashes values insert lookup
clashes-insert_new x t [] h = or_false _
clashes-insert_new x t ((i, y) ∷ d) h = elim (Bool-cases (i == t.id)) [
  | inl p ↦ cc (rw p at h)
  | inr p ↦ rw p (
      rw (clashes-insert_new x t d (rw p at h)) (
        or_assoc (same_option y.idempotency_key x.idempotency_key && not (y.id == x.id))
          (clashes x (values d))
          (same_option t.idempotency_key x.idempotency_key && not (t.id == x.id))))
]

not-true : (b : Bool) → not b ≡ true → b ≡ false
not-true true h = cc
not-true false h = refl

and_false : (b : Bool) → not (b && false) ≡ true
and_false true = refl
and_false false = refl

-- Two rows that do not clash one way do not clash the other way.
pair_free :
    (kx kt : Option String) (x t : String)
    → (is_some kt ≡ true → (same_option kx kt && not (x == t)) ≡ false)
    → is_some kx ≡ true
    → (same_option kt kx && not (t == x)) ≡ false
pair_free none kt x t h p = cc
pair_free (some a) none x t h p = refl
pair_free (some a) (some b) x t h p = rw (beq_sym b a, beq_sym t x) (h refl)

-- The clash test over the rows with a new one, for a row that was free and is apart from it.
free_with :
    (k : Bool) (before pair : Bool)
    → not (k && before) ≡ true
    → (k ≡ true → pair ≡ false)
    → not (k && (before || pair)) ≡ true
free_with true before pair h p = rw (p refl, or_false before) h
free_with false before pair h p = refl

module _ {R : Type 0} (w : World R) (t : Transaction) (c : IsConsistent w)
    (missing : lookup t.id w.rows ≡ none) (free : clash_free (values w.rows) (some t) ≡ true) where
  free-insert :
      (o : Option Transaction)
      → clash_free (values w.rows) o ≡ true
      → (is_some t.idempotency_key ≡ true → apart t o ≡ true)
      → clash_free (values (insert t.id t w.rows)) o ≡ true
  free-insert none h a = refl
  free-insert (some x) h a = rw (clashes-insert_new x t w.rows missing) (
      free_with (is_some x.idempotency_key) (clashes x (values w.rows)) _ h
        (pair_free x.idempotency_key t.idempotency_key x.id t.id (λ k. not-true _ (a k))))

  unclashed : is_some t.idempotency_key ≡ true → clashes t (values w.rows) ≡ false
  unclashed k = not-true _ (rw k at free)

  self_apart : is_some t.idempotency_key ≡ true → apart t (some t) ≡ true
  self_apart k = rw (beq_refl t.id) (and_false _)

  -- A new sound row under a free id and key.
  pub new-IsFocused : IsSound t → IsFocused (λ j. lookup j w.rows) (put t w) t []
  new-IsFocused s = record {
    stored = rw (lookup-insert, beq_refl);
    keys = insert-IsUnique t.id t w.rows c.keys;
    sound = λ j. rw lookup-insert (elim (Bool-cases (t.id == j)) [
      | inl p ↦ rw p ((eq_iff t.id j).0 p, s)
      | inr p ↦ rw p (c.sound j)
    ]);
    unique = λ j. rw lookup-insert (elim (Bool-cases (t.id == j)) [
      | inl p ↦ rw p (free-insert (some t) free self_apart)
      | inr p ↦ rw p (
          free-insert (lookup j w.rows) (c.unique j)
            (λ k. apart_of_clash_free t j w.rows (unclashed k)))
    ]);
    others = λ j h. rw (lookup-insert, h) (c.books j);
    mine = c.books t.id ∙ ap booked missing;
    frame = λ j h. rw (lookup-insert, h) refl;
  }

  -- Saving it does not raise.
  pub save_new-eq : save t w ≡ (ok tt, put t w)
  unfolding save
  save_new-eq = ground (arith, free)

module _ {R : Type 0} (w : World R) (t : Transaction) where
  -- A save of a new row raises on a clash, and stores it otherwise.
  pub save_new-cases :
      (save t w ≡ (err duplicate_idempotency_key, w))
      ⊎ ((clash_free (values w.rows) (some t) ≡ true) × (save t w ≡ (ok tt, put t w)))
  unfolding save
  save_new-cases = elim (Bool-cases (is_some t.idempotency_key && clashes t (values w.rows))) [
    | inl p ↦ inl (ground arith)
    | inr p ↦ inr (ground arith, ground arith)
  ]
