-- ===== src/Sweep/Pass.antt =====
-- jobs/reconciliation/sweep.py: a whole pass over the payments that await an outcome.
use drc_pay.Transactions.Store.{find_pending}
use drc_pay.Transactions.Models.{World, PaymentRail, Transaction}
use drc_pay.Sweep.{
  ReconciliationItem, leg_for_state, sweep_one, reconcile_pending, sweep_all, StatusPoller,
}
use drc_pay.Transactions.Invariant.{IsConsistent, SoundAt}
use drc_pay.Dict.{IsUnique, lookup, values, Dict}
use drc_pay.Base.{
  ◌++◌, filter, All, ◌≡◌, refl, sym, ◌∙◌, Bool, false, none, some, List, [], ◌∷◌, ◌==◌, string_eq,
  nat_eq, eq_iff, beq_refl, if◌then◌else◌, ⊤, Bool-cases, inl, inr, String,
}
use drc_pay.Exec.{state-then_pure, seq_mid, ◌>>=◌, pure}
use mathlib.Core.Path.{subst}
use drc_pay.Sweep.Keeps.{Kept, sweep_one-Kept}

-- No two payments of the list have the same id.
abbrev Distinct : List Transaction → Type 0
Distinct [] = ⊤
Distinct (t ∷ ts) = All (λ u. (t.id == u.id) ≡ false) ts × Distinct ts

-- The rows of the list are those that are stored under their ids.
abbrev StoredIn : Dict String Transaction → List Transaction → Type 0
StoredIn rows ts = All (λ t. lookup t.id rows ≡ some t) ts

All-filter :
    (P : Transaction → Type 0) (p : Transaction → Bool) (ts : List Transaction)
    → All P ts
    → All P (filter p ts)
All-filter P p [] h = h
All-filter P p (t ∷ ts) (h, k) = elim (Bool-cases (p t)) [
  | inl e ↦ rw (e, All) (h, All-filter P p ts k)
  | inr e ↦ rw (e, All) (All-filter P p ts k)
]

Distinct-filter :
    (p : Transaction → Bool) (ts : List Transaction) → Distinct ts → Distinct (filter p ts)
Distinct-filter p [] h = h
Distinct-filter p (t ∷ ts) (h, k) = elim (Bool-cases (p t)) [
  | inl e ↦
      rw (e, Distinct) (All-filter (λ u. (t.id == u.id) ≡ false) p ts h, Distinct-filter p ts k)
  | inr e ↦ rw (e, Distinct) (Distinct-filter p ts k)
]

All-map :
    (P Q : Transaction → Type 0) (ts : List Transaction)
    → ((t : Transaction) → P t → Q t)
    → All P ts
    → All Q ts
All-map P Q [] f h = tt
All-map P Q (t ∷ ts) f (h, k) = (f t h, All-map P Q ts f k)

All-zip :
    (P Q S : Transaction → Type 0) (ts : List Transaction)
    → ((t : Transaction) → P t → Q t → S t)
    → All P ts
    → All Q ts
    → All S ts
All-zip P Q S [] f h g = tt
All-zip P Q S (t ∷ ts) f (h, k) (g, l) = (f t h g, All-zip P Q S ts f k l)

-- What is stored under its own id has another one than a free key.
other_id :
    (k : String) (d : Dict String Transaction) (t : Transaction)
    → lookup k d ≡ none
    → lookup t.id d ≡ some t
    → (k == t.id) ≡ false
other_id k d t free h = elim (Bool-cases (k == t.id)) [
  | inl e ↦
      (let e' : k ≡ t.id = (eq_iff k t.id).0 e in
        let f : lookup t.id d ≡ none = subst (λ x. lookup x d ≡ none) e' free in cc)
  | inr e ↦ e
]

-- In a dictionary of unique keys whose rows are stored under their ids, every value is found by its
-- id, and no two share it.
rows_lem :
    (d : Dict String Transaction)
    → IsUnique d
    → ((j : String) → SoundAt j (lookup j d))
    → StoredIn d (values d) × Distinct (values d)
unfolding values lookup
rows_lem [] u s = (tt, tt)
rows_lem ((k, t) ∷ d) (free, u) s =
    let rest : StoredIn d (values d) × Distinct (values d) = rows_lem d u tail in
    (
      (
        subst (λ x. (if k == x then some t else lookup x d) ≡ some t) (sym head)
            (rw (beq_refl k) refl),
        All-map (λ v. lookup v.id d ≡ some v)
            (λ v. (if k == v.id then some t else lookup v.id d) ≡ some v) (values d)
            (λ v h. rw (other_id k d v free h) h) rest.0,
      ),
      (
        All-map (λ v. lookup v.id d ≡ some v) (λ v. (t.id == v.id) ≡ false) (values d)
            (λ v h. subst (λ x. (x == v.id) ≡ false) (sym head) (other_id k d v free h)) rest.0,
        rest.1,
      ),
    )
  where
    head : t.id ≡ k
    head =
        (subst (SoundAt k)
          (let e : (if k == k then some t else lookup k d) ≡ some t = rw (beq_refl k) refl in e)
          (s k)).0

    tail : (j : String) → SoundAt j (lookup j d)
    tail j = elim (Bool-cases (k == j)) [
      | inl e ↦
          subst (λ x. SoundAt x (lookup x d)) ((eq_iff k j).0 e) (subst (SoundAt k) (sym free) tt)
      | inr e ↦
          subst (SoundAt j)
            (let f : (if k == j then some t else lookup j d) ≡ lookup j d = rw e refl in f) (s j)
    ]

module _ {R : Type 0} (rail : PaymentRail R) (poller : StatusPoller R) where
  sweep_all-IsConsistent :
      (ts : List Transaction) (w : World R)
      → IsConsistent w
      → StoredIn w.rows ts
      → Distinct ts
      → IsConsistent (sweep_all rail poller ts w).1
  unfolding sweep_all
  sweep_all-IsConsistent [] w c s d = c
  sweep_all-IsConsistent (t ∷ ts) w c (h, s) (n, d) =
      let k : Kept t w (sweep_one rail poller t (leg_for_state t.state) w).1 =
        sweep_one-Kept rail poller t c h (leg_for_state t.state) in
      seq_mid (λ v. IsConsistent v × StoredIn v.rows ts) IsConsistent
        (sweep_one rail poller t (leg_for_state t.state))
        (λ items.
          ◌>>=◌ {B = List ReconciliationItem} (sweep_all rail poller ts)
            (λ rest. pure (items ++ rest)))
        w
        (
          k.0,
          All-zip (λ u. (t.id == u.id) ≡ false) (λ u. lookup u.id w.rows ≡ some u)
              (λ u. lookup u.id (sweep_one rail poller t (leg_for_state t.state) w).1.rows ≡ some u)
              ts (λ u e f. k.1 u.id e ∙ f) n s,
        )
        (λ v p. p.0)
        (λ items v p.
          subst IsConsistent
            (sym (state-then_pure (sweep_all rail poller ts) (λ rest. items ++ rest) v))
            (sweep_all-IsConsistent ts v p.0 p.1 d))

  -- A whole pass over a consistent world, over any number of routed and on-net payments, leaves the
  -- world consistent, whatever the polls say and the rail answers or raises, and also where an exception
  -- ends the pass.
  pub reconcile_pending-IsConsistent :
      (w : World R) → IsConsistent w → IsConsistent (reconcile_pending rail poller w).1
  unfolding reconcile_pending find_pending
  reconcile_pending-IsConsistent w c =
      let r : StoredIn w.rows (values w.rows) × Distinct (values w.rows) =
        rows_lem w.rows c.keys c.sound in
      sweep_all-IsConsistent (find_pending w) w c
        (All-filter (λ t. lookup t.id w.rows ≡ some t) _ (values w.rows) r.0)
        (Distinct-filter _ (values w.rows) r.1)
