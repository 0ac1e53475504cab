-- ===== src/Sql/Holds.antt =====
-- adapters/sql.py: what the table of payments holds for the rows in memory, and how the queries and a
-- commit read on it.
use drc_pay.Transactions.States.{
  manual_review, refunded, refund_pending, payout_failed, payout_succeeded, payout_pending,
  collection_failed, collection_succeeded, collection_pending, initiated, TxState, member,
  pending_states,
}
use drc_pay.Transactions.Store.{find, clashes}
use drc_pay.Sql.Transactions.{row_fits, same_key, row_id, in_states, first_row}
use drc_pay.Sql.Rows.{
  state_value, to_domain-filled, to_domain, blank_row, TransactionRow, filled, all_to_domain,
}
use drc_pay.Dict.{lookup, values, insert, Dict}
use drc_pay.Sql.Table.{put, violates, fetch_row, Table}
use drc_pay.Transactions.Models.{World, Transaction}
use drc_pay.Base.{
  length, suc, ◌≤◌, ◌⊎◌, map, filter, All, ◌≡◌, refl, sym, ap, ◌∙◌, Bool, true, false, ◌&&◌, Option,
  none, some, is_some, List, [], ◌∷◌, ◌==◌, string_eq, nat_eq, eq_iff, arith, ⊤, Bool-cases, inl,
  inr, String,
}
use drc_pay.Exec.{ok}
use mathlib.Core.Path.{subst}

-- the row that a payment is kept in
abbrev pub row_of : Transaction → TransactionRow
row_of t = filled t (blank_row t.id)

abbrev pub IsOneCurrency : Transaction → Type 0
IsOneCurrency t = t.fee.currency ≡ t.amount.currency

abbrev pub Keyed : Dict String Transaction → Type 0
Keyed [] = ⊤
Keyed ((k, t) ∷ d) = (t.id ≡ k) × Keyed d

-- what the table holds for the rows in memory
pub record Holds {D R : Type 0} (db : Table row_id same_key row_fits D) (d : D) (w : World R)
    : Type 0 where
  pub keyed : Keyed w.rows
  pub fit : All IsOneCurrency (values w.rows)
  pub rows : db.all d ≡ map row_of (values w.rows)

pub to_domain-row_of : (t : Transaction) → IsOneCurrency t → to_domain (row_of t) ≡ ok t
to_domain-row_of t h = to_domain-filled t (blank_row t.id) refl h

pub all_to_domain-map :
    (ts : List Transaction) → All IsOneCurrency ts → all_to_domain (map row_of ts) ≡ ok ts
unfolding all_to_domain
all_to_domain-map [] h = refl
all_to_domain-map (t ∷ ts) (h, k) = rw (to_domain-row_of t h) (rw (all_to_domain-map ts k) refl)

pub filled_again : (t : Transaction) (r : TransactionRow) → r.id ≡ t.id → filled t r ≡ row_of t
unfolding filled
filled_again t r e = ap (λ id. record (row_of t) { id = id }) e

abbrev pub row_of? : Option Transaction → Option TransactionRow
row_of? none = none
row_of? (some t) = some (row_of t)

pub fetch-rows :
    (id : String) (d : Dict String Transaction)
    → Keyed d
    → fetch_row row_id id (map row_of (values d)) ≡ row_of? (lookup id d)
unfolding fetch_row values lookup filled
fetch-rows id [] h = refl
fetch-rows id ((k, t) ∷ d) (e, h) = elim (Bool-cases (t.id == id)) [
  | inl c ↦ rw c (rw (subst (λ y. (y == id) ≡ true) e c) refl)
  | inr c ↦ rw c (rw (subst (λ y. (y == id) ≡ false) e c) (fetch-rows id d h))
]

pub violates-rows :
    (t : Transaction) (ts : List Transaction)
    → violates same_key (row_of t) (map row_of ts) ≡ (is_some t.idempotency_key && clashes t ts)
unfolding violates clashes filled
violates-rows t [] = ground arith
violates-rows t (x ∷ ts) = ground (arith, violates-rows t ts)

pub put-rows :
    (t : Transaction) (d : Dict String Transaction)
    → Keyed d
    → put row_id (row_of t) (map row_of (values d)) ≡ map row_of (values (insert t.id t d))
unfolding put values insert filled
put-rows t [] h = refl
put-rows t ((k, x) ∷ d) (e, h) = elim (Bool-cases (x.id == t.id)) [
  | inl c ↦ rw c (rw (subst (λ y. (y == t.id) ≡ true) e c) refl)
  | inr c ↦
      rw c (rw (subst (λ y. (y == t.id) ≡ false) e c) (ap (λ rs. row_of x ∷ rs) (put-rows t d h)))
]

pub Keyed-insert :
    (t : Transaction) (d : Dict String Transaction) → Keyed d → Keyed (insert t.id t d)
unfolding insert
Keyed-insert t [] h = (refl, tt)
Keyed-insert t ((k, x) ∷ d) (e, h) = elim (Bool-cases (k == t.id)) [
  | inl c ↦ rw (c, Keyed) (sym ((eq_iff k t.id).0 c), h)
  | inr c ↦ rw (c, Keyed) (e, Keyed-insert t d h)
]

pub fit-insert :
    (t : Transaction) (d : Dict String Transaction)
    → IsOneCurrency t
    → All IsOneCurrency (values d)
    → All IsOneCurrency (values (insert t.id t d))
unfolding insert values
fit-insert t [] f h = (f, tt)
fit-insert t ((k, x) ∷ d) f (e, h) = elim (Bool-cases (k == t.id)) [
  | inl c ↦ rw (c, All) (f, h)
  | inr c ↦ rw (c, All) (e, fit-insert t d f h)
]

pub filter-rows :
    (p : TransactionRow → Bool) (q : Transaction → Bool) (ts : List Transaction)
    → ((t : Transaction) → p (row_of t) ≡ q t)
    → filter p (map row_of ts) ≡ map row_of (filter q ts)
filter-rows p q [] h = refl
filter-rows p q (t ∷ ts) h = ground (arith, h t, filter-rows p q ts h)

pub first-rows :
    (q : Transaction → Bool) (ts : List Transaction)
    → All IsOneCurrency ts
    → first_row (map row_of (filter q ts)) ≡ ok (find q ts)
unfolding first_row find
first-rows q [] h = refl
first-rows q (t ∷ ts) (h, k) = ground (arith, to_domain-row_of t h, first-rows q ts k)

-- The only payment that fulfils a condition is the first that does.
pub find-one :
    (q : Transaction → Bool) (ts : List Transaction)
    → length (filter q ts) ≤ 1
    → (filter q ts ≡ []) × (find q ts ≡ none)
      ⊎ ((t : Transaction) × (filter q ts ≡ t ∷ []) × (find q ts ≡ some t))
unfolding find
find-one q [] h = inl (refl, refl)
find-one q (t ∷ ts) h = elim (Bool-cases (q t)) [
  | inl e ↦
      let f : filter q (t ∷ ts) ≡ t ∷ filter q ts = rw (e, filter) refl in
      inr
        (t, f ∙ ap (λ l. t ∷ l) (no_more (filter q ts) (subst (λ l. length l ≤ 1) f h)), rw e refl)
  | inr e ↦
      let f : filter q (t ∷ ts) ≡ filter q ts = rw (e, filter) refl in
      elim (find-one q ts (subst (λ l. length l ≤ 1) f h)) [
        | inl (none_left, n) ↦ inl (f ∙ none_left, rw e n)
        | inr (x, one_left, n) ↦ inr (x, f ∙ one_left, rw e n)
      ]
]
  where
    no_more : (l : List Transaction) → suc (length l) ≤ 1 → l ≡ []
    no_more [] h = refl
    no_more (x ∷ l) h = absurd (omega arith)

pub pending-rows :
    (s : TxState) → in_states pending_states (state_value s) ≡ member s pending_states
unfolding in_states pending_states member state_value
pending-rows initiated = refl
pending-rows collection_pending = refl
pending-rows collection_succeeded = refl
pending-rows collection_failed = refl
pending-rows payout_pending = refl
pending-rows payout_succeeded = refl
pending-rows payout_failed = refl
pending-rows refund_pending = refl
pending-rows refunded = refl
pending-rows manual_review = refl

pub filter_all : (ts : List Transaction) → filter (λ _. true) ts ≡ ts
filter_all [] = refl
filter_all (t ∷ ts) = ap (λ l. t ∷ l) (filter_all ts)

pub All-filter :
    (p : Transaction → Bool) (ts : List Transaction)
    → All IsOneCurrency ts
    → All IsOneCurrency (filter p ts)
All-filter p [] h = tt
All-filter p (t ∷ ts) (h, k) = elim (Bool-cases (p t)) [
  | inl e ↦ rw (e, All) (h, All-filter p ts k)
  | inr e ↦ rw (e, All) (All-filter p ts k)
]

pub lookup-fit :
    (id : String) (d : Dict String Transaction) (t : Transaction)
    → lookup id d ≡ some t
    → All IsOneCurrency (values d)
    → IsOneCurrency t
unfolding lookup values
lookup-fit id [] t e h = cc
lookup-fit id ((k, x) ∷ d) t e (h, l) = elim (Bool-cases (k == id)) [
  | inl c ↦ (let q : some x ≡ some t = rw c at e in let q' : x ≡ t = cc in subst IsOneCurrency q' h)
  | inr c ↦ lookup-fit id d t (rw c at e) l
]

pub lookup-id :
    (id : String) (d : Dict String Transaction) (t : Transaction)
    → lookup id d ≡ some t
    → Keyed d
    → t.id ≡ id
unfolding lookup
lookup-id id [] t e h = cc
lookup-id id ((k, x) ∷ d) t e (h, l) = elim (Bool-cases (k == id)) [
  | inl c ↦
      (let q : some x ≡ some t = rw c at e in
        let q' : x ≡ t = cc in subst (λ y. y.id ≡ id) q' (h ∙ (eq_iff k id).0 c))
  | inr c ↦ lookup-id id d t (rw c at e) l
]
