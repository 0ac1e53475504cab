-- ===== src/Sql/LedgerRead.antt =====
-- adapters/sql.py against adapters/memory.py: what `SqlLedger` reads back of the postings made.
use drc_pay.Sql.Grouping.{
  fresh_ne, grouped-rows, post_all-rows, keys, rows_of, post_all, group_of, HasEntries, IsMade,
  all_rows,
}
use drc_pay.Transactions.Store.{for_transaction}
use drc_pay.Ledger.Balance.{posting_ok_iff}
use drc_pay.Dict.{values, lookup, Dict, IsUnique}
use drc_pay.Ledger.Posting.{Entry, posting, Posting}
use drc_pay.Sql.Ledger.{sql_for_transaction, built, entry_row}
use drc_pay.Base.{
  filter-append, filter, All, map, ◌≡◌, refl, ap, ◌∙◌, true, false, none, some, is_some, List, [],
  ◌∷◌, ◌==◌, string_eq, nat_eq, eq_iff, beq_refl, arith, if◌then◌else◌, Bool-cases, inl, inr,
  length, String, ◌<◌,
}
use drc_pay.Exec.{ok}
use mathlib.Core.Path.{subst}

-- The postings of the payment `id`, with their ids.
mine : String → Dict String Posting → Dict String Posting
mine id [] = []
mine id ((k, p) ∷ ps) =
    let rest = mine id ps in if p.transaction_id == id then (k, p) ∷ rest else rest

filter-rows_of :
    (id : String) (k : String) (j : String) (es : List Entry)
    → filter (λ r. r.transaction_id == id) (map (entry_row k j) es)
      ≡ (if j == id then map (entry_row k j) es else [])
unfolding entry_row
filter-rows_of id k j [] = ground arith
filter-rows_of id k j (e ∷ es) = ground (arith, filter-rows_of id k j es)

filter-all_rows :
    (id : String) (ps : Dict String Posting)
    → filter (λ r. r.transaction_id == id) (all_rows ps) ≡ all_rows (mine id ps)
unfolding all_rows rows_of mine
filter-all_rows id [] = refl
filter-all_rows id ((k, p) ∷ ps) =
    filter-append (λ r. r.transaction_id == id) (map (entry_row k p.transaction_id) p.entries)
      (all_rows ps)
    ∙ rw (filter-rows_of id k p.transaction_id p.entries, filter-all_rows id ps)
        (elim (Bool-cases (p.transaction_id == id)) [ inl e ↦ rw e refl | inr e ↦ rw e refl ])

values-mine :
    (id : String) (ps : Dict String Posting) → values (mine id ps) ≡ for_transaction id (values ps)
unfolding values mine for_transaction
values-mine id [] = refl
values-mine id ((k, p) ∷ ps) = ground (arith, values-mine id ps)

mine_free :
    (id k : String) (ps : Dict String Posting) → lookup k ps ≡ none → lookup k (mine id ps) ≡ none
unfolding mine lookup
mine_free id k [] h = refl
mine_free id k ((j, p) ∷ ps) h = ground (arith, mine_free id k ps)

mine-IsUnique : (id : String) (ps : Dict String Posting) → IsUnique ps → IsUnique (mine id ps)
unfolding mine
mine-IsUnique id [] u = tt
mine-IsUnique id ((k, p) ∷ ps) (f, u) = elim (Bool-cases (p.transaction_id == id)) [
  | inl e ↦ rw (e, IsUnique) (mine_free id k ps f, mine-IsUnique id ps u)
  | inr e ↦ rw (e, IsUnique) (mine-IsUnique id ps u)
]

-- A posting of the payment `id` that has been let through.
abbrev MadeFor : String → String × Posting → Type 0
MadeFor id (_, p) = (posting id p.entries ≡ ok p) × (0 < length p.entries)

made_for :
    (id : String) (p : Posting)
    → (p.transaction_id == id) ≡ true
    → posting p.transaction_id p.entries ≡ ok p
    → (posting id p.entries ≡ ok p) × (0 < length p.entries)
made_for id p e h = (
  subst (λ x. posting x p.entries ≡ ok p) ((eq_iff p.transaction_id id).0 e) h,
  omega (arith, ((posting_ok_iff p.transaction_id p.entries).0 h).0),
)

mine-MadeFor :
    (id : String) (ps : Dict String Posting) → All IsMade ps → All (MadeFor id) (mine id ps)
unfolding mine
mine-MadeFor id [] h = tt
mine-MadeFor id ((k, p) ∷ ps) ((h, _), l) = elim (Bool-cases (p.transaction_id == id)) [
  | inl e ↦ rw (e, All) (made_for id p e h, mine-MadeFor id ps l)
  | inr e ↦ rw (e, All) (mine-MadeFor id ps l)
]

entries_made : (id : String) (ps : Dict String Posting) → All (MadeFor id) ps → All HasEntries ps
entries_made id [] h = tt
entries_made id ((k, p) ∷ ps) ((_, n), l) = (n, entries_made id ps l)

built-eq :
    (id : String) (groups : Dict String (List Entry)) (ps : Dict String Posting)
    → IsUnique ps
    → All (MadeFor id) ps
    → ((j : String) → is_some (lookup j ps) ≡ true → lookup j groups ≡ group_of (lookup j ps) none)
    → built id groups (keys ps) ≡ ok (values ps)
unfolding built values lookup
built-eq id groups [] u m h = refl
built-eq id groups ((k, p) ∷ ps) (fresh, u) ((made, _), ms) h =
    let here : lookup k groups ≡ some p.entries =
      h k (rw (beq_refl k) refl) ∙ rw (beq_refl k) refl in
    rw here (
      rw made (
        rw
          (built-eq id groups ps u ms
            (λ j s. let e : (k == j) ≡ false = fresh_ne k j ps fresh s in h j (rw e s) ∙ rw e refl))
          refl))

filter_posted :
    (id : String) (ps : Dict String Posting)
    → All IsMade ps
    → filter (λ r. r.transaction_id == id) (post_all ps []) ≡ all_rows (mine id ps)
filter_posted id ps m =
    ap (filter (λ r. r.transaction_id == id)) (post_all-rows ps [] m) ∙ filter-all_rows id ps

-- The postings of a payment are read back from the table as they were made and in their order, if the
-- ids drawn for the postings differ, each posting was let through when it was made and its amounts fit
-- the column of 64 bits.
pub for_transaction-post_all :
    (id : String) (ps : Dict String Posting)
    → IsUnique ps
    → All IsMade ps
    → sql_for_transaction id (post_all ps []) ≡ ok (for_transaction id (values ps))
unfolding sql_for_transaction lookup
for_transaction-post_all id ps u m =
    let made : All (MadeFor id) (mine id ps) = mine-MadeFor id ps m in
    let unique : IsUnique (mine id ps) = mine-IsUnique id ps u in
    let (g, run, order, all) =
      grouped-rows (mine id ps) (record { groups = []; order = [] }) unique
        (entries_made id (mine id ps) made) (λ k h. refl) in
    rw (filter_posted id ps m) (
      rw run (
        ap (built id g.groups) order
        ∙ built-eq id g.groups (mine id ps) unique made (λ j _. all j)
        ∙ ap ok (values-mine id ps)))
