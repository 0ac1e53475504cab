-- ===== src/Sql/Grouping.antt =====
-- adapters/sql.py: how `SqlLedger.for_transaction` groups the rows of postings.
use drc_pay.Sql.Rows.{read_money-currency_name}
use drc_pay.Dict.{insert, lookup-insert, lookup, Dict, IsUnique}
use drc_pay.Ledger.Posting.{credit, debit, Direction, Entry, posting, Posting}
use drc_pay.Sql.Ledger.{
  entries_of, with_entry, Groups, grouped, opened, read_direction, direction_value, entry_row,
  EntryRow, entries_fit, read_entry, sql_post,
}
use drc_pay.Base.{
  All, ◌++◌, map, ◌≡◌, refl, sym, ap, ◌∙◌, true, false, Option, none, some, is_some, List, [], ◌∷◌,
  ◌==◌, string_eq, nat_eq, eq_iff, beq_refl, arith, Bool-cases, Option-cases, inl, inr, length,
  String, ◌<◌,
}
use drc_pay.Exec.{ok}
use mathlib.Core.Path.{subst}
use mathlib.Core.List.{append-nil, append_assoc}

-- the postings with the ids drawn for them, made one after the other
unfoldable pub post_all : List (String × Posting) → List EntryRow → List EntryRow
unfolding sql_post
post_all [] log = log
post_all ((k, p) ∷ ps) log = post_all ps (sql_post k p log).1

-- No id is drawn twice.
abbrev pub IsFresh : List (String × Posting) → Type 0
IsFresh ps = IsUnique ps

-- `Posting(...)` has let it through, and its amounts fit the column.
abbrev pub IsMade : String × Posting → Type 0
IsMade (_, p) = (posting p.transaction_id p.entries ≡ ok p) × (entries_fit p.entries ≡ true)

unfoldable pub rows_of : String × Posting → List EntryRow
rows_of (k, p) = map (entry_row k p.transaction_id) p.entries

unfoldable pub all_rows : List (String × Posting) → List EntryRow
unfolding rows_of
all_rows [] = []
all_rows (x ∷ ps) = rows_of x ++ all_rows ps

pub post_all-rows :
    (ps : List (String × Posting)) (log : List EntryRow)
    → All IsMade ps
    → post_all ps log ≡ log ++ all_rows ps
unfolding post_all sql_post all_rows rows_of
post_all-rows [] log m = sym (append-nil log)
post_all-rows ((k, p) ∷ ps) log ((_, fits), m) = rw fits (
    post_all-rows ps (log ++ map (entry_row k p.transaction_id) p.entries) m ∙ append_assoc log _ _)

pub direction-read : (d : Direction) → read_direction (direction_value d) ≡ ok d
unfolding read_direction direction_value
direction-read debit = refl
direction-read credit = refl

pub read_entry-entry_row : (k id : String) (e : Entry) → read_entry (entry_row k id e) ≡ ok e
unfolding read_entry entry_row
read_entry-entry_row k id e =
    rw (direction-read e.direction)
      (rw (read_money-currency_name e.amount.amount_minor e.amount.currency) refl)

abbrev pub keys : Dict String Posting → List String
keys [] = []
keys ((k, _) ∷ ps) = k ∷ keys ps

pub opened-known :
    (k : String) (g : Groups) (pre : List Entry) → lookup k g.groups ≡ some pre → opened k g ≡ g
unfolding opened
opened-known k g pre h = rw h refl

-- What the loop makes of `rs`, and what follows it.
pub grouped_entries :
    (k id : String) (es : List Entry) (rest : List EntryRow) (g : Groups) (pre : List Entry)
    → lookup k g.groups ≡ some pre
    → (g' : Groups) × (grouped (map (entry_row k id) es ++ rest) g ≡ grouped rest g')
      × (g'.order ≡ g.order)
      × (lookup k g'.groups ≡ some (pre ++ es))
      × ((j : String) → (k == j) ≡ false → lookup j g'.groups ≡ lookup j g.groups)
unfolding grouped entry_row
grouped_entries k id [] rest g pre h =
    (g, refl, refl, h ∙ ap some (sym (append-nil pre)), λ j n. refl)
grouped_entries k id (e ∷ es) rest g pre h =
    let step : opened k g ≡ g = opened-known k g pre h in
    let g1 : Groups = with_entry k e g in
    let h1 : lookup k g1.groups ≡ some (pre ++ e ∷ []) =
      lookup-insert k k (entries_of (lookup k g.groups) ++ e ∷ []) g.groups
      ∙ rw (beq_refl k) (rw h refl) in
    let (g', run, order, mine, frame) = grouped_entries k id es rest g1 (pre ++ e ∷ []) h1 in
    (
      g',
      rw (read_entry-entry_row k id e)
          (ap (λ x. grouped (map (entry_row k id) es ++ rest) (with_entry k e x)) step ∙ run),
      order,
      mine ∙ ap some (append_assoc pre (e ∷ []) es),
      λ j n.
          frame j n
          ∙ (lookup-insert k j (entries_of (lookup k g.groups) ++ e ∷ []) g.groups ∙ rw n refl),
    )

-- What the group of a new posting is when it is opened.
pub opened_new :
    (k : String) (g : Groups)
    → lookup k g.groups ≡ none
    → opened k g ≡ record { groups = insert k [] g.groups; order = g.order ++ k ∷ [] }
unfolding opened
opened_new k g h = rw h refl

pub opened_twice : (k : String) (g : Groups) → opened k (opened k g) ≡ opened k g
opened_twice k g = elim (Option-cases (lookup k g.groups)) [
  | inl e ↦
      ap (opened k) (opened_new k g e)
      ∙ (opened-known k (record { groups = insert k [] g.groups; order = g.order ++ k ∷ [] }) []
            (lookup-insert k k [] g.groups ∙ rw (beq_refl k) refl)
          ∙ sym (opened_new k g e))
  | inr (pre, e) ↦ ap (opened k) (opened-known k g pre e)
]

abbrev pub group_of : Option Posting → Option (List Entry) → Option (List Entry)
group_of none old = old
group_of (some p) old = some p.entries

-- The first entry of a posting opens its group.
pub grouped-opened :
    (k id : String) (es : List Entry) (rest : List EntryRow) (g : Groups)
    → 0 < length es
    → grouped (map (entry_row k id) es ++ rest) g
      ≡ grouped (map (entry_row k id) es ++ rest) (opened k g)
unfolding grouped entry_row
grouped-opened k id [] rest g h = absurd (omega arith)
grouped-opened k id (e ∷ es) rest g h = rw (read_entry-entry_row k id e) (
    ap (λ x. grouped (map (entry_row k id) es ++ rest) (with_entry k e x)) (sym (opened_twice k g)))

abbrev pub HasEntries : String × Posting → Type 0
HasEntries (_, p) = 0 < length p.entries

pub grouped_nil : (g : Groups) → grouped [] g ≡ ok g
unfolding grouped
grouped_nil g = refl

pub fresh_ne :
    (k j : String) (ps : Dict String Posting)
    → lookup k ps ≡ none
    → is_some (lookup j ps) ≡ true
    → (k == j) ≡ false
fresh_ne k j ps free h = elim (Bool-cases (k == j)) [
  | inl e ↦
      (let f : lookup j ps ≡ none = subst (λ x. lookup x ps ≡ none) ((eq_iff k j).0 e) free in
        cc (rw f at h))
  | inr e ↦ e
]

-- The loop over the rows of postings whose ids are new gives each its group, in their order.
pub grouped-rows :
    (ps : Dict String Posting) (g : Groups)
    → IsUnique ps
    → All HasEntries ps
    → ((k : String) → is_some (lookup k ps) ≡ true → lookup k g.groups ≡ none)
    → (g' : Groups) × (grouped (all_rows ps) g ≡ ok g')
      × (g'.order ≡ g.order ++ keys ps)
      × ((j : String) → lookup j g'.groups ≡ group_of (lookup j ps) (lookup j g.groups))
unfolding all_rows rows_of lookup
grouped-rows [] g u n f = (g, grouped_nil g, sym (append-nil g.order), λ j. refl)
grouped-rows ((k, p) ∷ ps) g (fresh, u) (n, ns) f =
    let new : lookup k g.groups ≡ none = f k (rw (beq_refl k) refl) in
    let g1 : Groups = record { groups = insert k [] g.groups; order = g.order ++ k ∷ [] } in
    let (g2, run, order, mine, frame) =
      grouped_entries k p.transaction_id p.entries (all_rows ps) g1 []
        (lookup-insert k k [] g.groups ∙ rw (beq_refl k) refl) in
    let kept : (j : String) → (k == j) ≡ false → lookup j g2.groups ≡ lookup j g.groups =
      λ j e. frame j e ∙ (lookup-insert k j [] g.groups ∙ rw e refl) in
    let free : (j : String) → is_some (lookup j ps) ≡ true → lookup j g2.groups ≡ none =
      λ j h. let e : (k == j) ≡ false = fresh_ne k j ps fresh h in kept j e ∙ f j (rw e h) in
    let (g3, run', order', all) = grouped-rows ps g2 u ns free in
    (
      g3,
      grouped-opened k p.transaction_id p.entries (all_rows ps) g n
          ∙ (ap (grouped _) (opened_new k g new) ∙ (run ∙ run')),
      order' ∙ (ap (λ l. l ++ keys ps) order ∙ append_assoc g.order (k ∷ []) (keys ps)),
      λ j. elim (Bool-cases (k == j)) [
        | inl e ↦
            (let q : k ≡ j = (eq_iff k j).0 e in
              rw e (
                all j
                ∙ (ap (λ o. group_of o (lookup j g2.groups))
                      (subst (λ x. lookup x ps ≡ none) q fresh)
                    ∙ subst (λ x. lookup x g2.groups ≡ some p.entries) q mine)))
        | inr e ↦ rw e (all j ∙ ap (group_of (lookup j ps)) (kept j e))
      ],
    )
