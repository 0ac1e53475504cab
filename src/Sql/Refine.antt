-- ===== src/Sql/Refine.antt =====
-- adapters/sql.py against adapters/memory.py: the transaction store over a database and the one in
-- memory, call by call.
use drc_pay.Sql.Holds.{
  find-one, filter_all, pending-rows, put-rows, fit-insert, lookup-id, All-filter, Keyed-insert,
  violates-rows, filled_again, all_to_domain-map, first-rows, lookup-fit, fetch-rows, filter-rows,
  IsOneCurrency, to_domain-row_of, row_of?, row_of, Holds,
}
use drc_pay.Sql.Calls.{
  op_all, op_pending, seen_rows, op_by_op, seen_found, op_by_key, seen_done, op_save, seen_row,
  op_get, IsStorable, AreFit, IsFit, Op, memory_step, memory_run, sql_step, sql_run,
}
use drc_pay.Application.OutcomesKeep.{get-eq, get_missing}
use drc_pay.Transactions.States.{member, pending_states}
use drc_pay.Transactions.Store.{
  has_op, has_key, find_pending, find_by_op_id, find_by_idempotency_key, save, find, clashes, get,
}
use drc_pay.Sql.Transactions.{
  committed, or_blank, sql_all, sql_find_pending, sql_find_by_op_id, sql_find_by_idempotency_key,
  sql_save, sql_get, same_key, row_id, row_fits, found_row, row_has_op, first_row,
}
use drc_pay.Sql.Rows.{TransactionRow, filled, all_to_domain}
use drc_pay.Dict.{lookup, values}
use drc_pay.Sql.Table.{is_bigint, put, violates, fetch_row, Table}
use drc_pay.Transactions.Models.{World, Transaction}
use drc_pay.Base.{
  length, ◌≤◌, map, filter, All, ◌≡◌, refl, sym, ap, ◌∙◌, Bool, true, some, ◌&&◌, is_some, List, [],
  ◌∷◌, string_eq, nat_eq, Bool-cases, Option-cases, inl, inr, String,
}
use drc_pay.Exec.{ok}
use mathlib.Core.Path.{subst}

module _ {D R : Type 0} (db : Table row_id same_key row_fits D) (d : D) (w : World R)
    (h : Holds db d w) where
  selected :
      (p : TransactionRow → Bool) (q : Transaction → Bool)
      → ((t : Transaction) → p (row_of t) ≡ q t)
      → db.select p d ≡ map row_of (filter q (values w.rows))
  selected p q e = db.select-eq p d ∙ ap (filter p) h.rows ∙ filter-rows p q (values w.rows) e

  fetched : (id : String) → db.fetch id d ≡ row_of? (lookup id w.rows)
  fetched id = db.fetch-eq id d ∙ ap (fetch_row row_id id) h.rows ∙ fetch-rows id w.rows h.keyed

  get_seen : (id : String) → sql_get db id d ≡ (get id w).0
  unfolding sql_get
  get_seen id = elim (Option-cases (lookup id w.rows)) [
    | inl e ↦ rw (fetched id) (rw e (sym (ap (λ x. x.0) (get_missing id e))))
    | inr (t, e) ↦ rw (fetched id) (
        rw e
          (to_domain-row_of t (lookup-fit id w.rows t e h.fit) ∙ sym (ap (λ x. x.0) (get-eq id e))))
  ]

  first_seen :
      (p : TransactionRow → Bool) (q : Transaction → Bool)
      → ((t : Transaction) → p (row_of t) ≡ q t)
      → first_row (db.select p d) ≡ ok (find q (values w.rows))
  first_seen p q e = ap first_row (selected p q e) ∙ first-rows q (values w.rows) h.fit

  rows_seen :
      (p : TransactionRow → Bool) (q : Transaction → Bool)
      → ((t : Transaction) → p (row_of t) ≡ q t)
      → all_to_domain (db.select p d) ≡ ok (filter q (values w.rows))
  rows_seen p q e =
      ap all_to_domain (selected p q e)
      ∙ all_to_domain-map (filter q (values w.rows)) (All-filter q (values w.rows) h.fit)

  saved_row : (t : Transaction) → filled t (or_blank db t.id (db.fetch t.id d)) ≡ row_of t
  unfolding filled
  saved_row t = elim (Option-cases (lookup t.id w.rows)) [
    | inl e ↦ rw (fetched t.id) (rw e refl)
    | inr (x, e) ↦
        rw (fetched t.id) (rw e (filled_again t (row_of x) (lookup-id t.id w.rows x e h.keyed)))
  ]

  sql_save-eq : (t : Transaction) → sql_save db t d ≡ committed db (db.commit (row_of t) d) d
  unfolding sql_save
  sql_save-eq t = ap (λ r. committed db (db.commit r d) d) (saved_row t)

  violates-eq :
      (t : Transaction)
      → violates same_key (row_of t) (db.all d)
        ≡ (is_some t.idempotency_key && clashes t (values w.rows))
  violates-eq t = ap (violates same_key (row_of t)) h.rows ∙ violates-rows t (values w.rows)

  fitting : (t : Transaction) → IsStorable t → row_fits (row_of t) ≡ true
  unfolding row_fits is_bigint filled
  fitting t f = rw f.amount_fits f.fee_fits

  op_seen :
      (op : String)
      → length (filter (has_op op) (values w.rows)) ≤ 1
      → sql_find_by_op_id db op d ≡ ok (find_by_op_id op w)
  unfolding sql_find_by_op_id find_by_op_id filled
  op_seen op one = elim (find-one (has_op op) (values w.rows) one) [
    | inl (e, f) ↦
        rw (db.find_any-none (row_has_op op) d (matching ∙ ap (map row_of) e)) (rw f refl)
    | inr (t, e, f) ↦
        rw (db.find_any-one (row_has_op op) d (row_of t) (matching ∙ ap (map row_of) e))
          (rw f (only t e))
  ]
    where
      matching : filter (row_has_op op) (db.all d) ≡ map row_of (filter (has_op op) (values w.rows))
      matching =
          ap (filter (row_has_op op)) h.rows
          ∙ filter-rows (row_has_op op) (has_op op) (values w.rows) (λ t. refl)

      only :
          (t : Transaction)
          → filter (has_op op) (values w.rows) ≡ t ∷ []
          → found_row (some (row_of t)) ≡ ok (some t)
      only t e =
          rw
            (to_domain-row_of t
              (subst (All IsOneCurrency) e (All-filter (has_op op) (values w.rows) h.fit)).0)
            refl

  save_seen :
      (t : Transaction)
      → IsStorable t
      → ((sql_save db t d).0 ≡ (save t w).0) × Holds db (sql_save db t d).1 (save t w).1
  unfolding save
  save_seen t f = elim (Bool-cases (is_some t.idempotency_key && clashes t (values w.rows))) [
    | inl e ↦
        rw (sql_save-eq t)
          (rw (db.commit_refused (row_of t) d (fitting t f) (violates-eq t ∙ e)) (rw e (refl, h)))
    | inr e ↦
        let (d', stored, rows) = db.commit_made (row_of t) d (fitting t f) (violates-eq t ∙ e) in
        rw (sql_save-eq t) (
          rw stored (
            rw e (
              refl,
              record {
                keyed = Keyed-insert t w.rows h.keyed;
                fit = fit-insert t w.rows f.one_currency h.fit;
                rows = rows ∙ ap (put row_id (row_of t)) h.rows ∙ put-rows t w.rows h.keyed;
              },
            )))
  ]

  step_seen :
      (o : Op)
      → IsFit o w
      → ((sql_step db o d).0 ≡ (memory_step o w).0)
        × Holds db (sql_step db o d).1 (memory_step o w).1
  unfolding sql_step memory_step sql_find_by_idempotency_key find_by_idempotency_key
      sql_find_pending find_pending sql_all filled
  step_seen (op_get id) f = (ap seen_row (get_seen id), h)
  step_seen (op_save t) f = (ap seen_done (save_seen t f).0, (save_seen t f).1)
  step_seen (op_by_key key) f = (ap seen_found (first_seen _ (has_key key) (λ t. refl)), h)
  step_seen (op_by_op op) f = (ap seen_found (op_seen op f), h)
  step_seen op_pending f = (
    ap seen_rows (rows_seen _ (λ t. member t.state pending_states) (λ t. pending-rows t.state)),
    h,
  )
  step_seen op_all f =
      (ap seen_rows (rows_seen _ (λ _. true) (λ t. refl) ∙ ap ok (filter_all (values w.rows))), h)

-- From a database that holds the rows in memory, any sequence of calls of the transaction store gives
-- the same answers over the database as in memory, if it saves only payments with the fee in the
-- currency of the amount and both within 64 bits, and asks only for operations' ids of which each is
-- one stored payment's at most.
pub run_refines :
    {D R : Type 0} (db : Table row_id same_key row_fits D) (os : List Op) (d : D) (w : World R)
    → Holds db d w
    → AreFit os w
    → sql_run db os d ≡ memory_run os w
unfolding sql_run memory_run
run_refines db [] d w h f = refl
run_refines db (o ∷ os) d w h (f, fs) =
    let (same, after) = step_seen db d w h o f in
    let rest : sql_run db os (sql_step db o d).1 ≡ memory_run os (memory_step o w).1 =
      run_refines db os _ _ after fs in
    rw same (rw rest refl)
