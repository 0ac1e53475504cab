-- ===== src/Sql/Names.antt =====
-- adapters/sql.py: the unique columns of merchants' codes, of merchants' names and of the staff's names.
use drc_pay.Sql.Table.{violates, first, kept, always_fits, Table, put}
use drc_pay.Sql.Keyed.{
  keyed_first, keyed_save, committed_row, read-committed, key-committed, option_map,
}
use drc_pay.Sql.Accounts.{
  same_column, credential_rows, credential_key, same_username, sql_save_credential,
  sql_credential_by_username,
}
use drc_pay.Auth.{MerchantCredential}
use drc_pay.Base.{
  ◌≡◌, refl, sym, ap, ◌∙◌, true, false, Option, none, some, List, [], ◌∷◌, ◌==◌, string_eq, nat_eq,
  arith, Bool-cases, inl, inr, filter, String, beq_refl,
}
use mathlib.Core.Path.{subst}

module _ {Row : Type 0} (key column : Row → String) where
  -- The row that was put is the first with its value of a unique column.
  first-put :
      (r : Row) (rows : List Row)
      → violates (same_column key column) r rows ≡ false
      → first (filter (λ x. column x == column r) (put key r rows)) ≡ some r
  unfolding violates put
  first-put r [] h = rw (beq_refl (column r), first) refl
  first-put r (x ∷ rows) h = elim (Bool-cases (key x == key r)) [
    | inl e ↦ rw e (rw (beq_refl (column r), first) refl)
    | inr e ↦ elim (Bool-cases (column x == column r)) [
      | inl f ↦ cc (rw f at (rw e at h))
      | inr f ↦ rw e (rw (f, first) (first-put r rows (rw f at (rw e at h))))
    ]
  ]

  -- A row with another's value of a unique column is not put.
  violates-other :
      (r x : Row) (rows : List Row)
      → first (filter (λ y. column y == column r) rows) ≡ some x
      → (key x == key r) ≡ false
      → violates (same_column key column) r rows ≡ true
  unfolding violates
  violates-other r x [] h n = cc
  violates-other r x (y ∷ rows) h n = elim (Bool-cases (column y == column r)) [
    | inl e ↦
        (let p : some y ≡ some x = rw (e, first) at h in
          let q : y ≡ x = cc in
          let n' : (key y == key r) ≡ false = subst (λ z. (key z == key r) ≡ false) (sym q) n in
          rw n' (rw e refl))
    | inr e ↦ ground (arith, violates-other r x rows (rw (e, first) at h) n)
  ]

same_option_map : {A : Type 0} (o : Option A) → option_map (λ a. a) o ≡ o
same_option_map none = refl
same_option_map (some a) = refl

module _ {D : Type 0} (db : Table credential_key same_username always_fits D)
    (c : MerchantCredential) (d : D) where
  by_name : D → Option MerchantCredential
  by_name e = first (filter (λ r. r.username == c.username) (db.all e))

  found : (e : D) → sql_credential_by_username db c.username e ≡ by_name e
  unfolding sql_credential_by_username keyed_first by_name
  found e = same_option_map _ ∙ ap first (db.select-eq (λ r. r.username == c.username) e)

  row : MerchantCredential
  row = committed_row credential_rows db c d

  refused :
      (x : MerchantCredential)
      → by_name d ≡ some x
      → (x.merchant_id == c.merchant_id) ≡ false
      → violates same_username row (db.all d) ≡ true
  unfolding by_name row
  refused x h n =
      violates-other credential_key (λ r. r.username) row x (db.all d) h
        (subst (λ k. (x.merchant_id == k) ≡ false) (sym (key-committed credential_rows db c d)) n)

  saved :
      (d' : D)
      → violates same_username row (db.all d) ≡ false
      → db.all d' ≡ put credential_key row (db.all d)
      → by_name d' ≡ some c
  unfolding by_name row
  saved d' v rows =
      ap (λ l. first (filter (λ r. r.username == c.username) l)) rows
      ∙ (first-put credential_key (λ r. r.username) row (db.all d) v
          ∙ ap some (read-committed credential_rows db c d))

  -- A merchant's credential whose name another merchant's credential has is refused.
  pub save_credential-taken :
      (x : MerchantCredential)
      → sql_credential_by_username db c.username d ≡ some x
      → (x.merchant_id == c.merchant_id) ≡ false
      → sql_save_credential db c d ≡ none
  unfolding sql_save_credential keyed_save row
  save_credential-taken x h n =
      ap kept (db.commit_refused row d refl (refused x (sym (found d) ∙ h) n))

  -- A merchant's credential that is saved, new or with a changed name, is what a sign-in with its name
  -- then finds.
  pub by_username-save_credential :
      (d' : D)
      → sql_save_credential db c d ≡ some d'
      → sql_credential_by_username db c.username d' ≡ some c
  unfolding sql_save_credential keyed_save row
  by_username-save_credential d' h = elim (Bool-cases (violates same_username row (db.all d))) [
    | inl v ↦ cc (h, ap kept (db.commit_refused row d refl v))
    | inr v ↦
        let (e, stored, rows) = db.commit_made row d refl v in
        let same : e ≡ d' = cc (h, stored) in
        found d' ∙ saved d' v (subst (λ z. db.all z ≡ put credential_key row (db.all d)) same rows)
  ]
