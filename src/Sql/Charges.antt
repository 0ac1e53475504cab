-- ===== src/Sql/Charges.antt =====
-- adapters/sql.py: `SqlChargeStore`, over any database that has the table of charges, which has no
-- constraint beside its key and the range of its number.
use drc_pay.Ledger.Money.{currency_name}
use drc_pay.Charges.{Charge}
use drc_pay.Sql.Rows.{read_money-currency_name, read_money}
use drc_pay.Int.{pos, ℤ}
use drc_pay.Sql.Table.{is_bigint, overflowed, made, Commit, violates, fetch_row, Table, put}
use drc_pay.Base.{
  ◌⊎◌, true, ◌≡◌, refl, sym, ap, ◌∙◌, Bool, false, Option, none, some, List, [], ◌∷◌, ◌==◌,
  string_eq, nat_eq, if◌then◌else◌, Bool-cases, Option-cases, inl, inr, String,
}
use drc_pay.Exec.{key_error, Result, ok, err}
use drc_pay.Sql.Keyed.{fetch_row-put, fetched_key}
use drc_pay.Sql.Fallible.{◌>>=◌}

-- `ChargeRow`
pub record ChargeRow : Type 0 where
  pub id : String
  pub merchant_id : String
  pub amount_minor : ℤ
  pub currency : String
  pub transaction_id : Option String

abbrev pub charge_id : ChargeRow → String
charge_id r = r.id

abbrev pub no_clash : ChargeRow → ChargeRow → Bool
no_clash x r = false

-- the `BigInteger` column
unfoldable pub charge_fits : ChargeRow → Bool
unfolding is_bigint
charge_fits r = is_bigint r.amount_minor

-- `_charge_to_domain`
unfoldable pub charge_to_domain : ChargeRow → Result Charge
unfolding read_money
charge_to_domain row = do
  amount ← read_money row.amount_minor row.currency
  ok (record {
    id = row.id;
    merchant_id = row.merchant_id;
    amount = amount;
    transaction_id = row.transaction_id;
  })

-- `ChargeRow(id=...)`
abbrev pub blank_charge : String → ChargeRow
blank_charge id = record {
  id = id;
  merchant_id = "";
  amount_minor = pos 0;
  currency = "";
  transaction_id = none;
}

-- the assignments of `save`
unfoldable pub charge_filled : Charge → ChargeRow → ChargeRow
charge_filled c row = record row {
  merchant_id = c.merchant_id;
  amount_minor = c.amount.amount_minor;
  currency = currency_name c.amount.currency;
  transaction_id = c.transaction_id;
}

module _ {D : Type 0} (db : Table charge_id no_clash charge_fits D) where
  abbrev pub charge_found : Option ChargeRow → Result Charge
  charge_found none = err key_error
  charge_found (some r) = charge_to_domain r

  -- `get`
  unfoldable pub sql_charge : String → D → Result Charge
  unfolding charge_to_domain
  sql_charge id d = charge_found (db.fetch id d)

  abbrev pub or_blank_charge : String → Option ChargeRow → ChargeRow
  or_blank_charge id none = blank_charge id
  or_blank_charge id (some r) = r

  -- `save`, which ends as its commit does
  unfoldable pub sql_save_charge : Charge → D → Commit D
  unfolding charge_filled
  sql_save_charge c d = db.commit (charge_filled c (or_blank_charge c.id (db.fetch c.id d))) d

charge_read :
    (c : Charge) (row : ChargeRow) → row.id ≡ c.id → charge_to_domain (charge_filled c row) ≡ ok c
unfolding charge_to_domain charge_filled
charge_read c row e =
    rw (read_money-currency_name c.amount.amount_minor c.amount.currency)
      (ap (λ id. ok (record c { id = id })) e)

unclashed : (r : ChargeRow) (rows : List ChargeRow) → violates no_clash r rows ≡ false
unfolding violates
unclashed r [] = refl
unclashed r (x ∷ rows) = unclashed r rows

module _ {D : Type 0} (db : Table charge_id no_clash charge_fits D) (c : Charge) (d : D) where
  -- the row that is committed
  abbrev saved : ChargeRow
  saved = charge_filled c (or_blank_charge db c.id (db.fetch c.id d))

  blank_kept : (or_blank_charge db c.id (db.fetch c.id d)).id ≡ c.id
  blank_kept = elim (Option-cases (db.fetch c.id d)) [
    | inl e ↦ rw e refl
    | inr (r, e) ↦ rw e (fetched_key charge_id c.id (db.all d) r (sym (db.fetch-eq c.id d) ∙ e))
  ]

  row_kept : saved.id ≡ c.id
  unfolding charge_filled
  row_kept = blank_kept

  fetch-saved :
      (k : String) (d' : D)
      → db.all d' ≡ put charge_id saved (db.all d)
      → db.fetch k d' ≡ (if c.id == k then some saved else db.fetch k d)
  fetch-saved k d' rows =
      db.fetch-eq k d'
      ∙ (ap (fetch_row charge_id k) rows
          ∙ (fetch_row-put charge_id saved k (db.all d)
              ∙ (ap (λ x. if x == k then some saved else fetch_row charge_id k (db.all d)) row_kept
                  ∙ ap (λ o. if c.id == k then some saved else o) (sym (db.fetch-eq k d)))))

  read_back :
      (k : String) (d' : D)
      → db.all d' ≡ put charge_id saved (db.all d)
      → sql_charge db k d' ≡ (if c.id == k then ok c else sql_charge db k d)
  unfolding sql_charge
  read_back k d' rows = elim (Bool-cases (c.id == k)) [
    | inl e ↦ rw (fetch-saved k d' rows) (rw e (charge_read c _ blank_kept))
    | inr e ↦ rw (fetch-saved k d' rows) (rw e refl)
  ]

  saved_fits : charge_fits saved ≡ is_bigint c.amount.amount_minor
  unfolding charge_fits charge_filled
  saved_fits = refl

  -- A charge, new or changed, whose amount fits the column of 64 bits is saved, and is then read back as
  -- it is, and every other charge as before. The save of any other raises, and stores nothing.
  pub charge-save_charge :
      ((is_bigint c.amount.amount_minor ≡ true)
        × ((d' : D) × (sql_save_charge db c d ≡ made d')
            × ((k : String)
                → sql_charge db k d' ≡ (if c.id == k then ok c else sql_charge db k d))))
      ⊎ ((is_bigint c.amount.amount_minor ≡ false) × (sql_save_charge db c d ≡ overflowed))
  unfolding sql_save_charge
  charge-save_charge = elim (Bool-cases (is_bigint c.amount.amount_minor)) [
    | inl f ↦
        let (d', stored, rows) =
          db.commit_made saved d (saved_fits ∙ f) (unclashed saved (db.all d)) in
        inl (f, (d', stored, λ k. read_back k d' rows))
    | inr f ↦ inr (f, db.commit_overflowed saved d (saved_fits ∙ f))
  ]
