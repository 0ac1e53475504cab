-- ===== src/Sql/Keyed.antt =====
-- adapters/sql.py: what the stores of merchants, credentials and sessions do alike, over any database that
-- has their table. Foreign keys are not modelled.
use drc_pay.Sql.Table.{violates, fetch_row, first, kept, Table, put}
use drc_pay.Base.{
  ◌≡◌, refl, sym, ap, ◌∙◌, Bool, true, false, not, Option, none, some, is_some, List, [], ◌∷◌, ◌==◌,
  string_eq, nat_eq, eq_iff, arith, if◌then◌else◌, Bool-cases, Option-cases, inl, inr, filter,
  String, map,
}
use mathlib.Core.Path.{subst}

-- how a store's rows stand for its objects: `_to_domain`, the new row of an id, and the assignments of `save`
pub record Mapping {Row : Type 0} (key : Row → String) (A : Type 0) : Type 0 where
  pub id_of : A → String
  pub to_domain : Row → A
  pub blank : String → Row
  pub filled : A → Row → Row
  pub key-blank : (k : String) → key (blank k) ≡ k
  pub key-filled : (a : A) (r : Row) → key (filled a r) ≡ key r
  pub read-filled : (a : A) (r : Row) → key r ≡ id_of a → to_domain (filled a r) ≡ a

abbrev pub or_row : {Row : Type 0} → Row → Option Row → Row
or_row blank none = blank
or_row blank (some r) = r

abbrev pub option_map : {A B : Type 0} → (A → B) → Option A → Option B
option_map f none = none
option_map f (some a) = some (f a)

module _ {Row A D : Type 0} {key : Row → String} {clash : Row → Row → Bool} {fits : Row → Bool}
    (m : Mapping key A) (db : Table key clash fits D) where
  -- `get` by the primary key
  unfoldable pub keyed_get : String → D → Option A
  keyed_get k d = option_map m.to_domain (db.fetch k d)

  -- the first object whose row fulfils a condition
  unfoldable pub keyed_first : (Row → Bool) → D → Option A
  keyed_first p d = option_map m.to_domain (first (db.select p d))

  -- `all`
  unfoldable pub keyed_all : D → List A
  keyed_all d = map m.to_domain (db.select (λ r. true) d)

  -- `save`, and `none` where the commit raises
  unfoldable pub keyed_save : A → D → Option D
  keyed_save a d =
      kept (db.commit (m.filled a (or_row (m.blank (m.id_of a)) (db.fetch (m.id_of a) d))) d)

  -- `delete`
  unfoldable pub keyed_delete : String → D → D
  keyed_delete k d = if is_some (db.fetch k d) then db.remove k d else d

module _ {Row : Type 0} (key : Row → String) where
  pub fetch_row-put :
      (r : Row) (k : String) (rows : List Row)
      → fetch_row key k (put key r rows) ≡ (if key r == k then some r else fetch_row key k rows)
  unfolding fetch_row put
  fetch_row-put r k [] = refl
  fetch_row-put r k (x ∷ rows) =
      ground
        (arith, eq_iff (key r) k, eq_iff (key x) k, eq_iff (key x) (key r), fetch_row-put r k rows)

  pub fetched_key :
      (k : String) (rows : List Row) (r : Row) → fetch_row key k rows ≡ some r → key r ≡ k
  unfolding fetch_row
  fetched_key k [] r h = cc
  fetched_key k (x ∷ rows) r h = elim (Bool-cases (key x == k)) [
    | inl e ↦
        (let p : some x ≡ some r = rw e at h in
          let q : x ≡ r = cc in subst (λ y. key y ≡ k) q ((eq_iff (key x) k).0 e))
    | inr e ↦ fetched_key k rows r (rw e at h)
  ]

  fetch_row-without :
      (j k : String) (rows : List Row)
      → fetch_row key k (filter (λ r. not (key r == j)) rows)
        ≡ (if j == k then none else fetch_row key k rows)
  unfolding fetch_row
  fetch_row-without j k [] = ground arith
  fetch_row-without j k (x ∷ rows) =
      ground (arith, eq_iff j k, eq_iff (key x) k, eq_iff (key x) j, fetch_row-without j k rows)

module _ {Row A D : Type 0} {key : Row → String} {clash : Row → Row → Bool} {fits : Row → Bool}
    (m : Mapping key A) (db : Table key clash fits D) where
  module _ (a : A) (d : D) where
    -- the row that `save` commits
    abbrev pub committed_row : Row
    committed_row = m.filled a (or_row (m.blank (m.id_of a)) (db.fetch (m.id_of a) d))

    start_key : key (or_row (m.blank (m.id_of a)) (db.fetch (m.id_of a) d)) ≡ m.id_of a
    start_key = elim (Option-cases (db.fetch (m.id_of a) d)) [
      | inl e ↦ rw e (m.key-blank (m.id_of a))
      | inr (r, e) ↦
          rw e (fetched_key key (m.id_of a) (db.all d) r (sym (db.fetch-eq (m.id_of a) d) ∙ e))
    ]

    pub key-committed : key committed_row ≡ m.id_of a
    key-committed = m.key-filled a _ ∙ start_key

    pub read-committed : m.to_domain committed_row ≡ a
    read-committed = m.read-filled a _ start_key

    fetch-committed :
        (k : String) (d' : D)
        → db.all d' ≡ put key committed_row (db.all d)
        → db.fetch k d' ≡ (if m.id_of a == k then some committed_row else db.fetch k d)
    fetch-committed k d' rows =
        db.fetch-eq k d'
        ∙ (ap (fetch_row key k) rows
            ∙ (fetch_row-put key committed_row k (db.all d)
                ∙ (ap (λ x. if x == k then some committed_row else fetch_row key k (db.all d))
                      key-committed
                    ∙ ap (λ o. if m.id_of a == k then some committed_row else o)
                        (sym (db.fetch-eq k d)))))

    pub keyed_get-committed :
        (k : String) (d' : D)
        → db.all d' ≡ put key committed_row (db.all d)
        → keyed_get m db k d' ≡ (if m.id_of a == k then some a else keyed_get m db k d)
    unfolding keyed_get
    keyed_get-committed k d' rows = elim (Bool-cases (m.id_of a == k)) [
      | inl e ↦ rw (fetch-committed k d' rows) (rw e (ap some read-committed))
      | inr e ↦ rw (fetch-committed k d' rows) (rw e refl)
    ]

    -- A save whose numbers fit and that breaks no unique constraint of the table succeeds; the object is read back under its id
    -- as it is, and every other id as before.
    pub keyed_get-keyed_save :
        fits committed_row ≡ true
        → violates clash committed_row (db.all d) ≡ false
        → (d' : D) × (keyed_save m db a d ≡ some d')
          × ((k : String)
              → keyed_get m db k d' ≡ (if m.id_of a == k then some a else keyed_get m db k d))
    unfolding keyed_save
    keyed_get-keyed_save f h =
        let (d', e, rows) = db.commit_made committed_row d f h in
        (d', ap kept e, λ k. keyed_get-committed k d' rows)

  -- After a deletion nothing is read under the id, and everything else as before.
  pub keyed_get-keyed_delete :
      (j k : String) (d : D)
      → keyed_get m db k (keyed_delete m db j d) ≡ (if j == k then none else keyed_get m db k d)
  unfolding keyed_get keyed_delete
  keyed_get-keyed_delete j k d = elim (Option-cases (db.fetch j d)) [
    | inl e ↦ elim (Bool-cases (j == k)) [
      | inl q ↦ rw e (
          rw q
            (ap (λ i. option_map m.to_domain (db.fetch i d)) (sym ((eq_iff j k).0 q)) ∙ rw e refl))
      | inr q ↦ rw e (rw q refl)
    ]
    | inr (r, e) ↦ rw e (
        ap (option_map m.to_domain) (
          db.fetch-eq k (db.remove j d)
          ∙ (ap (fetch_row key k) (db.all-remove j d)
              ∙ (fetch_row-without key j k (db.all d)
                  ∙ ap (λ o. if j == k then none else o) (sym (db.fetch-eq k d)))))
        ∙ mapped (j == k))
  ]
    where
      mapped :
          (b : Bool)
          → option_map m.to_domain (if b then none else db.fetch k d)
            ≡ (if b then none else option_map m.to_domain (db.fetch k d))
      mapped true = refl
      mapped false = refl
