-- ===== src/Sql/Table.antt =====
-- What adapters/sql.py uses of the database toolkit, for one table: the session's look-up by primary
-- key, a commit of one row that is new or changed, a deletion, and a query by a condition. A row keeps
-- its place when it changes, and a query gives its rows by the time of their creation; where the source
-- asks for no order, `find_any` takes any row that fits, or the column is unique and there is one at most.
-- The database is there: a commit fails only for what the row holds.
use drc_pay.Int.{ℤ, pos, negsuc}
use drc_pay.Base.{
  filter, ltb, ap, ◌≡◌, refl, Bool, true, false, not, ◌||◌, Option, none, some, List, [], ◌∷◌, ◌==◌,
  string_eq, nat_eq, if◌then◌else◌, String,
}

-- `.first()`
abbrev pub first : {A : Type 0} → List A → Option A
first [] = none
first (a ∷ _) = some a

module _ {Row : Type 0} (key : Row → String) where
  -- a row takes the place of the one with its key, or comes last
  unfoldable pub put : Row → List Row → List Row
  put r [] = r ∷ []
  put r (x ∷ xs) = if key x == key r then r ∷ xs else x ∷ put r xs

  unfoldable pub fetch_row : String → List Row → Option Row
  fetch_row k [] = none
  fetch_row k (x ∷ xs) = if key x == k then some x else fetch_row k xs

-- Some row of the list and the new one may not both be there.
unfoldable pub violates : {Row : Type 0} → (Row → Row → Bool) → Row → List Row → Bool
violates clash r [] = false
violates clash r (x ∷ xs) = clash x r || violates clash r xs

-- what a commit ends in: the toolkit's `IntegrityError` of a unique constraint, or its `DataError` of a
-- number that a column cannot hold; both are rolled back
pub data Commit (D : Type 0) : Type 0 where
  made : D → Commit D
  clashed overflowed : Commit D

-- the database after a commit, and none where it raised
abbrev pub kept : {D : Type 0} → Commit D → Option D
kept (made d) = some d
kept clashed = none
kept overflowed = none

-- what a `BigInteger` column holds
unfoldable pub is_bigint : ℤ → Bool
is_bigint (pos n) = ltb n 9223372036854775808
is_bigint (negsuc n) = ltb n 9223372036854775808

-- the rows of a table with no such column
abbrev pub always_fits : {Row : Type 0} → Row → Bool
always_fits r = true

-- A database `D` with a table of rows, of which two that clash break the table's unique constraint, and
-- one that does not fit holds a number that its column cannot hold.
pub record Table {Row : Type 0} (key : Row → String) (clash : Row → Row → Bool) (fits : Row → Bool)
    (D : Type 0) : Type 0 where
  pub all : D → List Row
  pub fetch : String → D → Option Row
  pub select : (Row → Bool) → D → List Row
  pub find_any : (Row → Bool) → D → Option Row
  pub commit : Row → D → Commit D
  pub remove : String → D → D
  pub fetch-eq : (k : String) (d : D) → fetch k d ≡ fetch_row key k (all d)
  pub select-eq : (p : Row → Bool) (d : D) → select p d ≡ filter p (all d)
  pub find_any-none : (p : Row → Bool) (d : D) → filter p (all d) ≡ [] → find_any p d ≡ none
  pub find_any-one :
      (p : Row → Bool) (d : D) (r : Row) → filter p (all d) ≡ r ∷ [] → find_any p d ≡ some r
  pub commit_overflowed : (r : Row) (d : D) → fits r ≡ false → commit r d ≡ overflowed
  pub commit_refused :
      (r : Row) (d : D) → fits r ≡ true → violates clash r (all d) ≡ true → commit r d ≡ clashed
  pub commit_made :
      (r : Row) (d : D)
      → fits r ≡ true
      → violates clash r (all d) ≡ false
      → (d' : D) × (commit r d ≡ made d') × (all d' ≡ put key r (all d))
  pub all-remove : (k : String) (d : D) → all (remove k d) ≡ filter (λ r. not (key r == k)) (all d)

-- The database that is the list of its rows.
module _ {Row : Type 0} (key : Row → String) (clash : Row → Row → Bool) (fits : Row → Bool) where
  abbrev pub listed_commit : Row → List Row → Commit (List Row)
  listed_commit r d =
      if fits r then if violates clash r d then clashed else made (put key r d) else overflowed

  pub listed_overflowed : (r : Row) (d : List Row) → fits r ≡ false → listed_commit r d ≡ overflowed
  listed_overflowed r d f = rw f refl

  pub listed_refused :
      (r : Row) (d : List Row)
      → fits r ≡ true
      → violates clash r d ≡ true
      → listed_commit r d ≡ clashed
  listed_refused r d f h = rw f (rw h refl)

  pub listed_made :
      (r : Row) (d : List Row)
      → fits r ≡ true
      → violates clash r d ≡ false
      → (d' : List Row) × (listed_commit r d ≡ made d') × (d' ≡ put key r d)
  listed_made r d f h = (put key r d, rw f (rw h refl), refl)

  abbrev pub listed : Table key clash fits (List Row)
  listed = record {
    all = λ d. d;
    fetch = fetch_row key;
    select = filter;
    find_any = λ p d. first (filter p d);
    commit = listed_commit;
    remove = λ k. filter (λ r. not (key r == k));
    fetch-eq = λ k d. refl;
    select-eq = λ p d. refl;
    find_any-none = λ p d h. ap first h;
    find_any-one = λ p d r h. ap first h;
    commit_overflowed = listed_overflowed;
    commit_refused = listed_refused;
    commit_made = listed_made;
    all-remove = λ k d. refl;
  }
