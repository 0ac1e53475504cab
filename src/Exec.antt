-- ===== src/Exec.antt =====
-- Python calls that may raise, and methods that mutate objects and may raise. What was written
-- before a raise stays written, so the state comes back beside the error too.
use drc_pay.Base.{ℕ, ◌≡◌, refl, ap, Bool, true, false, ⊤}
use drc_pay.Transactions.States.{TxState}

-- `arithmetic_error` is that of `decimal`, `data_error` that of the database toolkit, `http_exception` an HTTP status, and `rail_raised` is any exception of the rail other than `RailRejected`: a transport error of the
-- HTTP client, or the ValueError of `format_amount`
pub data Error : Type 0 where
  unknown_currency currency_mismatch unbalanced_posting value_error key_error : Error
  duplicate_idempotency_key rail_raised arithmetic_error data_error : Error
  http_exception : ℕ → Error
  illegal_transition : TxState → TxState → Error

pub data Result (A : Type 0) : Type 0 where
  ok : A → Result A
  err : Error → Result A

abbrev pub Exec : Type 0 → Type 0 → Type 0
Exec S A = S → Result A × S

module _ {S A : Type 0} where
  abbrev pub pure : A → Exec S A
  pure a s = (ok a, s)

  abbrev pub raise : Error → Exec S A
  raise e s = (err e, s)

  abbrev pub lift : Result A → Exec S A
  lift r s = (r, s)

  abbrev pub gets : (S → A) → Exec S A
  gets f s = (ok (f s), s)

infixl 5 ◌>>=◌ ◌>>◌
abbrev pub ◌>>=◌ : {S A B : Type 0} → Exec S A → (A → Exec S B) → Exec S B
◌>>=◌ m f s = let (r, s') = m s in elim r [ ok a ↦ f a s' | err e ↦ (err e, s') ]

abbrev pub ◌>>◌ : {S A B : Type 0} → Exec S A → Exec S B → Exec S B
m >> k = m >>= λ _. k

-- `if not c: raise e`
abbrev pub require : {S : Type 0} → Bool → Error → Exec S ⊤
require true e s = (ok tt, s)
require false e s = (err e, s)

-- A call that returns hands its value and its state on.
pub bind-eq :
    {S A B : Type 0} (m : Exec S A) (f : A → Exec S B) {s s' : S} {a : A}
    → m s ≡ (ok a, s')
    → (m >>= f) s ≡ f a s'
bind-eq {S} {A} {B} m f h =
    ap {B = Result B × S} (λ (x : Result A × S). elim x.0 [ ok a ↦ f a x.1 | err e ↦ (err e, x.1) ])
      h

-- To prove what a block leaves behind: its first call returns, and the rest leaves that behind.
pub bind_rule :
    {S A B : Type 0} (P : S → Type 0) (m : Exec S A) (f : A → Exec S B) {s s' : S} {a : A}
    → m s ≡ (ok a, s')
    → P (f a s').1
    → P ((m >>= f) s).1
bind_rule P m f h p = rw (bind-eq m f h) p

-- What follows a call without touching the state leaves the state that the call left.
pub state-seq-pure : {S A B : Type 0} (m : Exec S A) (b : B) (s : S) → ((m >> pure b) s).1 ≡ (m s).1
state-seq-pure {S} {A} {B} m b s = both (m s)
  where
    both :
        (x : Result A × S)
        → (let y : Result B × S = elim x.0 [ ok a ↦ (ok b, x.1) | err e ↦ (err e, x.1) ] in y.1)
          ≡ x.1
    both (ok a, s') = refl
    both (err e, s') = refl

-- Its first call raises, and what that left behind stays.
pub raise_rule :
    {S A B : Type 0} (P : S → Type 0) (m : Exec S A) (f : A → Exec S B) {s s' : S} {e : Error}
    → m s ≡ (err e, s')
    → P s'
    → P ((m >>= f) s).1
raise_rule {S} {A} {B} P m f h p =
    rw
      (ap {B = Result B × S}
        (λ (x : Result A × S). elim x.0 [ ok a ↦ f a x.1 | err e ↦ (err e, x.1) ]) h)
      p

-- A test of the arguments raises, or lets the rest run.
pub require_rule :
    {S A : Type 0} (P : S → Type 0) (b : Bool) (e : Error) (k : Exec S A) {s : S}
    → P s
    → (b ≡ true → P (k s).1)
    → P ((require b e >> k) s).1
require_rule P true e k p q = q refl
require_rule P false e k p q = p

-- What only computes a value from the result of a call leaves the state that the call left.
pub state-then_pure :
    {S A B : Type 0} (m : Exec S A) (f : A → B) (s : S) → ((m >>= λ a. pure (f a)) s).1 ≡ (m s).1
state-then_pure {S} {A} {B} m f s = both (m s)
  where
    both :
        (x : Result A × S)
        → (let y : Result B × S = elim x.0 [ ok a ↦ (ok (f a), x.1) | err e ↦ (err e, x.1) ] in y.1)
          ≡ x.1
    both (ok a, s') = refl
    both (err e, s') = refl

-- What holds after a call that may raise, and what its sequel keeps, holds after both.
pub seq_rule :
    {S A B : Type 0} (P : S → Type 0) (m : Exec S A) (k : Exec S B) (s : S)
    → P (m s).1
    → P (k (m s).1).1
    → P ((m >> k) s).1
seq_rule {S} {A} {B} P m k s p q = both (m s) p q
  where
    both :
        (x : Result A × S)
        → P x.1
        → P (k x.1).1
        → P (let y : Result B × S = elim x.0 [ ok a ↦ k x.1 | err e ↦ (err e, x.1) ] in y.1)
    both (ok a, s') p q = q
    both (err e, s') p q = p

-- The same where the sequel takes the call's value, and is looked at only where the call returns.
pub seq_any :
    {S A B : Type 0} (P : S → Type 0) (m : Exec S A) (f : A → Exec S B) (s : S)
    → P (m s).1
    → ((a : A) (s' : S) → P s' → P (f a s').1)
    → P ((m >>= f) s).1
seq_any {S} {A} {B} P m f s p q = both (m s) p
  where
    both :
        (x : Result A × S)
        → P x.1
        → P (let y : Result B × S = elim x.0 [ ok a ↦ f a x.1 | err e ↦ (err e, x.1) ] in y.1)
    both (ok a, s') p = q a s' p
    both (err e, s') p = p

-- A computation that may raise and reads no state comes first.
pub lift_rule :
    {S A B : Type 0} (P : S → Type 0) (r : Result A) (f : A → Exec S B) {s : S}
    → P s
    → ((a : A) → r ≡ ok a → P (f a s).1)
    → P ((lift r >>= f) s).1
lift_rule P (ok a) f p q = q a refl
lift_rule P (err e) f p q = p

-- A call that raises ends the block.
pub raise-eq :
    {S A B : Type 0} (m : Exec S A) (f : A → Exec S B) {s s' : S} {e : Error}
    → m s ≡ (err e, s')
    → (m >>= f) s ≡ (err e, s')
raise-eq {S} {A} {B} m f h =
    ap {B = Result B × S} (λ (x : Result A × S). elim x.0 [ ok a ↦ f a x.1 | err e ↦ (err e, x.1) ])
      h

-- The same with one fact in the middle and another at the end.
pub seq_mid :
    {S A B : Type 0} (P Q : S → Type 0) (m : Exec S A) (f : A → Exec S B) (s : S)
    → P (m s).1
    → ((s' : S) → P s' → Q s')
    → ((a : A) (s' : S) → P s' → Q (f a s').1)
    → Q ((m >>= f) s).1
seq_mid {S} {A} {B} P Q m f s p stop go = both (m s) p
  where
    both :
        (x : Result A × S)
        → P x.1
        → Q (let y : Result B × S = elim x.0 [ ok a ↦ f a x.1 | err e ↦ (err e, x.1) ] in y.1)
    both (ok a, s') p = go a s' p
    both (err e, s') p = stop s' p

-- A block that returns has run its first call to the end, and then the rest.
pub bind-ok :
    {S A B : Type 0} (m : Exec S A) (f : A → Exec S B) {s s' : S} {b : B}
    → (m >>= f) s ≡ (ok b, s')
    → (a : A) × (v : S) × (m s ≡ (ok a, v)) × (f a v ≡ (ok b, s'))
bind-ok {S} {A} {B} m f {s} {s'} {b} h = both (m s) refl h
  where
    both :
        (x : Result A × S)
        → m s ≡ x
        → (let y : Result B × S = elim x.0 [ ok a ↦ f a x.1 | err e ↦ (err e, x.1) ] in y)
          ≡ (ok b, s')
        → (a : A) × (v : S) × (m s ≡ (ok a, v)) × (f a v ≡ (ok b, s'))
    both (ok a, v) e h = (a, v, e, h)
    both (err e', v) e h = cc (ap (λ x. x.0) h)

-- A guard leaves the state as it is.
pub state-require : {S : Type 0} (b : Bool) (e : Error) (s : S) → (require b e s).1 ≡ s
state-require true e s = refl
state-require false e s = refl
