-- ===== src/Sql/Fallible.antt =====
-- Calls that read no state and may raise, in sequence.
use drc_pay.Exec.{Result, ok, err}

infixl 5 ◌>>=◌
abbrev pub ◌>>=◌ : {A B : Type 0} → Result A → (A → Result B) → Result B
ok a >>= f = f a
err e >>= f = err e
