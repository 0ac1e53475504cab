-- ===== src/Text/Digits.antt =====
-- Decimal digits: what is written is read back.
use Prim.Native.Char.{code}
use drc_pay.Base.{
  ℕ, ◌+◌, ◌/◌, ◌%◌, ◌<◌, suc, zero, String, ◌≡◌, refl, ◌∙◌, ap, arith, ltb, nat_eq, Bool-cases, inl,
  inr,
}
use drc_pay.Text.{codes, read_digits, digits, digit_char, show_nat}

pub code-digit_char : (d : ℕ) → d < 10 → code (digit_char d) ≡ b'0' + d
code-digit_char zero h = refl
code-digit_char (suc zero) h = refl
code-digit_char (suc (suc zero)) h = refl
code-digit_char (suc (suc (suc zero))) h = refl
code-digit_char (suc (suc (suc (suc zero)))) h = refl
code-digit_char (suc (suc (suc (suc (suc zero))))) h = refl
code-digit_char (suc (suc (suc (suc (suc (suc zero)))))) h = refl
code-digit_char (suc (suc (suc (suc (suc (suc (suc zero))))))) h = refl
code-digit_char (suc (suc (suc (suc (suc (suc (suc (suc zero)))))))) h = refl
code-digit_char (suc (suc (suc (suc (suc (suc (suc (suc (suc zero))))))))) h = refl
code-digit_char (suc (suc (suc (suc (suc (suc (suc (suc (suc (suc d)))))))))) h =
    absurd (omega arith)

-- Enough fuel: the digits of `n` read as `n`, and the tail goes on from there.
pub read_digits-digits :
    (f n : ℕ) (tail : String)
    → n < f
    → read_digits 0 (codes (digits f n tail)) ≡ read_digits n (codes tail)
unfolding read_digits digits
read_digits-digits zero n tail h = elim h [ ]
read_digits-digits (suc f) n tail h = elim (Bool-cases (ltb n 10)) [
  | inl small ↦
      rw small
        (rw (code-digit_char n (ground arith)) (ap (λ m. read_digits m (codes tail)) (omega arith)))
  | inr large ↦ rw large (
      read_digits-digits f (n / 10) _ (ground arith)
      ∙ rw (code-digit_char (n % 10) (omega arith))
          (ap (λ m. read_digits m (codes tail)) (omega arith)))
]

pub read_digits-show_nat :
    (n : ℕ) (tail : String) → read_digits 0 (codes (show_nat n tail)) ≡ read_digits n (codes tail)
unfolding show_nat
read_digits-show_nat n tail = read_digits-digits (suc n) n tail (omega arith)
