-- ===== src/Application/Onboarding/Search.antt =====
-- application/onboarding.py: the search of `_next_short_code` for a free code ends.
use drc_pay.Text.{show_nat, codes, read_digits}
use drc_pay.Text.Digits.{read_digits-show_nat}
use drc_pay.Merchants.{get_by_short_code, Merchant, by_short_code}
use drc_pay.Dict.{values, Dict}
use drc_pay.Application.Onboarding.{first_free}
use drc_pay.Base.{
  ◌≡◌, refl, ap, ◌∙◌, Option, none, some, is_some, List, [], ◌∷◌, ◌==◌, string_eq, nat_eq, eq_iff,
  arith, Bool-cases, inl, inr, ℕ, String, ◌+◌, ◌≤◌, ◌<◌, suc, zero, leb, true, false, length,
  if◌then◌else◌,
}

-- the number that a short code stands for
abbrev code_number : Merchant → ℕ
code_number m = read_digits 0 (codes m.short_code)

-- how many merchants have a code from `k` on
abbrev codes_from : ℕ → List Merchant → ℕ
codes_from k [] = 0
codes_from k (m ∷ ms) = (if leb k (code_number m) then 1 else 0) + codes_from k ms

codes_from-le_length : (k : ℕ) (ms : List Merchant) → codes_from k ms ≤ length ms
codes_from-le_length k [] = omega arith
codes_from-le_length k (m ∷ ms) = ground (arith, codes_from-le_length k ms)

codes_from-antitone : (k : ℕ) (ms : List Merchant) → codes_from (k + 1) ms ≤ codes_from k ms
codes_from-antitone k [] = omega arith
codes_from-antitone k (m ∷ ms) = ground (arith, codes_from-antitone k ms)

code_number-show_nat : (k : ℕ) (m : Merchant) → m.short_code ≡ show_nat k "" → code_number m ≡ k
unfolding read_digits
code_number-show_nat k m e = ap (λ s. read_digits 0 (codes s)) e ∙ read_digits-show_nat k ""

-- A candidate that is taken is one code less from the next candidate on.
taken-fewer :
    (k : ℕ) (ms : List Merchant)
    → is_some (by_short_code (show_nat k "") ms) ≡ true
    → codes_from (k + 1) ms < codes_from k ms
unfolding by_short_code
taken-fewer k [] h = cc
taken-fewer k (m ∷ ms) h = elim (Bool-cases (m.short_code == show_nat k "")) [
  | inl e ↦
      let n : code_number m ≡ k =
        code_number-show_nat k m ((eq_iff m.short_code (show_nat k "")).0 e) in
      ground (arith, n, codes_from-antitone k ms)
  | inr e ↦ ground (arith, taken-fewer k ms (rw e at h))
]

search-ends :
    (f k : ℕ) (rows : Dict String Merchant)
    → codes_from k (values rows) < f
    → get_by_short_code (show_nat (first_free f k rows) "") rows ≡ none
unfolding first_free
search-ends zero k rows h = absurd (omega arith)
search-ends (suc f) k rows h =
    elim (Bool-cases (is_some (get_by_short_code (show_nat k "") rows))) [
      | inl e ↦ rw e (search-ends f (k + 1) rows (omega (arith, fewer e)))
      | inr e ↦ rw e (absent (get_by_short_code (show_nat k "") rows) e)
    ]
  where
    fewer :
        is_some (get_by_short_code (show_nat k "") rows) ≡ true
        → codes_from (k + 1) (values rows) < codes_from k (values rows)
    fewer e = taken-fewer k (values rows) (unfold get_by_short_code in e)

    absent : (o : Option Merchant) → is_some o ≡ false → o ≡ none
    absent none e = refl
    absent (some m) e = cc

length-values : (rows : Dict String Merchant) → length (values rows) ≡ length rows
unfolding values
length-values [] = refl
length-values (x ∷ rows) = ap suc (length-values rows)

-- The search for a free short code ends, from any candidate and whatever codes the merchants have: one
-- step more than there are merchants is enough, and the code it stops at is no merchant's.
pub first_free-stops :
    (candidate : ℕ) (rows : Dict String Merchant)
    → get_by_short_code (show_nat (first_free (suc (length rows)) candidate rows) "") rows ≡ none
first_free-stops candidate rows =
    search-ends (suc (length rows)) candidate rows
      (omega (arith, codes_from-le_length candidate (values rows), length-values rows))
