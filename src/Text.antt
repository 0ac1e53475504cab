-- ===== src/Text.antt =====
-- Texts as the program reads and writes them: code points, Python's `split`, `strip` and decimal
-- digits.
pub mod Digits
use drc_pay.Int.{negsuc, pos, ℤ}
use Prim.Native.Char.{Char, code}
use drc_pay.Base.{
  ℕ, ◌+◌, ◌-◌, ◌*◌, ◌/◌, ◌%◌, suc, zero, String, Bool, true, false, ◌&&◌, ◌||◌, List, [], ◌∷◌, leb,
  ltb, ◌==◌, nat_eq, string_eq, if◌then◌else◌, not, filter,
}

abbrev pub codes : String → List ℕ
codes String.[] = []
codes (String.◌∷◌ c s) = code c ∷ codes s

-- a character put before the first of the parts
abbrev pub push : Char → List String → List String
push c [] = String.◌∷◌ c String.[] ∷ []
push c (p ∷ ps) = String.◌∷◌ c p ∷ ps

-- `text.split("*")`
unfoldable pub split_star : String → List String
split_star String.[] = "" ∷ []
split_star (String.◌∷◌ c s) =
    let rest = split_star s in if code c == b'*' then "" ∷ rest else push c rest

-- `[p for p in text.split("*") if p]`
unfoldable pub parts : String → List String
unfolding split_star
parts text = filter (λ p. not (p == "")) (split_star text)

-- the characters that `strip` takes off
abbrev pub is_space : ℕ → Bool
is_space c =
    (leb 9 c && leb c 13)
    || (leb 28 c && leb c 32)
    || c == 0x85
    || c == 0xa0
    || c == 0x1680
    || (leb 0x2000 c && leb c 0x200a)
    || c == 0x2028
    || c == 0x2029
    || c == 0x202f
    || c == 0x205f
    || c == 0x3000

unfoldable pub lstrip : List ℕ → List ℕ
lstrip [] = []
lstrip (c ∷ s) = let rest = lstrip s in if is_space c then rest else c ∷ s

abbrev pub is_empty : List ℕ → Bool
is_empty [] = true
is_empty (_ ∷ _) = false

unfoldable pub rstrip : List ℕ → List ℕ
rstrip [] = []
rstrip (c ∷ s) = let rest = rstrip s in if is_space c && is_empty rest then [] else c ∷ rest

abbrev pub strip : List ℕ → List ℕ
strip s = rstrip (lstrip s)

-- `[0-9]`
abbrev pub is_digit : ℕ → Bool
is_digit c = leb b'0' c && leb c b'9'

-- the number that digits after `n` stand for
unfoldable pub read_digits : ℕ → List ℕ → ℕ
read_digits n [] = n
read_digits n (c ∷ s) = read_digits (10 * n + (c - b'0')) s

abbrev pub digit_char : ℕ → Char
digit_char zero = "0"
digit_char (suc zero) = "1"
digit_char (suc (suc zero)) = "2"
digit_char (suc (suc (suc zero))) = "3"
digit_char (suc (suc (suc (suc zero)))) = "4"
digit_char (suc (suc (suc (suc (suc zero))))) = "5"
digit_char (suc (suc (suc (suc (suc (suc zero)))))) = "6"
digit_char (suc (suc (suc (suc (suc (suc (suc zero))))))) = "7"
digit_char (suc (suc (suc (suc (suc (suc (suc (suc zero)))))))) = "8"
digit_char _ = "9"

-- the decimal digits of `n`, before `tail`, on fuel
unfoldable pub digits : ℕ → ℕ → String → String
digits zero n tail = tail
digits (suc f) n tail =
    let rest = digits f (n / 10) (String.◌∷◌ (digit_char (n % 10)) tail) in
    if ltb n 10 then String.◌∷◌ (digit_char n) tail else rest

-- `str(n)`, before `tail`
unfoldable pub show_nat : ℕ → String → String
unfolding digits
show_nat n tail = digits (suc n) n tail

-- `str` of an integer
unfoldable pub show_int : ℤ → String
unfolding show_nat
show_int (pos n) = show_nat n ""
show_int (negsuc n) = String.◌∷◌ "-" (show_nat (suc n) "")
