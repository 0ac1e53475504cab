-- ===== src/Ussd/Entries.antt =====
-- ussd/session.py: what the loops read of the entries.
use drc_pay.Dict.{Dict}
use drc_pay.Ledger.Money.{Money}
use drc_pay.Merchants.{get_by_short_code, is_active, Merchant}
use drc_pay.Ussd.{
  amount_read, amount_verdict, choice_verdict, got, max_attempts, miss, parse_amount, read_field,
  stop, take, till_found, till_verdict, Verdict,
}
use drc_pay.Base.{
  ◌≡◌, refl, ap, ◌∙◌, true, ◌⊎◌, inl, inr, none, some, Option, List, [], ◌∷◌, ◌++◌, ◌==◌, ◌+◌, ℕ,
  leb, string_eq, nat_eq, eq_iff, Bool-cases, String,
}
use mathlib.Core.Path.{subst}

Verdict-cases : {A : Type 0} (v : Verdict A) → ((a : A) × (v ≡ take a)) ⊎ ((v ≡ miss) ⊎ (v ≡ stop))
Verdict-cases (take a) = inl (a, refl)
Verdict-cases miss = inr (inl refl)
Verdict-cases stop = inr (inr refl)

-- What a loop has read is one of the entries, and those after it are left.
pub read_field-got :
    {A : Type 0} (verdict : String → Verdict A) (n : ℕ) (ps : List String) (a : A)
    (rest : List String)
    → read_field verdict n ps ≡ got a rest
    → (pre : List String) × (p : String) × (ps ≡ pre ++ p ∷ rest) × (verdict p ≡ take a)
unfolding read_field
read_field-got verdict n [] a rest h = cc
read_field-got verdict n (p ∷ ps) a rest h = elim (Verdict-cases (verdict p)) [
  | inl (b, e) ↦
      (let q : got b ps ≡ got a rest = rw (e, read_field) at h in
        ([], p, ap (λ l. p ∷ l) (cc), e ∙ ap take (cc)))
  | inr (inl e) ↦ elim (Bool-cases (leb max_attempts (n + 1))) [
    | inl many ↦ cc (rw many at (rw (e, read_field) at h))
    | inr few ↦
        (let (pre, q, order, v) =
            read_field-got verdict (n + 1) ps a rest (rw few at (rw (e, read_field) at h)) in
          (p ∷ pre, q, ap (λ l. p ∷ l) order, v))
  ]
  | inr (inr e) ↦ cc (rw (e, read_field) at h)
]

pub read_field-take :
    {A : Type 0} (verdict : String → Verdict A) (p : String) (ps : List String) (a : A)
    → verdict p ≡ take a
    → read_field verdict 0 (p ∷ ps) ≡ got a ps
unfolding read_field
read_field-take verdict p ps a h = rw (h, read_field) refl

pub till_taken :
    (merchants : Dict String Merchant) (p : String) (m : Merchant)
    → till_verdict merchants p ≡ take m
    → (get_by_short_code p merchants ≡ some m) × (is_active m ≡ true)
unfolding till_verdict
till_taken merchants p m h = of (get_by_short_code p merchants) h
  where
    of : (o : Option Merchant) → till_found o ≡ take m → (o ≡ some m) × (is_active m ≡ true)
    of none h = cc
    of (some x) h = elim (Bool-cases (is_active x)) [
      | inl e ↦
          (let q : take x ≡ take m = rw e at h in
            let q' : x ≡ m = cc in (ap some q', subst (λ y. is_active y ≡ true) q' e))
      | inr e ↦ cc (rw e at h)
    ]

pub amount_taken : (p : String) (a : Money) → amount_verdict p ≡ take a → parse_amount p ≡ some a
unfolding amount_verdict
amount_taken p a h = of (parse_amount p) h
  where
    of : (o : Option Money) → amount_read o ≡ take a → o ≡ some a
    of none h = cc
    of (some x) h = cc

pub choice_taken : (p : String) → choice_verdict p ≡ take true → p ≡ "1"
unfolding choice_verdict
choice_taken p h = elim (Bool-cases (p == "1")) [
  | inl e ↦ (eq_iff p "1").0 e
  | inr e ↦ elim (Bool-cases (p == "2")) [
    | inl f ↦ cc (rw f at (rw e at h))
    | inr f ↦ cc (rw f at (rw e at h))
  ]
]
