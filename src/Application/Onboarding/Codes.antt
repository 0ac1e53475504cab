-- ===== src/Application/Onboarding/Codes.antt =====
-- application/onboarding.py: the short code of a new merchant among those of the others.
use drc_pay.Dict.{Dict}
use drc_pay.Exec.{ok, Result}
use drc_pay.Merchants.{Merchant}
use drc_pay.Base.{string_eq, none, Option, some, String, ◌<◌, ◌≡◌, ◌⊎◌, ℕ}

-- The merchant's code is no number, or one below `k`.
abbrev pub IsBelow : (String → Result (Option ℕ)) → ℕ → Merchant → Type 0
IsBelow numeric k m =
    (numeric m.short_code ≡ ok none) ⊎ ((j : ℕ) × (numeric m.short_code ≡ ok (some j)) × (j < k))
