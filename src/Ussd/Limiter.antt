-- ===== src/Ussd/Limiter.antt =====
-- backend/src/drc_pay_api/http/ussd_routes.py: the checks before a USSD request is handled, and the
-- limit on requests of one number over a window of time, in microseconds.
use drc_pay.Ledger.Amounts.{all_digits}
use drc_pay.Dict.{insert, lookup, Dict}
use drc_pay.Base.{
  length-append, inr, inl, ◌≤◌, Bool-cases, arith, ⊤, ◌++◌, false, none, nat_eq, string_eq, ◌&&◌,
  ◌+◌, length, ◌==◌, leb, some, true, ltb, [], ◌∷◌, if◌then◌else◌, Bool, List, String, Option, ℕ,
}

-- _SWEEP_EVERY
abbrev pub sweep_every : ℕ
sweep_every = 1024

-- `SlidingWindowLimiter`; a key's hits are in the order of their times
pub record SlidingWindowLimiter : Type 0 where
  pub limit : ℕ
  pub window : ℕ
  pub hits : Dict String (List ℕ)
  pub ops_since_sweep : ℕ

-- `now - hit > self._window`
abbrev pub aged : ℕ → ℕ → ℕ → Bool
aged now window hit = ltb (hit + window) now

abbrev pub is_stale : ℕ → ℕ → List ℕ → Bool
is_stale now window [] = true
is_stale now window (h ∷ []) = aged now window h
is_stale now window (h ∷ k ∷ hs) = is_stale now window (k ∷ hs)

unfoldable pub drop_stale : ℕ → ℕ → Dict String (List ℕ) → Dict String (List ℕ)
drop_stale now window [] = []
drop_stale now window ((k, hs) ∷ d) =
    let rest = drop_stale now window d in if is_stale now window hs then rest else (k, hs) ∷ rest

-- `_sweep_if_due`
unfoldable pub sweep_if_due : ℕ → SlidingWindowLimiter → SlidingWindowLimiter
unfolding drop_stale
sweep_if_due now l =
    if ltb (l.ops_since_sweep + 1) sweep_every
    then record l { ops_since_sweep = l.ops_since_sweep + 1 }
    else record l { ops_since_sweep = 0; hits = drop_stale now l.window l.hits }

-- `while hits and now - hits[0] > self._window: hits.popleft()`
unfoldable pub pop_aged : ℕ → ℕ → List ℕ → List ℕ
pop_aged now window [] = []
pop_aged now window (h ∷ hs) =
    let rest = pop_aged now window hs in if aged now window h then rest else h ∷ hs

abbrev pub hits_of : Option (List ℕ) → List ℕ
hits_of none = []
hits_of (some hs) = hs

abbrev pub admit : String → ℕ → List ℕ → SlidingWindowLimiter → Bool × SlidingWindowLimiter
admit key now hs l =
    if leb l.limit (length hs)
    then (false, record l { hits = insert key hs l.hits })
    else (true, record l { hits = insert key (hs ++ now ∷ []) l.hits })

-- `allow`
unfoldable pub allow : String → ℕ → SlidingWindowLimiter → Bool × SlidingWindowLimiter
unfolding sweep_if_due pop_aged
allow key now l =
    let l' = sweep_if_due now l in
    admit key now (pop_aged now l'.window (hits_of (lookup key l'.hits))) l'

abbrev pub drop_plus : List ℕ → List ℕ
drop_plus [] = []
drop_plus (c ∷ s) = if c == b'+' then s else c ∷ s

-- `_MSISDN_RE.fullmatch`
unfoldable pub valid_msisdn : List ℕ → Bool
valid_msisdn s =
    all_digits (drop_plus s) && leb 6 (length (drop_plus s)) && leb (length (drop_plus s)) 15

-- `_valid_session_id`; and `max_length` of the text
unfoldable pub valid_session_id : List ℕ → Bool
valid_session_id s = leb 1 (length s) && leb (length s) 128

unfoldable pub valid_text : List ℕ → Bool
valid_text s = leb (length s) 512

abbrev pub IsBounded : ℕ → Dict String (List ℕ) → Type 0
IsBounded limit [] = ⊤
IsBounded limit ((_, hs) ∷ d) = (length hs ≤ limit) × IsBounded limit d

drop_stale-IsBounded :
    (limit now window : ℕ) (d : Dict String (List ℕ))
    → IsBounded limit d
    → IsBounded limit (drop_stale now window d)
unfolding drop_stale
drop_stale-IsBounded limit now window [] h = h
drop_stale-IsBounded limit now window ((k, hs) ∷ d) h =
    ground (arith, drop_stale-IsBounded limit now window d)

length-pop_aged : (now window : ℕ) (hs : List ℕ) → length (pop_aged now window hs) ≤ length hs
unfolding pop_aged
length-pop_aged now window [] = omega arith
length-pop_aged now window (h ∷ hs) = ground (arith, length-pop_aged now window hs)

lookup-IsBounded :
    (limit : ℕ) (key : String) (d : Dict String (List ℕ))
    → IsBounded limit d
    → length (hits_of (lookup key d)) ≤ limit
unfolding lookup
lookup-IsBounded limit key [] h = omega arith
lookup-IsBounded limit key ((k, hs) ∷ d) h = ground (arith, lookup-IsBounded limit key d)

insert-IsBounded :
    (limit : ℕ) (key : String) (hs : List ℕ) (d : Dict String (List ℕ))
    → length hs ≤ limit
    → IsBounded limit d
    → IsBounded limit (insert key hs d)
unfolding insert
insert-IsBounded limit key hs [] b h = (b, tt)
insert-IsBounded limit key hs ((k, x) ∷ d) b h = ground (arith, insert-IsBounded limit key hs d)

-- No number ever has more recorded hits than the limit.
abbrev pub IsLimited : SlidingWindowLimiter → Type 0
IsLimited l = IsBounded l.limit l.hits

sweep_if_due-IsLimited :
    (now : ℕ) (l : SlidingWindowLimiter) → IsLimited l → IsLimited (sweep_if_due now l)
unfolding sweep_if_due
sweep_if_due-IsLimited now l h = elim (Bool-cases (ltb (l.ops_since_sweep + 1) sweep_every)) [
  | inl p ↦ rw p h
  | inr p ↦ rw p (drop_stale-IsBounded l.limit now l.window l.hits h)
]

admit-IsLimited :
    (key : String) (now : ℕ) (hs : List ℕ) (l : SlidingWindowLimiter)
    → length hs ≤ l.limit
    → IsLimited l
    → IsLimited (admit key now hs l).1
admit-IsLimited key now hs l b h = elim (Bool-cases (leb l.limit (length hs))) [
  | inl p ↦ rw p (insert-IsBounded l.limit key hs l.hits b h)
  | inr p ↦ rw p (
      insert-IsBounded l.limit key (hs ++ now ∷ []) l.hits
        (ground (arith, length-append hs (now ∷ []))) h)
]

-- A request of any number at any time leaves the limiter with no more than the limit of recorded hits
-- for every number.
pub allow-IsLimited :
    (key : String) (now : ℕ) (l : SlidingWindowLimiter)
    → IsLimited l
    → IsLimited (allow key now l).1
unfolding allow
allow-IsLimited key now l h =
    let l' : SlidingWindowLimiter = sweep_if_due now l in
    let h' : IsLimited l' = sweep_if_due-IsLimited now l h in
    let b : length (hits_of (lookup key l'.hits)) ≤ l'.limit = limited l' h' in
    admit-IsLimited key now (pop_aged now l'.window (hits_of (lookup key l'.hits))) l'
      (omega (arith, length-pop_aged now l'.window (hits_of (lookup key l'.hits)))) h'
  where
    limited :
        (l' : SlidingWindowLimiter)
        → IsLimited l'
        → length (hits_of (lookup key l'.hits)) ≤ l'.limit
    limited l' h' = lookup-IsBounded l'.limit key l'.hits (h')
