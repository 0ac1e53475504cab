-- ===== src/Ussd/Route.antt =====
-- backend/src/drc_pay_api/http/ussd_routes.py: the route of the USSD channel, from the body's checks to the
-- session. Two texts have the same bytes in UTF-8 exactly if they are the same.
use drc_pay.Ussd.{handle, end, rate_limited, UssdRequest, UssdResponse}
use drc_pay.Ussd.Limiter.{SlidingWindowLimiter, allow, valid_msisdn, valid_session_id, valid_text}
use drc_pay.Container.{Container, Stores}
use drc_pay.Transactions.Invariant.{IsConsistent}
use drc_pay.Ussd.Keeps.{KeepsWorld, handle-KeepsWorld}
use drc_pay.Dict.{lookup}
use drc_pay.Text.{codes}
use drc_pay.Exec.{Exec, Result, ok, err, http_exception}
use drc_pay.Base.{
  ℕ, ◌≡◌, refl, Bool, true, false, not, ◌&&◌, none, ◌==◌, string_eq, nat_eq, String, if◌then◌else◌,
  Bool-cases, inl, inr,
}
use Prim.Native.Char.{code}

-- `removeprefix("+")`
abbrev pub remove_plus : String → String
remove_plus String.[] = ""
remove_plus (String.◌∷◌ c s) = if code c == b'+' then s else String.◌∷◌ c s

-- `app.state.ussd_limiter` and the stores
pub record Channel (R : Type 0) : Type 0 where
  pub limiter : SlidingWindowLimiter
  pub stores : Stores R

-- the validators of `UssdHttpRequest`
abbrev pub valid_body : UssdRequest → Bool
valid_body r =
    valid_session_id (codes r.session_id)
    && valid_msisdn (codes r.msisdn)
    && valid_text (codes r.text)

abbrev pub canonical : UssdRequest → UssdRequest
canonical r = record r { msisdn = remove_plus r.msisdn }

-- the shared secret is not configured, or is the one supplied
abbrev pub secret_ok : String → String → Bool
secret_ok secret supplied = if secret == "" then true else supplied == secret

module _ {R : Type 0} (c : Container R) (uuid : String) where
  abbrev pub answered :
      UssdRequest → Bool × SlidingWindowLimiter → Stores R → Result UssdResponse × Channel R
  answered r (true, l) s =
      let (x, s') = handle c uuid r s in (x, record { limiter = l; stores = s' })
  answered r (false, l) s = (ok (end rate_limited), record { limiter = l; stores = s })

  -- `ussd`
  unfoldable pub ussd : String → String → ℕ → UssdRequest → Exec (Channel R) UssdResponse
  unfolding allow handle
  ussd secret supplied now r ch =
      if not (valid_body r)
      then (err (http_exception 422), ch)
      else if not (secret_ok secret supplied)
      then (err (http_exception 401), ch)
      else answered (canonical r) (allow (remove_plus r.msisdn) now ch.limiter) ch.stores

  answered-KeepsWorld :
      (r : UssdRequest) (x : Bool × SlidingWindowLimiter) (s : Stores R)
      → IsConsistent s.world
      → lookup uuid s.world.rows ≡ none
      → KeepsWorld s (answered r x s).1.stores
  answered-KeepsWorld r (true, l) s k m = handle-KeepsWorld c uuid r s k m
  answered-KeepsWorld r (false, l) s k m = (refl, refl, k)

  -- A request of the channel, refused, throttled or handled, under a fresh id in a consistent world,
  -- leaves a consistent world and the merchants and charges as they were.
  ussd-KeepsWorld :
      (secret supplied : String) (now : ℕ) (r : UssdRequest) (ch : Channel R)
      → IsConsistent ch.stores.world
      → lookup uuid ch.stores.world.rows ≡ none
      → KeepsWorld ch.stores (ussd secret supplied now r ch).1.stores
  unfolding ussd
  ussd-KeepsWorld secret supplied now r ch k m = elim (Bool-cases (valid_body r)) [
    | inr e ↦ rw e (refl, refl, k)
    | inl e ↦ elim (Bool-cases (secret_ok secret supplied)) [
      | inr f ↦ rw e (rw f (refl, refl, k))
      | inl f ↦ rw e (
          rw f (
            answered-KeepsWorld (canonical r) (allow (remove_plus r.msisdn) now ch.limiter)
              ch.stores k m))
    ]
  ]
