-- ===== src/Wiring.antt =====
-- backend/src/drc_pay_api/container.py: the choices of `build_container`, and the container's controls and
-- callback key. Whether the database answers, and the key that pawaPay's client fetches, are parameters.
use drc_pay.Base.{
  Bool, true, false, not, ◌&&◌, ◌||◌, Option, none, some, ◌==◌, string_eq, String, if◌then◌else◌,
  ◌⊎◌, inl, inr,
}

-- the arguments of `build_container`
pub record BuildSettings : Type 0 where
  pub database_url : String
  pub pawapay_base_url : String
  pub pawapay_api_token : String
  pub pawapay_public_key : String
  pub environment : String

-- the pawaPay client, which is the predictor and the poller too, or the simulator, which polls as well
pub data RailChoice : Type 0 where
  live_rail simulated_rail : RailChoice

pub data Persistence : Type 0 where
  in_database in_memory : Persistence

-- the `RuntimeError`s of `build_container`
pub data BuildError : Type 0 where
  database_unreachable no_database : BuildError

-- the container, as far as it was chosen
pub record Wiring : Type 0 where
  pub chosen_rail : RailChoice
  pub persistence : Persistence
  pub public_key : String
  pub wired_for : String

abbrev pub is_set : String → Bool
is_set s = not (s == "")

abbrev pub choose_rail : BuildSettings → RailChoice
choose_rail b =
    if is_set b.pawapay_base_url && is_set b.pawapay_api_token then live_rail else simulated_rail

abbrev pub choose_persistence : BuildSettings → Bool → BuildError ⊎ Persistence
choose_persistence b reachable =
    if is_set b.database_url
    then if reachable then inr in_database else inl database_unreachable
    else if not (b.environment == "local")
    then inl no_database
    else inr in_memory

-- `build_container`
unfoldable pub build_container : BuildSettings → Bool → BuildError ⊎ Wiring
build_container b reachable = elim (choose_persistence b reachable) [
  | inl e ↦ inl e
  | inr p ↦ inr (record {
    chosen_rail = choose_rail b;
    persistence = p;
    public_key = b.pawapay_public_key;
    wired_for = b.environment;
  })
]

abbrev pub is_simulated : RailChoice → Bool
is_simulated live_rail = false
is_simulated simulated_rail = true

-- `demo_controls_enabled`
unfoldable pub controls_enabled : Wiring → Bool
controls_enabled w = is_simulated w.chosen_rail || w.wired_for == "sandbox"

abbrev pub key_or_blank : Option String → String
key_or_blank none = ""
key_or_blank (some key) = key

-- `ensure_callback_public_key`
unfoldable pub ensure_callback_public_key : Option String → Wiring → Wiring
ensure_callback_public_key fetched w =
    if is_set w.public_key || is_simulated w.chosen_rail
    then w
    else record w { public_key = key_or_blank fetched }
