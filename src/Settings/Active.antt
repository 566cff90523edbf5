-- ===== src/Settings/Active.antt =====
-- src/hal/System/DppSettings.cpp, makeValid: the pins of a player with a bus.
use dream_pico_port.Prelude.{
  ℕ, ◌+◌, ◌^◌, ◌<◌, ◌≡◌, Bool, true, List, [], ◌∷◌, ◌++◌, Bool-cases, inl, inr, arith,
}
use dream_pico_port.Settings.{
  Player, is_set, unset, is_active, validate_gpio, validate_bus, make_dir_valid, make_bus_valid,
  make_active_valid,
}
use dream_pico_port.Settings.Pins.{
  player_pins, Fits, validate_refused, validate_fewer, validate_bus-Fits, validate_bus_fewer,
  make_mode_valid-pins, taken-Fits, refused-Fits,
}

module _ (num : ℕ) (small : num < 2 ^ 31) where
  -- A player with a bus, after its direction pin was checked.
  make_dir_valid-Fits :
      (disable_player : Bool) (used : List ℕ) (p : Player) (rest : List ℕ)
      → is_active p ≡ true
      → Fits num (make_dir_valid num disable_player used p).0 (p.gpio_a ∷ (p.gpio_a + 1) ∷ rest)
      → Fits num used (player_pins (make_dir_valid num disable_player used p).1 ++ rest)
  unfolding make_dir_valid
  make_dir_valid-Fits disable_player used p rest on f =
      elim (Bool-cases (validate_gpio num used p.gpio_dir).1) [
        | inl ok ↦ rw ok (taken-Fits num small used p rest on ok f)
        | inr bad ↦ rw bad (
            refused-Fits num small disable_player used p rest on
              (rw (validate_refused num small used p.gpio_dir bad).0 at f))
      ]

  make_dir_valid_bus :
      (disable_player : Bool) (used : List ℕ) (p : Player)
      → (make_dir_valid num disable_player used p).1.gpio_a ≡ p.gpio_a
  unfolding make_dir_valid
  make_dir_valid_bus disable_player used p = ground arith

  off_pins :
      (mode : ℕ) (p : Player)
      → player_pins (record p { gpio_a = unset; detection_mode = mode }) ≡ []
  off_pins mode p = ground arith

  dir_fewer :
      (disable_player : Bool) (used : List ℕ) (p : Player) (rest : List ℕ)
      → Fits num (make_dir_valid num disable_player used p).0 rest
      → Fits num used rest
  unfolding make_dir_valid
  dir_fewer disable_player used p rest f = validate_fewer num small used p.gpio_dir rest f

  pub make_active_valid-Fits :
      (disable_player : Bool) (used : List ℕ) (p : Player) (rest : List ℕ)
      → is_active p ≡ true
      → Fits num (make_active_valid num disable_player used p).0 rest
      → Fits num used (player_pins (make_active_valid num disable_player used p).1 ++ rest)
  unfolding make_active_valid make_bus_valid
  make_active_valid-Fits disable_player used p rest on f =
      let d = make_dir_valid num disable_player used p in
      let same = make_dir_valid_bus disable_player used p in
      let bus_set : is_set p.gpio_a ≡ true = ground (arith, on) in
      elim (Bool-cases (validate_bus num d.0 d.1.gpio_a).1) [
        | inl ok ↦
            rw (ok, make_mode_valid-pins num small d.1)
              (make_dir_valid-Fits disable_player used p rest on (
                validate_bus-Fits num small d.0 p.gpio_a rest bus_set (rw same at ok)
                  (rw same at f)))
        | inr bad ↦
            rw (bad, make_mode_valid-pins num small _, off_pins _ d.1)
              (dir_fewer disable_player used p rest
                (validate_bus_fewer num small d.0 d.1.gpio_a rest f))
      ]
