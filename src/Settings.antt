-- ===== src/Settings.antt =====
-- inc/hal/System/DppSettings.hpp and src/hal/System/DppSettings.cpp: the settings, and how they are
-- made valid. An int32_t is its bit pattern. The four arrays with an entry for each player are one
-- list of players. NUM_BANK0_GPIOS, of the Pico SDK, is a parameter.
pub mod Layout
pub mod Requests
pub mod Saves
pub mod Active
pub mod Pins
pub mod Validity
pub mod Checked
pub mod Crc
pub mod Fields
pub mod RoundTrip
pub mod Damage
pub mod Tests
use dream_pico_port.Prelude.{
  ℕ, ◌+◌, ◌^◌, Bool, true, false, not, ◌&&◌, ◌||◌, ◌==◌, ltb, leb, u32, if◌then◌else◌, List, [],
  ◌∷◌,
}

abbrev pub num_players : ℕ
num_players = 4

-- PlayerDetectionMode
abbrev pub mode_disable : ℕ
mode_disable = 0

abbrev pub mode_auto_static : ℕ
mode_auto_static = 2

abbrev pub mode_auto_dynamic_no_disable : ℕ
mode_auto_dynamic_no_disable = 4

abbrev pub num_player_detection_modes : ℕ
num_player_detection_modes = 5

-- -1 as an int32_t
abbrev pub unset : ℕ
unset = 0xFFFFFFFF

-- An int32_t that is not negative.
abbrev pub is_set : ℕ → Bool
is_set io = ltb io (2 ^ 31)

pub record Player : Type 0 where
  pub detection_mode : ℕ
  pub gpio_a : ℕ
  pub gpio_dir : ℕ
  pub gpio_dir_output_high : Bool

pub record DppSettings : Type 0 where
  pub cdc_en : Bool
  pub msc_en : Bool
  pub web_usb_announce_en : Bool
  pub players : List Player
  pub usb_led_gpio : ℕ
  pub simple_usb_led_gpio : ℕ
  pub dpad_type : ℕ

-- A player by default, on its pins.
abbrev pub default_player : ℕ → ℕ → Player
default_player bus_start dir = record {
  detection_mode = mode_auto_static;
  gpio_a = bus_start;
  gpio_dir = dir;
  gpio_dir_output_high = true;
}

-- With the pins of configuration.h.
abbrev pub default_settings : DppSettings
default_settings = record {
  cdc_en = true;
  msc_en = false;
  web_usb_announce_en = true;
  players =
      default_player 10 6 ∷ default_player 12 7 ∷ default_player 18 26 ∷ default_player 20 27 ∷ [];
  usb_led_gpio = 25;
  simple_usb_led_gpio = unset;
  dpad_type = 0;
}

abbrev pub is_used : List ℕ → ℕ → Bool
is_used [] x = false
is_used (y ∷ ys) x = x == y || is_used ys x

-- A player whose pin is refused is disabled on request.
abbrev pub refused_mode : Bool → ℕ → ℕ
refused_mode disable_player mode = if disable_player then mode_disable else mode

unfoldable pub disable_without_bus : List Player → List Player × Bool
disable_without_bus [] = ([], true)
disable_without_bus (p ∷ players) =
    let rest = disable_without_bus players in
    if not (is_set p.gpio_a) && not (p.detection_mode == mode_disable)
    then (record p { detection_mode = mode_disable } ∷ rest.0, false)
    else (p ∷ rest.0, rest.1)

unfoldable pub make_mode_valid : Player → Player × Bool
make_mode_valid p =
    if leb num_player_detection_modes p.detection_mode
    then (record p { detection_mode = mode_auto_dynamic_no_disable }, false)
    else (p, true)

abbrev pub is_active : Player → Bool
is_active p = not (p.detection_mode == mode_disable) && is_set p.gpio_a

module _ (num_bank0_gpios : ℕ) where
  -- isGpioValid of an unsigned number, and of a signed one.
  unfoldable pub is_gpio_number : ℕ → Bool
  is_gpio_number gpio = not (leb num_bank0_gpios gpio)

  unfoldable pub is_gpio_valid : ℕ → Bool
  is_gpio_valid gpio = if not (is_set gpio) then true else is_gpio_number gpio

  -- validate_gpio of an unsigned number, with the set of the pins in use, and of a signed one.
  unfoldable pub validate_number : List ℕ → ℕ → List ℕ × Bool
  unfolding is_gpio_number
  validate_number used io =
      if not (is_gpio_number io)
      then (used, false)
      else if is_used used io
      then (used, false)
      else (io ∷ used, true)

  unfoldable pub validate_gpio : List ℕ → ℕ → List ℕ × Bool
  unfolding validate_number
  validate_gpio used io = if is_set io then validate_number used io else (used, true)

  -- `||` does not try the second pin if the first is refused.
  unfoldable pub validate_bus : List ℕ → ℕ → List ℕ × Bool
  validate_bus used gpio_a =
      let a = validate_gpio used gpio_a in
      if a.1 then validate_gpio a.0 (u32 (gpio_a + 1)) else (a.0, false)

  unfoldable pub make_dir_valid : Bool → List ℕ → Player → List ℕ × Player × Bool
  make_dir_valid disable_player used p =
      let v = validate_gpio used p.gpio_dir in
      (
        v.0,
        if v.1 then p else record p {
          gpio_dir = unset;
          detection_mode = refused_mode disable_player p.detection_mode;
        },
        v.1,
      )

  unfoldable pub make_bus_valid : Bool → List ℕ → Player → List ℕ × Player × Bool
  make_bus_valid disable_player used p =
      let v = validate_bus used p.gpio_a in
      (
        v.0,
        if v.1 then p else record p {
          gpio_a = unset;
          detection_mode = refused_mode disable_player p.detection_mode;
        },
        v.1,
      )

  -- One round of the loop over overlapping pins, for a player with a bus.
  unfoldable pub make_active_valid : Bool → List ℕ → Player → List ℕ × Player × Bool
  make_active_valid disable_player used p =
      let d = make_dir_valid disable_player used p in
      let b = make_bus_valid disable_player d.0 d.1 in
      let m = make_mode_valid b.1 in (b.0, m.0, d.2 && b.2 && m.1)

  unfoldable pub make_player_valid : Bool → List ℕ → Player → List ℕ × Player × Bool
  make_player_valid disable_player used p =
      if is_active p then make_active_valid disable_player used p else (used, p, true)

  unfoldable pub make_players_valid : Bool → List ℕ → List Player → List Player × Bool
  make_players_valid disable_player used [] = ([], true)
  make_players_valid disable_player used (p ∷ players) =
      let v = make_player_valid disable_player used p in
      let rest = make_players_valid disable_player v.0 players in (v.1 ∷ rest.0, v.2 && rest.1)

  unfoldable pub make_valid : Bool → DppSettings → DppSettings × Bool
  make_valid disable_player s =
      let led = validate_gpio [] s.usb_led_gpio in
      let simple = validate_gpio led.0 s.simple_usb_led_gpio in
      let enabled = if disable_player then disable_without_bus s.players else (s.players, true) in
      let players = make_players_valid disable_player simple.0 enabled.0 in
      (
        record s {
          usb_led_gpio = if led.1 then s.usb_led_gpio else unset;
          simple_usb_led_gpio = if simple.1 then s.simple_usb_led_gpio else unset;
          players = players.0;
        },
        led.1 && simple.1 && enabled.1 && players.1,
      )
