-- ===== src/SettingsCommands.antt =====
-- src/hostLib/webusb_parsers/SettingsWebUsbCommandHandler.cpp and .hpp: the commands by which a web page
-- reads and changes the settings. A payload is the list of its bytes.
pub mod Storable
pub mod Packing
pub mod Refusals
pub mod Saved
pub mod Written
pub mod Tests
use dream_pico_port.Prelude.{
  ℕ, ◌+◌, ◌*◌, ◌/◌, ◌%◌, ◌^◌, Bool, true, false, not, ◌==◌, ltb, leb, bit_and, bit_or, u8, u32,
  ◌<<<◌, ◌>>>◌, if◌then◌else◌, List, [], ◌∷◌, ◌++◌, map, length, get_or, set, Option, none, some,
}
use dream_pico_port.Prelude.Bits.{join_bytes}
use dream_pico_port.Settings.{
  DppSettings, Player, default_player, default_settings, num_players, num_player_detection_modes,
  is_gpio_valid, make_valid,
}
use dream_pico_port.Settings.Layout.{bool_byte}
use dream_pico_port.SettingsCommands.Packing.{pack_settings, read_word}
use dream_pico_port.Settings.Requests.{Requests, request_save, request_clear}

pub data ResponseCmd : Type 0 where
  success attention failure cmd_invalid : ResponseCmd

pub record Response : Type 0 where
  pub response_cmd : ResponseCmd
  pub payload : List ℕ

abbrev pub succeeded : Response
succeeded = record { response_cmd = success; payload = [] }

abbrev pub succeeded_with : List ℕ → Response
succeeded_with payload = record { response_cmd = success; payload = payload }

abbrev pub invalid : Response
invalid = record { response_cmd = cmd_invalid; payload = [] }

-- A failure with its reason.
abbrev pub failed : ℕ → Response
failed reason = record { response_cmd = failure; payload = reason ∷ [] }

abbrev pub num_dpad_types : ℕ
num_dpad_types = 3

abbrev pub save_delay_ms : ℕ
save_delay_ms = 100

pub record Handler : Type 0 where
  pub loaded_settings : DppSettings
  pub settings : DppSettings

unfoldable pub make_handler : DppSettings → Handler
make_handler loaded = record { loaded_settings = loaded; settings = loaded }

-- What a command leaves: the handler, the requests to save, and the response.
pub record Processed : Type 0 where
  pub handler : Handler
  pub requests : Requests
  pub response : Response

abbrev pub entry_or : List Player → ℕ → Player
entry_or players i = get_or players i (default_player 0 0)

-- The commands, by their bytes.
pub data Command : Type 0 where
  get_loaded get_local set_cdc set_msc set_announce set_mode set_io set_usb_led set_simple_led
        set_dpad_type check_settings save_settings get_defaults clear_settings :
      Command

unfoldable pub command_of : ℕ → Option Command
command_of cmd =
    if cmd == 0x47  -- G
    then some get_loaded
    else if cmd == 0x67  -- g
    then some get_local
    else if cmd == 0x43  -- C
    then some set_cdc
    else if cmd == 0x4D  -- M
    then some set_msc
    else if cmd == 0x57  -- W
    then some set_announce
    else if cmd == 0x50  -- P
    then some set_mode
    else if cmd == 0x49  -- I
    then some set_io
    else if cmd == 0x4C  -- L
    then some set_usb_led
    else if cmd == 0x6C  -- l
    then some set_simple_led
    else if cmd == 0x64  -- d
    then some set_dpad_type
    else if cmd == 0x73  -- s
    then some check_settings
    else if cmd == 0x53  -- S
    then some save_settings
    else if cmd == 0x78  -- x
    then some get_defaults
    else if cmd == 0x58  -- X
    then some clear_settings
    else none

module _ (num_bank0_gpios : ℕ) where
  module _ (h : Handler) (r : Requests) where
    abbrev pub answers : Response → Processed
    answers response = record { handler = h; requests = r; response = response }

    abbrev pub changes : DppSettings → Processed
    changes s = record { handler = record h { settings = s }; requests = r; response = succeeded }

    -- The case of a player's detection mode.
    unfoldable pub set_player_mode : List ℕ → Processed
    set_player_mode bytes =
        if ltb (length bytes) 2
        then answers (failed 0)
        else if leb num_players (get_or bytes 0 0)
        then answers (failed 1)
        else if leb num_player_detection_modes (get_or bytes 1 0)
        then answers (failed 2)
        else let i = get_or bytes 0 0 in
          let p = entry_or h.settings.players i in
          changes (record (h.settings) {
            players = set h.settings.players i (record p { detection_mode = get_or bytes 1 0 });
          })

    -- The cases of the three flags, `with_flag` for the one that is set.
    unfoldable pub set_flag : (Bool → DppSettings) → List ℕ → Processed
    set_flag with_flag bytes =
        if ltb (length bytes) 1
        then answers (failed 0)
        else changes (with_flag (not (get_or bytes 0 0 == 0)))

    -- The case of a player's pins.
    unfoldable pub set_player_io : List ℕ → Processed
    set_player_io bytes =
        let i = get_or bytes 0 0 in
        let gpio_a = read_word bytes 1 in
        let gpio_dir = read_word bytes 5 in
        if ltb (length bytes) 10
        then answers (failed 0)
        else if leb num_players i
        then answers (failed 1)
        else if not (is_gpio_valid num_bank0_gpios gpio_a)
        then answers (failed 2)
        else if not (is_gpio_valid num_bank0_gpios gpio_dir)
        then answers (failed 3)
        else changes (record (h.settings) {
          players = set h.settings.players i (record (entry_or h.settings.players i) {
            gpio_a = gpio_a;
            gpio_dir = gpio_dir;
            gpio_dir_output_high = not (get_or bytes 9 0 == 0);
          });
        })

    -- The cases of the two pins with a LED.
    unfoldable pub set_led : (ℕ → DppSettings) → List ℕ → Processed
    set_led with_led bytes =
        if ltb (length bytes) 4
        then answers (failed 0)
        else if not (is_gpio_valid num_bank0_gpios (read_word bytes 0))
        then answers (failed 1)
        else changes (with_led (read_word bytes 0))

    unfoldable pub set_dpad : List ℕ → Processed
    set_dpad bytes =
        if ltb (length bytes) 1
        then answers (failed 0)
        else if leb num_dpad_types (get_or bytes 0 0)
        then answers (failed 1)
        else changes (record (h.settings) { dpad_type = get_or bytes 0 0 })

    unfoldable pub validate : Processed
    validate =
        let v = make_valid num_bank0_gpios false h.settings in
        record {
          handler = record h { settings = v.0 };
          requests = r;
          response = record {
            response_cmd = if v.1 then success else attention;
            payload = pack_settings v.0;
          };
        }

    unfoldable pub validate_and_save : ℕ → Processed
    validate_and_save now =
        let v = make_valid num_bank0_gpios false h.settings in
        record {
          handler = record h { settings = v.0 };
          requests = request_save r v.0 save_delay_ms now;
          response = record {
            response_cmd = success;
            payload = if v.1 then [] else pack_settings v.0;
          };
        }

    -- The cases of the switch.
    unfoldable pub perform : Command → List ℕ → ℕ → Processed
    unfolding set_flag set_player_mode set_player_io set_led set_dpad validate validate_and_save
    perform get_loaded bytes now = answers (succeeded_with (pack_settings h.loaded_settings))
    perform get_local bytes now = answers (succeeded_with (pack_settings h.settings))
    perform set_cdc bytes now = set_flag (λ b. record (h.settings) { cdc_en = b }) bytes
    perform set_msc bytes now = set_flag (λ b. record (h.settings) { msc_en = b }) bytes
    perform set_announce bytes now =
        set_flag (λ b. record (h.settings) { web_usb_announce_en = b }) bytes
    perform set_mode bytes now = set_player_mode bytes
    perform set_io bytes now = set_player_io bytes
    perform set_usb_led bytes now = set_led (λ io. record (h.settings) { usb_led_gpio = io }) bytes
    perform set_simple_led bytes now =
        set_led (λ io. record (h.settings) { simple_usb_led_gpio = io }) bytes
    perform set_dpad_type bytes now = set_dpad bytes
    perform check_settings bytes now = validate
    perform save_settings bytes now = validate_and_save now
    perform get_defaults bytes now = answers (succeeded_with (pack_settings default_settings))
    perform clear_settings bytes now = record {
      handler = h;
      requests = request_clear r save_delay_ms now;
      response = succeeded_with (pack_settings default_settings);
    }

    unfoldable pub perform_byte : Option Command → List ℕ → ℕ → Processed
    unfolding perform
    perform_byte none bytes now = answers invalid
    perform_byte (some command) bytes now = perform command bytes now

    unfoldable pub process : List ℕ → ℕ → Processed
    unfolding perform_byte
    process [] now = answers invalid
    process (cmd ∷ bytes) now = perform_byte (command_of cmd) bytes now
