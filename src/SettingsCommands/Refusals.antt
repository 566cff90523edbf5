-- ===== src/SettingsCommands/Refusals.antt =====
-- src/hostLib/webusb_parsers/SettingsWebUsbCommandHandler.cpp: commands that are refused.
use dream_pico_port.Prelude.{
  ℕ, ◌≡◌, ◌≢◌, refl, Bool, true, false, not, ltb, leb, if◌then◌else◌, if_both, List, [], ◌∷◌,
  length, get_or, Option, none, some,
}
use dream_pico_port.SettingsCommands.{
  Processed, Handler, Command, ResponseCmd, success, attention, failure, cmd_invalid, get_loaded,
  get_local, set_cdc, set_msc, set_announce, set_mode, set_io, set_usb_led, set_simple_led,
  set_dpad_type, check_settings, save_settings, get_defaults, clear_settings, set_flag,
  set_player_mode, set_player_io, set_led, set_dpad, validate, validate_and_save, perform,
  perform_byte, process, command_of, num_dpad_types,
}
use dream_pico_port.SettingsCommands.Packing.{read_word}
use dream_pico_port.Settings.{
  DppSettings, make_valid, is_gpio_valid, num_players, num_player_detection_modes,
}
use dream_pico_port.Settings.Requests.{Requests}

abbrev pub is_refusal : ResponseCmd → Bool
is_refusal success = false
is_refusal attention = false
is_refusal failure = true
is_refusal cmd_invalid = true

accepted : (b : Bool) → is_refusal (if b then success else attention) ≢ true
accepted true e = cc
accepted false e = cc

module _ (num : ℕ) (h : Handler) (r : Requests) where
  abbrev pub IsUnchanged : Processed → Type 0
  IsUnchanged p = is_refusal p.response.response_cmd ≡ true → (p.handler ≡ h) × (p.requests ≡ r)

  same : {b : Bool} → b ≡ true → (h ≡ h) × (r ≡ r)
  same e = (refl, refl)

  set_flag-IsUnchanged :
      (with_flag : Bool → DppSettings) (bytes : List ℕ)
      → IsUnchanged (set_flag num h r with_flag bytes)
  unfolding set_flag
  set_flag-IsUnchanged with_flag bytes = if_both IsUnchanged (ltb (length bytes) 1) same (λ e. cc)

  set_player_mode-IsUnchanged : (bytes : List ℕ) → IsUnchanged (set_player_mode num h r bytes)
  unfolding set_player_mode
  set_player_mode-IsUnchanged bytes = if_both IsUnchanged (ltb (length bytes) 2) same (
      if_both IsUnchanged (leb num_players (get_or bytes 0 0)) same
        (if_both IsUnchanged (leb num_player_detection_modes (get_or bytes 1 0)) same (λ e. cc)))

  set_player_io-IsUnchanged : (bytes : List ℕ) → IsUnchanged (set_player_io num h r bytes)
  unfolding set_player_io
  set_player_io-IsUnchanged bytes = if_both IsUnchanged (ltb (length bytes) 10) same (
      if_both IsUnchanged (leb num_players (get_or bytes 0 0)) same (
        if_both IsUnchanged (not (is_gpio_valid num (read_word bytes 1))) same
          (if_both IsUnchanged (not (is_gpio_valid num (read_word bytes 5))) same (λ e. cc))))

  set_led-IsUnchanged :
      (with_led : ℕ → DppSettings) (bytes : List ℕ) → IsUnchanged (set_led num h r with_led bytes)
  unfolding set_led
  set_led-IsUnchanged with_led bytes =
      if_both IsUnchanged (ltb (length bytes) 4) same
        (if_both IsUnchanged (not (is_gpio_valid num (read_word bytes 0))) same (λ e. cc))

  set_dpad-IsUnchanged : (bytes : List ℕ) → IsUnchanged (set_dpad num h r bytes)
  unfolding set_dpad
  set_dpad-IsUnchanged bytes =
      if_both IsUnchanged (ltb (length bytes) 1) same
        (if_both IsUnchanged (leb num_dpad_types (get_or bytes 0 0)) same (λ e. cc))

  validate-IsUnchanged : IsUnchanged (validate num h r)
  unfolding validate
  validate-IsUnchanged e = absurd (accepted (make_valid num false h.settings).1 e)

  perform-IsUnchanged :
      (c : Command) (bytes : List ℕ) (now : ℕ) → IsUnchanged (perform num h r c bytes now)
  unfolding perform validate_and_save
  perform-IsUnchanged get_loaded bytes now = same
  perform-IsUnchanged get_local bytes now = same
  perform-IsUnchanged set_cdc bytes now =
      set_flag-IsUnchanged (λ b. record (h.settings) { cdc_en = b }) bytes
  perform-IsUnchanged set_msc bytes now =
      set_flag-IsUnchanged (λ b. record (h.settings) { msc_en = b }) bytes
  perform-IsUnchanged set_announce bytes now =
      set_flag-IsUnchanged (λ b. record (h.settings) { web_usb_announce_en = b }) bytes
  perform-IsUnchanged set_mode bytes now = set_player_mode-IsUnchanged bytes
  perform-IsUnchanged set_io bytes now = set_player_io-IsUnchanged bytes
  perform-IsUnchanged set_usb_led bytes now =
      set_led-IsUnchanged (λ io. record (h.settings) { usb_led_gpio = io }) bytes
  perform-IsUnchanged set_simple_led bytes now =
      set_led-IsUnchanged (λ io. record (h.settings) { simple_usb_led_gpio = io }) bytes
  perform-IsUnchanged set_dpad_type bytes now = set_dpad-IsUnchanged bytes
  perform-IsUnchanged check_settings bytes now = validate-IsUnchanged
  perform-IsUnchanged save_settings bytes now = λ e. cc
  perform-IsUnchanged get_defaults bytes now = same
  perform-IsUnchanged clear_settings bytes now = λ e. cc

  perform_byte-IsUnchanged :
      (c : Option Command) (bytes : List ℕ) (now : ℕ)
      → IsUnchanged (perform_byte num h r c bytes now)
  unfolding perform_byte
  perform_byte-IsUnchanged none bytes now = same
  perform_byte-IsUnchanged (some c) bytes now = perform-IsUnchanged c bytes now

  -- A payload that is answered with a failure or as an invalid command, at any length and with any
  -- bytes, leaves the settings of the handler and the requests to save as they were.
  pub process_refused :
      (bytes : List ℕ) (now : ℕ)
      → is_refusal (process num h r bytes now).response.response_cmd ≡ true
      → ((process num h r bytes now).handler ≡ h) × ((process num h r bytes now).requests ≡ r)
  unfolding process
  process_refused [] now = same
  process_refused (cmd ∷ bytes) now = perform_byte-IsUnchanged (command_of cmd) bytes now
