-- ===== src/SettingsCommands/Tests.antt =====
-- Commands from a web page, on a chip with 30 pins.
use dream_pico_port.Prelude.{
  ℕ, ◌≡◌, ap, refl, false, List, get_elem?, get_or, [], ◌∷◌, some, map, arith,
}
use dream_pico_port.SettingsCommands.{
  Processed, Response, validate_and_save, make_handler, process, perform_byte, perform, command_of,
  set_player_io, failed,
}
use dream_pico_port.SettingsCommands.Packing.{read_word, flip_word}
use dream_pico_port.SettingsCommands.Refusals.{is_refusal, process_refused}
use dream_pico_port.SettingsCommands.Written.{Event, receives, saves, step, run, run-make_handler}
use dream_pico_port.Settings.{
  DppSettings, Player, default_player, default_settings, unset, is_gpio_valid, is_gpio_number,
  make_valid, make_players_valid, validate_gpio, make_player_valid, make_active_valid,
  make_mode_valid, make_dir_valid, make_bus_valid, validate_bus,
}
use dream_pico_port.Settings.Validity.{IsValid}
use dream_pico_port.Settings.Layout.{to_memory, page_of, read_settings}
use dream_pico_port.Settings.Requests.{
  no_requests, request_save, process_save_requests, write_settings, save,
}

-- Player 0 is moved to pins 18 and 19, on which player 2 stands, and the settings are saved.
abbrev move_player : List ℕ
move_player = 0x49 ∷ 0 ∷ 0 ∷ 0 ∷ 0 ∷ 18 ∷ 255 ∷ 255 ∷ 255 ∷ 255 ∷ 0 ∷ []

abbrev moved : List Event
moved = receives move_player 10 ∷ receives (0x53 ∷ []) 20 ∷ saves 90 ∷ saves 200 ∷ []

-- No bus on pin 30.
abbrev bad_pin : List ℕ
bad_pin = 0x49 ∷ 0 ∷ 0 ∷ 0 ∷ 0 ∷ 30 ∷ 255 ∷ 255 ∷ 255 ∷ 255 ∷ 0 ∷ []

abbrev after_bad_pin : Processed
after_bad_pin = process 30 (make_handler default_settings) no_requests bad_pin 5

bad_pin_response : after_bad_pin.response ≡ failed 2
unfolding process perform_byte perform command_of set_player_io is_gpio_valid is_gpio_number
    read_word flip_word make_handler
bad_pin_response = refl

process_refused_example :
    (after_bad_pin.handler ≡ make_handler default_settings) × (after_bad_pin.requests ≡ no_requests)
process_refused_example =
    process_refused 30 (make_handler default_settings) no_requests bad_pin 5
      (ap (λ (x : Response). is_refusal x.response_cmd) bad_pin_response)

-- The pins of the handler after the move.
moved_pins :
    map
      (λ (p : Player). p.gpio_a)
      (process 30
        (make_handler default_settings)
        no_requests
        move_player
        10).handler.settings.players
    ≡ 18 ∷ 12 ∷ 18 ∷ 20 ∷ []
unfolding process perform_byte perform command_of set_player_io is_gpio_valid is_gpio_number
    read_word flip_word make_handler
moved_pins = refl

-- The settings that are written: player 2 has no bus any more.
abbrev saved_settings : DppSettings
saved_settings = record default_settings {
  players =
      record (default_player 18 unset) { gpio_dir_output_high = false }
      ∷ default_player 12 7
      ∷ default_player unset 26
      ∷ default_player 20 27
      ∷ [];
}

abbrev saved_word : ℕ → ℕ
saved_word i = get_or (page_of (to_memory saved_settings)) i 0

moved_written :
    get_elem? (run 30 (make_handler default_settings) no_requests moved).written 0
    ≡ some (some (to_memory saved_settings))
unfolding process perform_byte perform command_of set_player_io is_gpio_valid is_gpio_number
    read_word flip_word make_handler run step make_valid make_players_valid validate_gpio
    make_player_valid make_active_valid make_mode_valid make_dir_valid make_bus_valid validate_bus
    validate_and_save request_save process_save_requests write_settings save
moved_written = refl

run-make_handler_example :
    (s : DppSettings) × ((read_settings saved_word ≡ some s) × IsValid 30 false s)
run-make_handler_example =
    run-make_handler 30 (omega arith) default_settings moved 0 (to_memory saved_settings) saved_word
      (omega arith) moved_written (λ i h. refl)
