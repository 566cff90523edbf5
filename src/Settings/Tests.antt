-- ===== src/Settings/Tests.antt =====
-- Settings on a chip with 30 pins.
use dream_pico_port.Prelude.{
  ℕ, ◌≡◌, ◌≢◌, ◌↔◌, refl, true, false, ◌==◌, if◌then◌else◌, List, [], ◌∷◌, get_or, some, none,
  arith,
}
use dream_pico_port.Settings.{
  DppSettings, default_player, default_settings, unset, make_valid, make_players_valid,
  validate_gpio, make_player_valid, make_active_valid, make_mode_valid, make_dir_valid,
  make_bus_valid, validate_bus,
}
use dream_pico_port.Settings.Validity.{IsValid}
use dream_pico_port.Settings.Checked.{make_valid-IsValid, make_valid_iff}
use dream_pico_port.Settings.Layout.{
  memory_words, is_memory_valid, to_memory, page_of, read_settings, initialize,
}
use dream_pico_port.Settings.RoundTrip.{IsStorable, read_settings-to_memory}
use dream_pico_port.Settings.Damage.{read_settings-damaged}
use dream_pico_port.Settings.Requests.{no_requests, request_save, request_clear}
use dream_pico_port.Settings.Saves.{
  Call, saves, processes, do_all, any_due, erasures, do_all-request,
}

-- The LED stands on a bus of a player, and another player's pins do not exist.
abbrev crossed : DppSettings
crossed = record default_settings {
  players =
      default_player 10 6 ∷ default_player 12 7 ∷ default_player 24 26 ∷ default_player 29 27 ∷ [];
}

crossed_made_valid : make_valid 30 false crossed ≡ (
  record crossed {
    players =
        default_player 10 6
        ∷ default_player 12 7
        ∷ default_player unset 26
        ∷ default_player unset 27
        ∷ [];
  },
  false,
)
unfolding make_valid make_players_valid validate_gpio make_player_valid make_active_valid
    make_mode_valid make_dir_valid make_bus_valid validate_bus
crossed_made_valid = refl

make_valid-IsValid_example : IsValid 30 true (make_valid 30 true crossed).0
make_valid-IsValid_example = make_valid-IsValid 30 (omega arith) true crossed

make_valid_iff_example :
    (((make_valid 30 true crossed).1 ≡ true) ↔ IsValid 30 true crossed)
    × (IsValid 30 true crossed → (make_valid 30 true crossed).0 ≡ crossed)
make_valid_iff_example = make_valid_iff 30 (omega arith) true crossed

abbrev saved_words : ℕ → ℕ
saved_words i = get_or (page_of (to_memory default_settings)) i 0

default_settings-IsStorable : IsStorable default_settings
default_settings-IsStorable = omega arith

read_settings-to_memory_example : read_settings saved_words ≡ some default_settings
read_settings-to_memory_example =
    read_settings-to_memory default_settings saved_words (λ i h. refl) default_settings-IsStorable

-- Flash that was never written.
erased_read : initialize (λ i. 0xFFFFFFFF) ≡ default_settings
unfolding initialize read_settings is_memory_valid
erased_read = refl

abbrev damaged_words : ℕ → ℕ
damaged_words i = if i == 14 then 26 else saved_words i

damaged_elsewhere : (i : ℕ) → i ≢ 14 → damaged_words i ≡ saved_words i
damaged_elsewhere i h = ground (arith, h)

led_damaged : damaged_words 14 ≢ saved_words 14
unfolding page_of memory_words to_memory
led_damaged e = omega (arith, e)

read_settings-damaged_example : read_settings damaged_words ≡ none
read_settings-damaged_example =
    read_settings-damaged default_settings saved_words damaged_words 14 (λ i h. refl) (omega arith)
      (omega arith) damaged_elsewhere led_damaged

abbrev calls : List Call
calls = processes 40 ∷ saves crossed 0 60 ∷ processes 150 ∷ processes 160 ∷ []

do_all-request_example :
    ((do_all (request_save no_requests default_settings 100 20) calls).1
      ≡ (if any_due 100 20 calls then some (to_memory default_settings) ∷ [] else []))
    × ((do_all (request_clear no_requests 100 20) calls).1 ≡ erasures 100 20 calls)
do_all-request_example = do_all-request no_requests default_settings 100 20 calls refl refl
