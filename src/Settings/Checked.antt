-- ===== src/Settings/Checked.antt =====
-- src/hal/System/DppSettings.cpp, makeValid as a whole.
use dream_pico_port.Prelude.{
  ℕ, ◌^◌, ◌<◌, ◌≡◌, ◌↔◌, refl, ap, subst, ◌∙◌, Bool, true, false, if◌then◌else◌, List, [], ◌∷◌, All,
  arith,
}
use dream_pico_port.Settings.{
  Player, DppSettings, is_used, validate_gpio, make_players_valid, disable_without_bus, make_valid,
}
use dream_pico_port.Settings.Pins.{pins, Fits, validate-Fits, validate_takes_pin}
use dream_pico_port.Settings.Validity.{
  IsValid, IsEnabled, player_fits, Fits-iff, make_players_valid-Fits, make_players_valid_same,
  make_players_valid_unchanged, make_players_valid_fit,
}

disable_without_bus-IsEnabled : (ps : List Player) → All (IsEnabled true) (disable_without_bus ps).0
unfolding disable_without_bus
disable_without_bus-IsEnabled [] = tt
disable_without_bus-IsEnabled (p ∷ ps) = ground (arith, disable_without_bus-IsEnabled ps)

disable_without_bus_same :
    (ps : List Player) → (disable_without_bus ps).1 ≡ true → (disable_without_bus ps).0 ≡ ps
unfolding disable_without_bus
disable_without_bus_same [] h = refl
disable_without_bus_same (p ∷ ps) h = ground (arith, disable_without_bus_same ps)

disable_without_bus_fits :
    (ps : List Player)
    → All (λ p. player_fits true p ≡ true) ps
    → disable_without_bus ps ≡ (ps, true)
unfolding disable_without_bus
disable_without_bus_fits [] fit = refl
disable_without_bus_fits (p ∷ ps) fit =
    rw (disable_without_bus_fits ps fit.1) (ground (arith, fit.0))

-- The list of players that the second loop gets.
abbrev enabled : Bool → List Player → List Player × Bool
enabled disable_player ps = if disable_player then disable_without_bus ps else (ps, true)

enabled-IsEnabled :
    (disable_player : Bool) (ps : List Player)
    → All (IsEnabled disable_player) (enabled disable_player ps).0
enabled-IsEnabled true ps = disable_without_bus-IsEnabled ps
enabled-IsEnabled false [] = tt
enabled-IsEnabled false (p ∷ ps) = (refl, enabled-IsEnabled false ps)

enabled_same :
    (disable_player : Bool) (ps : List Player)
    → (enabled disable_player ps).1 ≡ true
    → (enabled disable_player ps).0 ≡ ps
enabled_same true ps h = disable_without_bus_same ps h
enabled_same false ps h = refl

enabled_fits :
    (disable_player : Bool) (ps : List Player)
    → All (λ p. player_fits disable_player p ≡ true) ps
    → enabled disable_player ps ≡ (ps, true)
enabled_fits true ps fit = disable_without_bus_fits ps fit
enabled_fits false ps fit = refl

All_always : (xs : List ℕ) → All (λ (io : ℕ). is_used [] io ≡ false) xs
All_always [] = tt
All_always (x ∷ xs) = (refl, All_always xs)

module _ (num : ℕ) (small : num < 2 ^ 31) (disable_player : Bool) (s : DppSettings) where
  make_valid-Fits : Fits num [] (pins (make_valid num disable_player s).0)
  unfolding make_valid
  make_valid-Fits =
      let led = validate_gpio num [] s.usb_led_gpio in
      let simple = validate_gpio num led.0 s.simple_usb_led_gpio in
      validate-Fits num small [] s.usb_led_gpio _ (
        validate-Fits num small led.0 s.simple_usb_led_gpio _ (
          make_players_valid-Fits num small disable_player simple.0
            (enabled disable_player s.players).0))

  -- Whatever the settings, those that `make_valid` leaves use only pins that exist, each of them once,
  -- and let no player with a bus have a mode that does not exist; with players on bad pins to be
  -- disabled, every player that is left without a bus is disabled.
  pub make_valid-IsValid : IsValid num disable_player (make_valid num disable_player s).0
  unfolding make_valid
  make_valid-IsValid =
      let (within, distinct, unused) = (Fits-iff num [] _).0 make_valid-Fits in
      record {
        fit =
            make_players_valid_fit num small disable_player _ _
              (enabled-IsEnabled disable_player s.players);
        exist = within;
        distinct = distinct;
      }

  valid_unchanged : IsValid num disable_player s → make_valid num disable_player s ≡ (s, true)
  unfolding make_valid
  valid_unchanged v =
      let none_used : All (λ io. is_used [] io ≡ false) (pins s) = All_always (pins s) in
      let f = (Fits-iff num [] (pins s)).1 (v.exist, v.distinct, none_used) in
      let led = validate_gpio num [] s.usb_led_gpio in
      let simple = validate_gpio num led.0 s.simple_usb_led_gpio in
      let (led_ok, after) = validate_takes_pin num small [] s.usb_led_gpio _ f in
      let (simple_ok, others) = validate_takes_pin num small led.0 s.simple_usb_led_gpio _ after in
      let (same, ok) =
        make_players_valid_unchanged num small disable_player simple.0 s.players v.fit others in
      rw (led_ok, simple_ok, enabled_fits disable_player s.players v.fit, ok)
        (λ i. (record s { players = same i }, true))

  true_unchanged :
      (make_valid num disable_player s).1 ≡ true → (make_valid num disable_player s).0 ≡ s
  unfolding make_valid
  true_unchanged h =
      let led = validate_gpio num [] s.usb_led_gpio in
      let simple = validate_gpio num led.0 s.simple_usb_led_gpio in
      let led_ok : led.1 ≡ true = ground (arith, h) in
      let simple_ok : simple.1 ≡ true = ground (arith, h) in
      let enabled_ok : (enabled disable_player s.players).1 ≡ true = ground (arith, h) in
      let ok : (make_players_valid num disable_player simple.0
            (enabled disable_player s.players).0).1
          ≡ true =
        ground (arith, h) in
      let same = make_players_valid_same num small disable_player simple.0 _ ok in
      let kept = same ∙ enabled_same disable_player s.players enabled_ok in
      rw (led_ok, simple_ok) (λ i. record s { players = kept i })

  -- Settings are reported as valid exactly when each pin in use exists and is used once and the modes
  -- are as they should be; then they are left as they were.
  pub make_valid_iff :
      (((make_valid num disable_player s).1 ≡ true) ↔ IsValid num disable_player s)
      × (IsValid num disable_player s → (make_valid num disable_player s).0 ≡ s)
  make_valid_iff = (
    (
      λ h. subst (IsValid num disable_player) (true_unchanged h) make_valid-IsValid,
      λ v. ap (λ (r : DppSettings × Bool). r.1) (valid_unchanged v),
    ),
    λ v. ap (λ (r : DppSettings × Bool). r.0) (valid_unchanged v),
  )
