-- ===== src/Settings/Pins.antt =====
-- src/hal/System/DppSettings.cpp, makeValid: which pins are in use afterwards.
use dream_pico_port.Prelude.{
  ℕ, ◌+◌, ◌^◌, ◌<◌, ◌≡◌, refl, Bool, true, false, u32, if◌then◌else◌, List, [], ◌∷◌, ◌++◌,
  Bool-cases, inl, inr, arith, append_assoc,
}
use dream_pico_port.Settings.{
  Player, DppSettings, is_used, is_set, unset, refused_mode, is_active, validate_gpio, validate_bus,
  make_mode_valid,
}

-- The pins of one number, of a player's bus and direction, and of all settings.
abbrev pub pin_of : ℕ → List ℕ
pin_of io = if is_set io then io ∷ [] else []

abbrev pub player_pins : Player → List ℕ
player_pins p = if is_active p then pin_of p.gpio_dir ++ p.gpio_a ∷ (p.gpio_a + 1) ∷ [] else []

abbrev pub players_pins : List Player → List ℕ
players_pins [] = []
players_pins (p ∷ players) = player_pins p ++ players_pins players

abbrev pub pins : DppSettings → List ℕ
pins s = pin_of s.usb_led_gpio ++ (pin_of s.simple_usb_led_gpio ++ players_pins s.players)

module _ (num : ℕ) where
  -- Pins that exist and can be taken one after the other.
  abbrev pub Fits : List ℕ → List ℕ → Type 0
  Fits used [] = Unit
  Fits used (io ∷ ios) = (io < num) × (is_used used io ≡ false) × Fits (io ∷ used) ios

module _ (num : ℕ) (small : num < 2 ^ 31) where
  Fits-fewer :
      (used used' ios : List ℕ)
      → ((x : ℕ) → is_used used x ≡ true → is_used used' x ≡ true)
      → Fits num used' ios
      → Fits num used ios
  Fits-fewer used used' [] sub f = tt
  Fits-fewer used used' (io ∷ ios) sub (here, free, f) = (
    here,
    ground (arith, free, sub io),
    Fits-fewer (io ∷ used) (io ∷ used') ios (λ x h. ground (arith, h, sub x)) f,
  )

  Fits-tail : (io : ℕ) (used ios : List ℕ) → Fits num (io ∷ used) ios → Fits num used ios
  Fits-tail io used ios = Fits-fewer used (io ∷ used) ios (λ x h. ground (arith, h))

  validate_taken :
      (used : List ℕ) (io : ℕ)
      → is_set io ≡ true
      → (validate_gpio num used io).1 ≡ true
      → (io < num) × (is_used used io ≡ false) × ((validate_gpio num used io).0 ≡ io ∷ used)
  unfolding validate_gpio
  validate_taken used io s h = ground arith

  validate_takes :
      (used : List ℕ) (io : ℕ)
      → is_set io ≡ true
      → io < num
      → is_used used io ≡ false
      → validate_gpio num used io ≡ (io ∷ used, true)
  unfolding validate_gpio
  validate_takes used io s h free = ground arith

  pub validate_refused :
      (used : List ℕ) (io : ℕ)
      → (validate_gpio num used io).1 ≡ false
      → ((validate_gpio num used io).0 ≡ used) × (is_set io ≡ true)
  unfolding validate_gpio
  validate_refused used io h = ground arith

  validate_unset :
      (used : List ℕ) (io : ℕ) → is_set io ≡ false → validate_gpio num used io ≡ (used, true)
  unfolding validate_gpio
  validate_unset used io h = ground arith

  pub validate-Fits :
      (used : List ℕ) (io : ℕ) (rest : List ℕ)
      → Fits num (validate_gpio num used io).0 rest
      → Fits num used (pin_of (if (validate_gpio num used io).1 then io else unset) ++ rest)
  validate-Fits used io rest f = elim (Bool-cases (is_set io)) [
    | inl s ↦ elim (Bool-cases (validate_gpio num used io).1) [
      | inl ok ↦
          let (here, free, taken) = validate_taken used io s ok in
          rw (ok, s) (here, free, rw taken at f)
      | inr bad ↦ rw bad (rw (validate_refused used io bad).0 at f)
    ]
    | inr u ↦ rw (validate_unset used io u, u) (rw (validate_unset used io u) at f)
  ]

  pub validate_fewer :
      (used : List ℕ) (io : ℕ) (rest : List ℕ)
      → Fits num (validate_gpio num used io).0 rest
      → Fits num used rest
  validate_fewer used io rest f = elim (Bool-cases (is_set io)) [
    | inl s ↦ elim (Bool-cases (validate_gpio num used io).1) [
      | inl ok ↦ Fits-tail io used rest (rw (validate_taken used io s ok).2 at f)
      | inr bad ↦ rw (validate_refused used io bad).0 at f
    ]
    | inr u ↦ rw (validate_unset used io u) at f
  ]

  pub validate_takes_pin :
      (used : List ℕ) (io : ℕ) (rest : List ℕ)
      → Fits num used (pin_of io ++ rest)
      → ((validate_gpio num used io).1 ≡ true) × Fits num (validate_gpio num used io).0 rest
  validate_takes_pin used io rest f = elim (Bool-cases (is_set io)) [
    | inl s ↦
        let (here, free, others) : (io < num)
            × (is_used used io ≡ false)
            × Fits num (io ∷ used) rest =
          rw s at f in
        rw (validate_takes used io s here free) (refl, others)
    | inr u ↦
        let others : Fits num used rest = rw u at f in rw (validate_unset used io u) (refl, others)
  ]

  next_pin : (io : ℕ) → io < num → (u32 (io + 1) ≡ io + 1) × (is_set (io + 1) ≡ true)
  next_pin io h = ground arith

  pub validate_bus-Fits :
      (used : List ℕ) (io : ℕ) (rest : List ℕ)
      → is_set io ≡ true
      → (validate_bus num used io).1 ≡ true
      → Fits num (validate_bus num used io).0 rest
      → Fits num used (io ∷ (io + 1) ∷ rest)
  unfolding validate_bus
  validate_bus-Fits used io rest s ok f = elim (Bool-cases (validate_gpio num used io).1) [
    | inl first ↦
        let (here, free, taken) = validate_taken used io s first in
        let (same, t) = next_pin io here in
        let ok' : (validate_gpio num (io ∷ used) (io + 1)).1 ≡ true =
          rw (first, taken, same) at ok in
        let (after, free', taken') = validate_taken (io ∷ used) (io + 1) t ok' in
        let g : Fits num (validate_gpio num (io ∷ used) (io + 1)).0 rest =
          rw (first, taken, same) at f in
        (here, free, (after, free', rw taken' at g))
    | inr bad ↦ let never : false ≡ true = rw bad at ok in absurd (cc never)
  ]

  pub validate_bus_fewer :
      (used : List ℕ) (io : ℕ) (rest : List ℕ)
      → Fits num (validate_bus num used io).0 rest
      → Fits num used rest
  unfolding validate_bus
  validate_bus_fewer used io rest f = elim (Bool-cases (validate_gpio num used io).1) [
    | inl ok ↦
        validate_fewer used io rest
          (validate_fewer (validate_gpio num used io).0 (u32 (io + 1)) rest (rw ok at f))
    | inr bad ↦ validate_fewer used io rest (rw bad at f)
  ]

  pub validate_bus_takes_pins :
      (used : List ℕ) (io : ℕ) (rest : List ℕ)
      → is_set io ≡ true
      → Fits num used (io ∷ (io + 1) ∷ rest)
      → ((validate_bus num used io).1 ≡ true) × Fits num (validate_bus num used io).0 rest
  unfolding validate_bus
  validate_bus_takes_pins used io rest s (here, free, (after, free', f)) =
      let (same, t) = next_pin io here in
      rw
        (
          validate_takes used io s here free,
          same,
          validate_takes (io ∷ used) (io + 1) t after free',
        )
        (refl, f)

  pub make_mode_valid-pins : (p : Player) → player_pins (make_mode_valid p).0 ≡ player_pins p
  unfolding make_mode_valid
  make_mode_valid-pins p = ground arith

  pub taken-Fits :
      (used : List ℕ) (p : Player) (rest : List ℕ)
      → is_active p ≡ true
      → (validate_gpio num used p.gpio_dir).1 ≡ true
      → Fits num (validate_gpio num used p.gpio_dir).0 (p.gpio_a ∷ (p.gpio_a + 1) ∷ rest)
      → Fits num used (player_pins p ++ rest)
  taken-Fits used p rest on ok f =
      let bus = p.gpio_a ∷ (p.gpio_a + 1) ∷ [] in
      let g : Fits num used (pin_of p.gpio_dir ++ (bus ++ rest)) =
        rw ok at (validate-Fits used p.gpio_dir (bus ++ rest) f) in
      rw (on, append_assoc (pin_of p.gpio_dir) bus rest) g

  pub refused-Fits :
      (disable_player : Bool) (used : List ℕ) (p : Player) (rest : List ℕ)
      → is_active p ≡ true
      → Fits num used (p.gpio_a ∷ (p.gpio_a + 1) ∷ rest)
      → Fits num used (
          player_pins (record p {
            gpio_dir = unset;
            detection_mode = refused_mode disable_player p.detection_mode;
          })
          ++ rest)
  refused-Fits true used p rest on (here, free, (after, free', f)) =
      Fits-tail p.gpio_a used rest (Fits-tail (p.gpio_a + 1) (p.gpio_a ∷ used) rest f)
  refused-Fits false used p rest on f = rw on f
