-- ===== src/Settings/Validity.antt =====
-- src/hal/System/DppSettings.cpp, makeValid: what it makes of settings, and what it returns.
use dream_pico_port.Prelude.{
  ℕ, ◌+◌, ◌^◌, ◌<◌, ◌≡◌, ◌↔◌, refl, ap₂, Bool, true, false, not, ◌&&◌, ◌==◌, ltb, leb,
  if◌then◌else◌, List, [], ◌∷◌, ◌++◌, All, Bool-cases, inl, inr, arith, append_assoc,
}
use dream_pico_port.Settings.{
  Player, DppSettings, is_used, is_set, is_active, mode_disable, num_player_detection_modes,
  validate_gpio, make_dir_valid, make_bus_valid, make_mode_valid, make_active_valid,
  make_player_valid, make_players_valid,
}
use dream_pico_port.Settings.Pins.{
  pin_of, player_pins, players_pins, pins, Fits, validate_takes_pin, validate_bus_takes_pins,
}
use dream_pico_port.Settings.Active.{make_active_valid-Fits}

-- No entry stands twice.
abbrev pub Distinct : List ℕ → Type 0
Distinct [] = Unit
Distinct (x ∷ xs) = (is_used xs x ≡ false) × Distinct xs

-- A player with a bus has one of the modes, and if players without one are to be disabled, they are.
abbrev pub player_fits : Bool → Player → Bool
player_fits disable_player p =
    if p.detection_mode == mode_disable
    then true
    else if is_set p.gpio_a
    then ltb p.detection_mode num_player_detection_modes
    else not disable_player

-- Settings whose pins exist and are used once each.
pub record IsValid (num : ℕ) (disable_player : Bool) (s : DppSettings) : Type 0 where
  pub fit : All (λ p. player_fits disable_player p ≡ true) s.players
  pub exist : All (λ io. io < num) (pins s)
  pub distinct : Distinct (pins s)

abbrev Unused : List ℕ → List ℕ → Type 0
Unused used = All (λ io. is_used used io ≡ false)

Unused-one :
    (x : ℕ) (used xs : List ℕ) → Unused (x ∷ used) xs ↔ ((is_used xs x ≡ false) × Unused used xs)
Unused-one x used [] = (λ h. (refl, tt), λ h. tt)
Unused-one x used (y ∷ ys) =
    let (to, from) = Unused-one x used ys in
    (
      λ (h, hs). let (a, b) = to hs in (ground (arith, h, a), (ground (arith, h), b)),
      λ (h, (k, ks)). (ground (arith, h, k), from (ground (arith, h), ks)),
    )

module _ (num : ℕ) where
  pub Fits-iff :
      (used xs : List ℕ)
      → Fits num used xs ↔ (All (λ io. io < num) xs × Distinct xs × Unused used xs)
  Fits-iff used [] = (λ f. (tt, tt, tt), λ f. tt)
  Fits-iff used (x ∷ xs) =
      let (to, from) = Fits-iff (x ∷ used) xs in
      let (split, join) = Unused-one x used xs in
      (
        λ (here, free, f).
            let (within, distinct, unused) = to f in
            let (once, others) = split unused in ((here, within), (once, distinct), (free, others)),
        λ ((here, within), (once, distinct), (free, others)).
            (here, free, from (within, distinct, join (once, others))),
      )

-- What the first loop leaves for the second one.
abbrev pub IsEnabled : Bool → Player → Type 0
IsEnabled disable_player p =
    (disable_player && (not (is_set p.gpio_a) && not (p.detection_mode == mode_disable))) ≡ false

module _ (num : ℕ) (small : num < 2 ^ 31) (disable_player : Bool) where
  make_player_valid_fit :
      (used : List ℕ) (p : Player)
      → (disable_player && (not (is_set p.gpio_a) && not (p.detection_mode == mode_disable)))
        ≡ false
      → player_fits disable_player (make_player_valid num disable_player used p).1 ≡ true
  unfolding make_player_valid make_active_valid make_dir_valid make_bus_valid make_mode_valid
  make_player_valid_fit used p h = ground arith

  make_player_valid_same :
      (used : List ℕ) (p : Player)
      → (make_player_valid num disable_player used p).2 ≡ true
      → (make_player_valid num disable_player used p).1 ≡ p
  unfolding make_player_valid make_active_valid make_dir_valid make_bus_valid make_mode_valid
  make_player_valid_same used p h = ground arith

  make_player_valid-Fits :
      (used : List ℕ) (p : Player) (rest : List ℕ)
      → Fits num (make_player_valid num disable_player used p).0 rest
      → Fits num used (player_pins (make_player_valid num disable_player used p).1 ++ rest)
  unfolding make_player_valid
  make_player_valid-Fits used p rest f = elim (Bool-cases (is_active p)) [
    | inl on ↦ rw on (make_active_valid-Fits num small disable_player used p rest on (rw on at f))
    | inr off ↦ rw (off, off) (rw off at f)
  ]

  make_player_valid_unchanged :
      (used : List ℕ) (p : Player) (rest : List ℕ)
      → player_fits disable_player p ≡ true
      → Fits num used (player_pins p ++ rest)
      → ((make_player_valid num disable_player used p).1 ≡ p)
        × ((make_player_valid num disable_player used p).2 ≡ true)
        × Fits num (make_player_valid num disable_player used p).0 rest
  unfolding make_player_valid make_active_valid make_dir_valid make_bus_valid make_mode_valid
  make_player_valid_unchanged used p rest fit f = elim (Bool-cases (is_active p)) [
    | inl on ↦
        let bus = p.gpio_a ∷ (p.gpio_a + 1) ∷ [] in
        let split : Fits num used (pin_of p.gpio_dir ++ (bus ++ rest)) =
          rw (on, append_assoc (pin_of p.gpio_dir) bus rest) at f in
        let (dir, after) = validate_takes_pin num small used p.gpio_dir (bus ++ rest) split in
        let (both, others) =
          validate_bus_takes_pins num small (validate_gpio num used p.gpio_dir).0 p.gpio_a rest
            (ground (arith, on)) after in
        let low : leb num_player_detection_modes p.detection_mode ≡ false =
          ground (arith, on, fit) in
        rw (on, dir, both, low) (refl, refl, others)
    | inr off ↦ rw off (refl, refl, rw off at f)
  ]

  pub make_players_valid-Fits :
      (used : List ℕ) (ps : List Player)
      → Fits num used (players_pins (make_players_valid num disable_player used ps).0)
  unfolding make_players_valid
  make_players_valid-Fits used [] = tt
  make_players_valid-Fits used (p ∷ ps) =
      make_player_valid-Fits used p _
        (make_players_valid-Fits (make_player_valid num disable_player used p).0 ps)

  pub make_players_valid_same :
      (used : List ℕ) (ps : List Player)
      → (make_players_valid num disable_player used ps).1 ≡ true
      → (make_players_valid num disable_player used ps).0 ≡ ps
  unfolding make_players_valid
  make_players_valid_same used [] h = refl
  make_players_valid_same used (p ∷ ps) h =
      ap₂ ◌∷◌ (make_player_valid_same used p (ground (arith, h))) (
        make_players_valid_same (make_player_valid num disable_player used p).0 ps
          (ground (arith, h)))

  pub make_players_valid_unchanged :
      (used : List ℕ) (ps : List Player)
      → All (λ p. player_fits disable_player p ≡ true) ps
      → Fits num used (players_pins ps)
      → ((make_players_valid num disable_player used ps).0 ≡ ps)
        × ((make_players_valid num disable_player used ps).1 ≡ true)
  unfolding make_players_valid
  make_players_valid_unchanged used [] fit f = (refl, refl)
  make_players_valid_unchanged used (p ∷ ps) fit f =
      let (same, ok, others) = make_player_valid_unchanged used p (players_pins ps) fit.0 f in
      let (sames, oks) =
        make_players_valid_unchanged (make_player_valid num disable_player used p).0 ps fit.1
          others in
      (ap₂ ◌∷◌ same sames, rw (ok, oks) refl)

  pub make_players_valid_fit :
      (used : List ℕ) (ps : List Player)
      → All (IsEnabled disable_player) ps
      → All
          (λ p. player_fits disable_player p ≡ true)
          (make_players_valid num disable_player used ps).0
  unfolding make_players_valid
  make_players_valid_fit used [] h = tt
  make_players_valid_fit used (p ∷ ps) h = (
    make_player_valid_fit used p h.0,
    make_players_valid_fit (make_player_valid num disable_player used p).0 ps h.1,
  )
