-- ===== src/SettingsCommands/Storable.antt =====
-- src/hal/System/DppSettings.cpp, makeValid: settings that the structure in flash can hold are made
-- settings that it can hold.
use dream_pico_port.Prelude.{
  ℕ, ◌<◌, ◌≡◌, refl, ap, suc, ◌∙◌, Bool, true, false, if_both, List, [], ◌∷◌, length, All, arith,
}
use dream_pico_port.Settings.{
  DppSettings, Player, make_dir_valid, make_bus_valid, make_mode_valid, make_active_valid,
  make_player_valid, make_players_valid, make_valid, refused_mode, validate_gpio, validate_bus,
}
use dream_pico_port.Settings.RoundTrip.{IsPlayer, IsStorable}

refused_mode-small : (b : Bool) (mode : ℕ) → mode < 256 → refused_mode b mode < 256
refused_mode-small true mode h = omega arith
refused_mode-small false mode h = h

make_mode_valid-IsPlayer : (p : Player) → IsPlayer p → IsPlayer (make_mode_valid p).0
unfolding make_mode_valid
make_mode_valid-IsPlayer p h = ground arith

module _ (num : ℕ) (disable_player : Bool) where
  make_dir_valid-IsPlayer :
      (used : List ℕ) (p : Player)
      → IsPlayer p
      → IsPlayer (make_dir_valid num disable_player used p).1
  unfolding make_dir_valid
  make_dir_valid-IsPlayer used p h =
      if_both IsPlayer (validate_gpio num used p.gpio_dir).1 h
        (refused_mode-small disable_player p.detection_mode h)

  make_bus_valid-IsPlayer :
      (used : List ℕ) (p : Player)
      → IsPlayer p
      → IsPlayer (make_bus_valid num disable_player used p).1
  unfolding make_bus_valid
  make_bus_valid-IsPlayer used p h =
      if_both IsPlayer (validate_bus num used p.gpio_a).1 h
        (refused_mode-small disable_player p.detection_mode h)

  make_player_valid-IsPlayer :
      (used : List ℕ) (p : Player)
      → IsPlayer p
      → IsPlayer (make_player_valid num disable_player used p).1
  unfolding make_player_valid make_active_valid
  make_player_valid-IsPlayer used p h =
      let d = make_dir_valid num disable_player used p in
      let dir = make_dir_valid-IsPlayer used p h in
      let bus = make_bus_valid-IsPlayer d.0 d.1 dir in
      let mode = make_mode_valid-IsPlayer (make_bus_valid num disable_player d.0 d.1).1 bus in
      ground (arith, mode, h)

  make_players_valid-IsPlayer :
      (used : List ℕ) (ps : List Player)
      → All IsPlayer ps
      → All IsPlayer (make_players_valid num disable_player used ps).0
  unfolding make_players_valid
  make_players_valid-IsPlayer used [] hs = tt
  make_players_valid-IsPlayer used (p ∷ ps) (h, hs) = (
    make_player_valid-IsPlayer used p h,
    make_players_valid-IsPlayer (make_player_valid num disable_player used p).0 ps hs,
  )

  length-make_players_valid :
      (used : List ℕ) (ps : List Player)
      → length (make_players_valid num disable_player used ps).0 ≡ length ps
  unfolding make_players_valid
  length-make_players_valid used [] = refl
  length-make_players_valid used (p ∷ ps) =
      ap suc (length-make_players_valid (make_player_valid num disable_player used p).0 ps)

pub make_valid-IsStorable :
    (num : ℕ) (s : DppSettings) → IsStorable s → IsStorable (make_valid num false s).0
unfolding make_valid
make_valid-IsStorable num s h = record {
  four = length-make_players_valid num false _ s.players ∙ h.four;
  fields = make_players_valid-IsPlayer num false _ s.players h.fields;
  dpad = h.dpad;
}
