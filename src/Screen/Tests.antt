-- ===== src/Screen/Tests.antt =====
-- A blank screen that words are written to.
use dream_pico_port.Prelude.{
  ◌+◌, ◌≡◌, refl, true, false, [], ◌∷◌, length, replicate, take, drop, arith,
}
use dream_pico_port.Screen.{ScreenData, done, num_screen_words, set_data, read_data}
use dream_pico_port.Screen.Words.{read_data-set_data}

abbrev blank : ScreenData
blank = record {
  default_screen = replicate 48 0;
  screen_data = replicate 48 0;
  new_data_available = false;
}

read_data-set_data_example :
    (s' : ScreenData) × (set_data true blank (7 ∷ 8 ∷ []) 46 2 true ≡ done s')
    × (length s'.screen_data ≡ num_screen_words)
    × (take 46 (read_data true s').1 ≡ take 46 blank.screen_data)
    × (take 2 (drop 46 (read_data true s').1) ≡ take 2 (7 ∷ 8 ∷ []))
    × (drop (46 + 2) (read_data true s').1 ≡ drop (46 + 2) blank.screen_data)
read_data-set_data_example =
    read_data-set_data blank (7 ∷ 8 ∷ []) 46 2 true refl (omega arith) (omega arith)
