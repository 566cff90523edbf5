-- ===== src/Screen.antt =====
-- src/hostLib/ScreenData.cpp and .hpp: the words of a screen. Whether a LockGuard got the mutex is an
-- argument. A failed assertion and a write or read past an array are results of their own.
pub mod Defaults
pub mod Words
pub mod Tests
use dream_pico_port.Prelude.{
  ℕ, zero, suc, ◌+◌, ◌*◌, Bool, true, false, ltb, if◌then◌else◌, List, [], ◌∷◌, ◌++◌, length, take,
  drop, get_elem?, Option, none, some,
}
use dream_pico_port.Screen.Defaults.{default_screens}

abbrev pub num_screen_words : ℕ
num_screen_words = 48

abbrev pub num_default_screens : ℕ
num_default_screens = 4

pub record ScreenData : Type 0 where
  pub default_screen : List ℕ
  pub screen_data : List ℕ
  pub new_data_available : Bool

pub data Result : Type 0 where
  assertion_failed out_of_bounds : Result
  done : ScreenData → Result

-- The row of the table that a number stands for; `none` is a row past the table.
unfoldable pub default_row : ℕ → Option (List ℕ)
default_row n = get_elem? default_screens (if ltb num_default_screens n then 0 else n)

unfoldable pub reset_to_default : ScreenData → ScreenData
reset_to_default s = record s { screen_data = s.default_screen; new_data_available = true }

unfoldable pub make : ℕ → Result
unfolding reset_to_default
make n = elim (default_row n) [
  | none ↦ out_of_bounds
  | some row ↦ done (
      reset_to_default
        (record { default_screen = row; screen_data = []; new_data_available = false }))
]

-- The assertion compares words with the size of the array in bytes.
unfoldable pub set_data : Bool → ScreenData → List ℕ → ℕ → ℕ → Bool → Result
set_data locked s words start_index num_words update =
    if ltb (num_screen_words * 4) (start_index + num_words)
    then assertion_failed
    else if locked
    then (if ltb num_screen_words (start_index + num_words)
        then out_of_bounds
        else done (record s {
          screen_data =
              take start_index s.screen_data
              ++ (take num_words words ++ drop (start_index + num_words) s.screen_data);
          new_data_available = if update then true else s.new_data_available;
        }))
    else done s

unfoldable pub set_data_to_a_default : Bool → ScreenData → ℕ → Result
set_data_to_a_default locked s n = elim (default_row n) [
  | none ↦ out_of_bounds
  | some row ↦ set_data locked s row 0 num_screen_words true
]

-- The words are copied even where the lock was not got.
unfoldable pub read_data : Bool → ScreenData → ScreenData × List ℕ
read_data locked s = (if locked then record s { new_data_available = false } else s, s.screen_data)
