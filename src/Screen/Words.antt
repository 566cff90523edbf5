-- ===== src/Screen/Words.antt =====
-- ScreenData's setData, readData and its look-up of a default: words within the arrays and past
-- them.
use dream_pico_port.Prelude.{
  ℕ, ◌+◌, ◌*◌, ◌≤◌, ◌<◌, ◌≡◌, ◌↔◌, Bool, true, List, ◌++◌, length, take, drop, length-append,
  length-take, length-drop, take-append, drop-append, append_assoc, sym, if◌then◌else◌, none, arith,
}
use dream_pico_port.Screen.{
  ScreenData, out_of_bounds, done, num_screen_words, default_row, set_data, read_data,
}

take-parts : (n : ℕ) (xs ys : List ℕ) → length xs ≡ n → take n (xs ++ ys) ≡ xs
take-parts n xs ys h = rw (sym h) (take-append xs ys)

drop-parts : (n : ℕ) (xs ys : List ℕ) → length xs ≡ n → drop n (xs ++ ys) ≡ ys
drop-parts n xs ys h = rw (sym h) (drop-append xs ys)

set_data-done :
    (s : ScreenData) (words : List ℕ) (start count : ℕ) (update : Bool)
    → start + count ≤ num_screen_words
    → set_data true s words start count update
      ≡ done (record s {
        screen_data =
            take start s.screen_data ++ (take count words ++ drop (start + count) s.screen_data);
        new_data_available = if update then true else s.new_data_available;
      })
unfolding set_data
set_data-done s words start count update l = ground arith

-- With the mutex got, words written within a screen, as many as are there, leave a screen of the
-- same size, and the next read gives the words before the start as they were, the new words, and
-- the words behind them as they were.
pub read_data-set_data :
    (s : ScreenData) (words : List ℕ) (start count : ℕ) (update : Bool)
    → length s.screen_data ≡ num_screen_words
    → count ≤ length words
    → start + count ≤ num_screen_words
    → (s' : ScreenData) × (set_data true s words start count update ≡ done s')
      × (length s'.screen_data ≡ num_screen_words)
      × (take start (read_data true s').1 ≡ take start s.screen_data)
      × (take count (drop start (read_data true s').1) ≡ take count words)
      × (drop (start + count) (read_data true s').1 ≡ drop (start + count) s.screen_data)
unfolding read_data
read_data-set_data s words start count update h k l = (
  record s {
    screen_data = before ++ (new ++ after);
    new_data_available = if update then true else s.new_data_available;
  },
  set_data-done s words start count update l,
  omega (
    arith,
    length-append before (new ++ after),
    length-append new after,
    before_length,
    new_length,
    length-drop (start + count) s.screen_data,
  ),
  take-parts start before (new ++ after) before_length,
  rw (drop-parts start before (new ++ after) before_length) (take-parts count new after new_length),
  rw (sym (append_assoc before new after)) (
      drop-parts (start + count) (before ++ new) after
        (omega (arith, length-append before new, before_length, new_length))),
)
  where
    before : List ℕ
    before = take start s.screen_data

    new : List ℕ
    new = take count words

    after : List ℕ
    after = drop (start + count) s.screen_data

    before_length : length before ≡ start
    before_length = omega (arith, length-take start s.screen_data)

    new_length : length new ≡ count
    new_length = omega (arith, length-take count words)

-- Looking up a default screen goes past the table for the number 4, and for no other.
default_row-none : (n : ℕ) → (default_row n ≡ none) ↔ (n ≡ 4)
unfolding default_row
default_row-none n = ground arith

-- With the mutex got, a write that ends past the screen, but not past four times its words, passes
-- the assertion and goes past the array.
set_data_overrun :
    (s : ScreenData) (words : List ℕ) (start count : ℕ) (update : Bool)
    → num_screen_words < start + count
    → start + count ≤ num_screen_words * 4
    → set_data true s words start count update ≡ out_of_bounds
unfolding set_data
set_data_overrun s words start count update h k = ground arith
