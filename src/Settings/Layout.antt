-- ===== src/Settings/Layout.antt =====
-- src/hal/System/DppSettings.cpp: the settings as words in flash, saved and read.
use dream_pico_port.Prelude.{
  ℕ, zero, suc, ◌+◌, ◌-◌, ◌*◌, ◌/◌, ◌%◌, ◌^◌, Bool, false, not, ◌||◌, ◌==◌, ltb, leb, bit_and,
  bit_or, bit_xor, if◌then◌else◌, List, [], ◌∷◌, ◌++◌, get_or, length, map, replicate, Option, none,
  some,
}
use dream_pico_port.Prelude.Bits.{join_bytes}
use dream_pico_port.Settings.{DppSettings, Player, default_settings}

abbrev pub magic : ℕ
magic = 0xA875EBBB

-- The words of SettingsMemory from the CRC on.
abbrev pub settings_memory_size_words : ℕ
settings_memory_size_words = 15

abbrev pub minimum_settings_memory_size_words : ℕ
minimum_settings_memory_size_words = 14

abbrev pub flash_page_words : ℕ
flash_page_words = 64

-- SettingsMemory, with an array of four bytes or words as a list.
pub record SettingsMemory : Type 0 where
  pub size : ℕ
  pub inv_size : ℕ
  pub crc : ℕ
  pub usb_en : ℕ
  pub player_enable_mode : List ℕ
  pub gpio_a : List ℕ
  pub gpio_dir : List ℕ
  pub gpio_dir_output_high : List ℕ
  pub usb_led_gpio : ℕ
  pub simple_usb_led_gpio : ℕ
  pub dpad_type : ℕ

-- Four bytes in a word, the first one lowest.
abbrev pub word_of : List ℕ → ℕ
word_of bytes =
    join_bytes (get_or bytes 0 0) (get_or bytes 1 0) (get_or bytes 2 0) (get_or bytes 3 0)

abbrev pub entry : List ℕ → ℕ → ℕ
entry xs i = get_or xs i 0

-- What the CRC covers.
unfoldable pub body_of : SettingsMemory → List ℕ
body_of m =
    m.usb_en
    ∷ word_of m.player_enable_mode
    ∷ entry m.gpio_a 0
    ∷ entry m.gpio_a 1
    ∷ entry m.gpio_a 2
    ∷ entry m.gpio_a 3
    ∷ entry m.gpio_dir 0
    ∷ entry m.gpio_dir 1
    ∷ entry m.gpio_dir 2
    ∷ entry m.gpio_dir 3
    ∷ word_of m.gpio_dir_output_high
    ∷ m.usb_led_gpio
    ∷ m.simple_usb_led_gpio
    ∷ m.dpad_type
    ∷ []

-- The structure in memory; its unused bytes are 0.
unfoldable pub memory_words : SettingsMemory → List ℕ
unfolding body_of
memory_words m = magic ∷ (m.size + m.inv_size * 2 ^ 16) ∷ m.crc ∷ body_of m

-- calc_crc32 of a run of words.
unfoldable pub crc_from : ℕ → List ℕ → ℕ
crc_from crc [] = crc
crc_from crc (w ∷ ws) = crc_from (bit_xor crc w) ws

unfoldable pub calc_crc32 : List ℕ → ℕ
calc_crc32 words = crc_from 0xFFFFFFFF words

-- So many words from an index on.
unfoldable pub words_from : (ℕ → ℕ) → ℕ → ℕ → List ℕ
words_from word start zero = []
words_from word start (suc n) = word start ∷ words_from word (suc start) n

-- (a ? m : 0) | ...
unfoldable pub usb_flags : DppSettings → ℕ
usb_flags s =
    bit_or (bit_or (if s.cdc_en then 1 else 0) (if s.msc_en then 2 else 0))
      (if s.web_usb_announce_en then 4 else 0)

abbrev pub bool_byte : Bool → ℕ
bool_byte b = if b then 1 else 0

-- The structure that save fills.
unfoldable pub to_memory : DppSettings → SettingsMemory
unfolding usb_flags body_of calc_crc32
to_memory s =
    let m : SettingsMemory = record {
      size = settings_memory_size_words;
      inv_size = bit_xor settings_memory_size_words 0xFFFF;
      crc = 0xFFFFFFFF;
      usb_en = usb_flags s;
      player_enable_mode = map (λ (p : Player). p.detection_mode) s.players;
      gpio_a = map (λ (p : Player). p.gpio_a) s.players;
      gpio_dir = map (λ (p : Player). p.gpio_dir) s.players;
      gpio_dir_output_high = map (λ (p : Player). bool_byte p.gpio_dir_output_high) s.players;
      usb_led_gpio = s.usb_led_gpio;
      simple_usb_led_gpio = s.simple_usb_led_gpio;
      dpad_type = s.dpad_type;
    } in
    record m { crc = calc_crc32 (body_of m) }

-- The page that save_settings_memory programs, filled up with set bits.
unfoldable pub page_of : SettingsMemory → List ℕ
page_of m = memory_words m ++ replicate (flash_page_words - length (memory_words m)) 0xFFFFFFFF

-- The bytes of a word, by their address.
abbrev pub byte_of : ℕ → ℕ → ℕ
byte_of w i = w / 2 ^ (8 * i) % 256

unfoldable pub read_player : (ℕ → ℕ) → ℕ → Player
read_player word i = record {
  detection_mode = byte_of (word 4) i;
  gpio_a = word (5 + i);
  gpio_dir = word (9 + i);
  gpio_dir_output_high = not (byte_of (word 13) i == 0);
}

-- The test at the head of readSettingsAtAddr.
unfoldable pub is_memory_valid : (ℕ → ℕ) → Bool
is_memory_valid word =
    let size = word 1 % 2 ^ 16 in
    if not (word 0 == magic)
      || not (bit_xor size (word 1 / 2 ^ 16) == 0xFFFF)
      || ltb size minimum_settings_memory_size_words
    then false
    else calc_crc32 (words_from word 2 size) == 0

-- readSettingsAtAddr, where `word` gives the words of the flash from the address on.
unfoldable pub read_settings : (ℕ → ℕ) → Option DppSettings
read_settings word =
    if not (is_memory_valid word)
    then none
    else some (record {
      cdc_en = ltb 0 (bit_and (word 3) 1);
      msc_en = ltb 0 (bit_and (word 3) 2);
      web_usb_announce_en = ltb 0 (bit_and (word 3) 4);
      players =
          read_player word 0 ∷ read_player word 1 ∷ read_player word 2 ∷ read_player word 3 ∷ [];
      usb_led_gpio = word 14;
      simple_usb_led_gpio = word 15;
      dpad_type =
          if leb 15 (word 1 % 2 ^ 16) then byte_of (word 16) 0 else default_settings.dpad_type;
    })

-- initialize: the defaults stand in for what cannot be read.
unfoldable pub initialize : (ℕ → ℕ) → DppSettings
initialize word = elim (read_settings word) [ none ↦ default_settings | some s ↦ s ]
