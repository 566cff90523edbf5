-- ===== src/SettingsCommands/Packing.antt =====
-- src/hostLib/webusb_parsers/SettingsWebUsbCommandHandler.cpp, packSettings: settings as bytes.
use dream_pico_port.Prelude.{
  ℕ, ◌+◌, ◌/◌, ◌%◌, ◌^◌, bit_and, bit_or, u8, u32, ◌<<<◌, ◌>>>◌, List, [], ◌∷◌, ◌++◌, get_or,
}
use dream_pico_port.Prelude.Bits.{join_bytes}
use dream_pico_port.Settings.{DppSettings, Player}
use dream_pico_port.Settings.Layout.{bool_byte}

unfoldable pub flip_word : ℕ → ℕ
flip_word word =
    bit_or
      (bit_or (bit_or (u32 (word <<< 24)) (bit_and (u32 (word <<< 8)) 0xFF0000))
        (bit_and (word >>> 8) 0xFF00))
      (word >>> 24)

-- The bytes of a word in memory.
abbrev pub word_bytes : ℕ → List ℕ
word_bytes w = w % 256 ∷ w / 2 ^ 8 % 256 ∷ w / 2 ^ 16 % 256 ∷ w / 2 ^ 24 % 256 ∷ []

abbrev pub packed : (Player → List ℕ) → List Player → List ℕ
packed f [] = []
packed f (p ∷ players) = f p ++ packed f players

unfoldable pub pack_settings : DppSettings → List ℕ
pack_settings s =
    (bool_byte s.cdc_en ∷ bool_byte s.msc_en ∷ bool_byte s.web_usb_announce_en ∷ [])
    ++ (packed (λ p. u8 p.detection_mode ∷ []) s.players
        ++ (packed (λ p. word_bytes (flip_word p.gpio_a)) s.players
            ++ (packed (λ p. word_bytes (flip_word p.gpio_dir)) s.players
                ++ (packed (λ p. bool_byte p.gpio_dir_output_high ∷ []) s.players
                    ++ (word_bytes (flip_word s.usb_led_gpio)
                        ++ (word_bytes (flip_word s.simple_usb_led_gpio)
                            ++ u8 s.dpad_type ∷ []))))))

-- The word that a memcpy takes from some bytes on, flipped.
unfoldable pub read_word : List ℕ → ℕ → ℕ
read_word bytes i = flip_word (
    join_bytes (get_or bytes i 0) (get_or bytes (i + 1) 0) (get_or bytes (i + 2) 0)
      (get_or bytes (i + 3) 0))
