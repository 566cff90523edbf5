-- ===== src/Settings/Fields.antt =====
-- src/hal/System/DppSettings.cpp: the fields in the words of the structure.
use dream_pico_port.Prelude.{
  ℕ, ◌+◌, ◌<◌, ◌≡◌, refl, ap, ◌∙◌, Bool, true, false, not, ◌==◌, if◌then◌else◌, ltb, bit_and,
  bit_or, arith,
}
use dream_pico_port.Prelude.Bits.{join_bytes}
use dream_pico_port.Settings.{DppSettings, Player}
use dream_pico_port.Settings.Layout.{usb_flags, bool_byte, byte_of, read_player}

pub flags_lem :
    (s : DppSettings)
    → (ltb 0 (bit_and (usb_flags s) 1) ≡ s.cdc_en)
      × (ltb 0 (bit_and (usb_flags s) 2) ≡ s.msc_en)
      × (ltb 0 (bit_and (usb_flags s) 4) ≡ s.web_usb_announce_en)
unfolding usb_flags
flags_lem s = go s.cdc_en s.msc_en s.web_usb_announce_en
  where
    go :
        (c m w : Bool)
        → (ltb 0 (
              bit_and
                (bit_or (bit_or (if c then 1 else 0) (if m then 2 else 0)) (if w then 4 else 0))
                1)
            ≡ c)
          × (ltb 0 (
                bit_and
                  (bit_or (bit_or (if c then 1 else 0) (if m then 2 else 0)) (if w then 4 else 0))
                  2)
              ≡ m)
          × (ltb 0 (
                bit_and
                  (bit_or (bit_or (if c then 1 else 0) (if m then 2 else 0)) (if w then 4 else 0))
                  4)
              ≡ w)
    go false false false = (refl, refl, refl)
    go false false true = (refl, refl, refl)
    go false true false = (refl, refl, refl)
    go false true true = (refl, refl, refl)
    go true false false = (refl, refl, refl)
    go true false true = (refl, refl, refl)
    go true true false = (refl, refl, refl)
    go true true true = (refl, refl, refl)

byte_bool : (b : Bool) → not (bool_byte b == 0) ≡ b
byte_bool true = refl
byte_bool false = refl

pub bytes_lem :
    (a b c d : ℕ)
    → a < 256
    → b < 256
    → c < 256
    → d < 256
    → (byte_of (join_bytes a b c d) 0 ≡ a)
      × (byte_of (join_bytes a b c d) 1 ≡ b)
      × (byte_of (join_bytes a b c d) 2 ≡ c)
      × (byte_of (join_bytes a b c d) 3 ≡ d)
bytes_lem a b c d ha hb hc hd = omega arith

pub read_player_lem :
    (word : ℕ → ℕ) (i : ℕ) (p : Player)
    → byte_of (word 4) i ≡ p.detection_mode
    → word (5 + i) ≡ p.gpio_a
    → word (9 + i) ≡ p.gpio_dir
    → byte_of (word 13) i ≡ bool_byte p.gpio_dir_output_high
    → read_player word i ≡ p
unfolding read_player
read_player_lem word i p mode bus dir level =
    let high = ap (λ (b : ℕ). not (b == 0)) level ∙ byte_bool p.gpio_dir_output_high in
    λ i. record {
      detection_mode = mode i;
      gpio_a = bus i;
      gpio_dir = dir i;
      gpio_dir_output_high = high i;
    }

pub bool_byte_small : (b : Bool) → bool_byte b < 256
bool_byte_small true = omega arith
bool_byte_small false = omega arith
