-- ===== src/Settings/RoundTrip.antt =====
-- src/hal/System/DppSettings.cpp: settings that are saved are read again.
use dream_pico_port.Prelude.{
  ℕ, ◌+◌, ◌*◌, ◌%◌, ◌^◌, ◌<◌, ◌≡◌, refl, ap, ap₂, ◌∙◌, true, if◌then◌else◌, List, [], ◌∷◌, length,
  All, get_or, some, ltb, leb, map, bit_and, arith,
}
use dream_pico_port.Prelude.Bits.{join_bytes}
use dream_pico_port.Settings.{DppSettings, Player, num_players}
use dream_pico_port.Settings.Crc.{crc_sealed}
use dream_pico_port.Settings.Layout.{
  magic, body_of, memory_words, calc_crc32, words_from, usb_flags, to_memory, word_of, page_of,
  bool_byte, byte_of, read_player, is_memory_valid, read_settings, flash_page_words,
}
use dream_pico_port.Settings.Fields.{flags_lem, bytes_lem, read_player_lem, bool_byte_small}

-- The flash holds the words of a page.
abbrev pub HasPage : (ℕ → ℕ) → List ℕ → Type 0
HasPage word page = (i : ℕ) → i < flash_page_words → word i ≡ get_or page i 0

-- What fits the fields of the structure.
abbrev pub IsPlayer : Player → Type 0
IsPlayer p = p.detection_mode < 256

pub record IsStorable (s : DppSettings) : Type 0 where
  pub four : length s.players ≡ num_players
  pub fields : All IsPlayer s.players
  pub dpad : s.dpad_type < 256

to_memory_crc : (s : DppSettings) → (to_memory s).crc ≡ calc_crc32 (body_of (to_memory s))
unfolding to_memory body_of
to_memory_crc s = refl

module _ (s : DppSettings) (word : ℕ → ℕ) (held : HasPage word (page_of (to_memory s))) where
  held_at : (i : ℕ) → i < flash_page_words → word i ≡ get_or (page_of (to_memory s)) i 0
  held_at i h = held i h

  body_held : words_from word 2 15 ≡ (to_memory s).crc ∷ body_of (to_memory s)
  unfolding words_from body_of page_of memory_words
  body_held = ap₂ ◌∷◌ (held_at 2 (omega arith)) (
      ap₂ ◌∷◌ (held_at 3 (omega arith)) (
        ap₂ ◌∷◌ (held_at 4 (omega arith)) (
          ap₂ ◌∷◌ (held_at 5 (omega arith)) (
            ap₂ ◌∷◌ (held_at 6 (omega arith)) (
              ap₂ ◌∷◌ (held_at 7 (omega arith)) (
                ap₂ ◌∷◌ (held_at 8 (omega arith)) (
                  ap₂ ◌∷◌ (held_at 9 (omega arith)) (
                    ap₂ ◌∷◌ (held_at 10 (omega arith)) (
                      ap₂ ◌∷◌ (held_at 11 (omega arith)) (
                        ap₂ ◌∷◌ (held_at 12 (omega arith)) (
                          ap₂ ◌∷◌ (held_at 13 (omega arith)) (
                            ap₂ ◌∷◌ (held_at 14 (omega arith)) (
                              ap₂ ◌∷◌ (held_at 15 (omega arith))
                                (ap₂ ◌∷◌ (held_at 16 (omega arith)) (refl)))))))))))))))

  pub crc_held : calc_crc32 (words_from word 2 15) ≡ 0
  crc_held =
      ap calc_crc32 (body_held ∙ ap (λ (c : ℕ). c ∷ body_of (to_memory s)) (to_memory_crc s))
      ∙ crc_sealed (body_of (to_memory s))

  pub size_held : word 1 ≡ 15 + 65520 * 2 ^ 16
  unfolding page_of memory_words to_memory
  size_held = held_at 1 (omega arith)

  pub magic_held : word 0 ≡ magic
  unfolding page_of memory_words
  magic_held = held_at 0 (omega arith)

  pub memory_valid : is_memory_valid word ≡ true
  unfolding is_memory_valid
  memory_valid = rw (magic_held, size_held, crc_held)

  flags_held : word 3 ≡ usb_flags s
  unfolding page_of memory_words to_memory
  flags_held = held_at 3 (omega arith)

  dpad_held :
      s.dpad_type < 256
      → (if leb 15 (word 1 % 2 ^ 16) then byte_of (word 16) 0 else 0) ≡ s.dpad_type
  unfolding page_of memory_words to_memory
  dpad_held h = rw (size_held, held_at 16 (omega arith)) (omega arith)

  module _ (p q r t : Player) (all : s.players ≡ p ∷ q ∷ r ∷ t ∷ []) where
    modes_held :
        word 4 ≡ join_bytes p.detection_mode q.detection_mode r.detection_mode t.detection_mode
    unfolding page_of memory_words to_memory
    modes_held =
        held_at 4 (omega arith)
        ∙ ap (λ (ps : List Player). word_of (map (λ (p : Player). p.detection_mode) ps)) all

    levels_held :
        word 13
        ≡ join_bytes
            (bool_byte p.gpio_dir_output_high)
            (bool_byte q.gpio_dir_output_high)
            (bool_byte r.gpio_dir_output_high)
            (bool_byte t.gpio_dir_output_high)
    unfolding page_of memory_words to_memory
    levels_held =
        held_at 13 (omega arith)
        ∙ ap
            (λ (ps : List Player).
              word_of (map (λ (p : Player). bool_byte p.gpio_dir_output_high) ps))
            all

    buses_held :
        (word 5 ≡ p.gpio_a) × (word 6 ≡ q.gpio_a) × (word 7 ≡ r.gpio_a) × (word 8 ≡ t.gpio_a)
    unfolding page_of memory_words to_memory
    buses_held =
        let field = λ (i : ℕ).
          ap (λ (ps : List Player). get_or (map (λ (p : Player). p.gpio_a) ps) i 0) all in
        (
          held_at 5 (omega arith) ∙ field 0,
          held_at 6 (omega arith) ∙ field 1,
          held_at 7 (omega arith) ∙ field 2,
          held_at 8 (omega arith) ∙ field 3,
        )

    directions_held :
        (word 9 ≡ p.gpio_dir)
        × (word 10 ≡ q.gpio_dir)
        × (word 11 ≡ r.gpio_dir)
        × (word 12 ≡ t.gpio_dir)
    unfolding page_of memory_words to_memory
    directions_held =
        let field = λ (i : ℕ).
          ap (λ (ps : List Player). get_or (map (λ (p : Player). p.gpio_dir) ps) i 0) all in
        (
          held_at 9 (omega arith) ∙ field 0,
          held_at 10 (omega arith) ∙ field 1,
          held_at 11 (omega arith) ∙ field 2,
          held_at 12 (omega arith) ∙ field 3,
        )

    players_held :
        All IsPlayer (p ∷ q ∷ r ∷ t ∷ [])
        → read_player word 0 ∷ read_player word 1 ∷ read_player word 2 ∷ read_player word 3 ∷ []
          ≡ p ∷ q ∷ r ∷ t ∷ []
    players_held (hp, (hq, (hr, (ht, _)))) =
        let (m0, m1, m2, m3) = bytes_lem _ _ _ _ hp hq hr ht in
        let small = λ (p : Player). bool_byte_small p.gpio_dir_output_high in
        let (l0, l1, l2, l3) = bytes_lem _ _ _ _ (small p) (small q) (small r) (small t) in
        let mode = λ (i : ℕ). ap (λ (w : ℕ). byte_of w i) modes_held in
        let level = λ (i : ℕ). ap (λ (w : ℕ). byte_of w i) levels_held in
        let (b0, b1, b2, b3) = buses_held in
        let (d0, d1, d2, d3) = directions_held in
        ap₂ ◌∷◌ (read_player_lem word 0 p (mode 0 ∙ m0) b0 d0 (level 0 ∙ l0)) (
          ap₂ ◌∷◌ (read_player_lem word 1 q (mode 1 ∙ m1) b1 d1 (level 1 ∙ l1)) (
            ap₂ ◌∷◌ (read_player_lem word 2 r (mode 2 ∙ m2) b2 d2 (level 2 ∙ l2))
              (ap₂ ◌∷◌ (read_player_lem word 3 t (mode 3 ∙ m3) b3 d3 (level 3 ∙ l3)) refl)))

  all_held :
      (ps : List Player)
      → s.players ≡ ps
      → length ps ≡ num_players
      → All IsPlayer ps
      → read_player word 0 ∷ read_player word 1 ∷ read_player word 2 ∷ read_player word 3 ∷ [] ≡ ps
  all_held (p ∷ q ∷ r ∷ t ∷ []) same four fields = players_held p q r t same fields
  all_held [] same four fields = absurd (omega (arith, four))
  all_held (p ∷ []) same four fields = absurd (omega (arith, four))
  all_held (p ∷ q ∷ []) same four fields = absurd (omega (arith, four))
  all_held (p ∷ q ∷ r ∷ []) same four fields = absurd (omega (arith, four))
  all_held (p ∷ q ∷ r ∷ t ∷ u ∷ ps) same four fields = absurd (omega (arith, four))

  -- Where the flash holds the page that is programmed for settings, with four players and every mode
  -- and the type of the pad in a byte, reading gives these settings.
  pub read_settings-to_memory : IsStorable s → read_settings word ≡ some s
  unfolding read_settings page_of memory_words to_memory
  read_settings-to_memory h =
      let (c, m, w) = flags_lem s in
      let flag = λ (mask : ℕ). ap (λ (f : ℕ). ltb 0 (bit_and f mask)) flags_held in
      let players = all_held s.players refl h.four h.fields in
      let led = held_at 14 (omega arith) in
      let simple = held_at 15 (omega arith) in
      let dpad = dpad_held h.dpad in
      let cdc = flag 1 ∙ c in
      let msc = flag 2 ∙ m in
      let announce = flag 4 ∙ w in
      rw memory_valid (λ i. some (record {
        cdc_en = cdc i;
        msc_en = msc i;
        web_usb_announce_en = announce i;
        players = players i;
        usb_led_gpio = led i;
        simple_usb_led_gpio = simple i;
        dpad_type = dpad i;
      }))
