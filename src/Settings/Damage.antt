-- ===== src/Settings/Damage.antt =====
-- src/hal/System/DppSettings.cpp, readSettingsAtAddr: one damaged word.
use dream_pico_port.Prelude.{
  ℕ, ◌≤◌, ◌<◌, ◌≡◌, ◌≢◌, sym, ◌∙◌, ◌==◌, none, Bool-cases, inl, inr, arith, ==_iff,
}
use dream_pico_port.Settings.{DppSettings}
use dream_pico_port.Settings.Crc.{crc_from_changed}
use dream_pico_port.Settings.Layout.{
  to_memory, page_of, calc_crc32, words_from, is_memory_valid, read_settings,
}
use dream_pico_port.Settings.RoundTrip.{HasPage, crc_held, size_held, magic_held}

-- Where one word of those that the CRC covers, or the CRC itself, is not what was programmed, and the
-- rest of the flash is as it was, nothing is read.
pub read_settings-damaged :
    (s : DppSettings) (word damaged : ℕ → ℕ) (k : ℕ)
    → HasPage word (page_of (to_memory s))
    → 2 ≤ k
    → k < 17
    → ((i : ℕ) → i ≢ k → damaged i ≡ word i)
    → damaged k ≢ word k
    → read_settings damaged ≡ none
unfolding read_settings is_memory_valid
read_settings-damaged s word damaged k held low high same other =
    let size = same 1 (λ p. omega (arith, p)) ∙ size_held s word held in
    let start = same 0 (λ p. omega (arith, p)) ∙ magic_held s word held in
    elim (Bool-cases (calc_crc32 (words_from damaged 2 15) == 0)) [
      | inl zero_crc ↦
          let equal = (==_iff _ _).0 zero_crc ∙ sym (crc_held s word held) in
          absurd (
            other (
              unfold calc_crc32 in
              crc_from_changed damaged word k 0xFFFFFFFF 2 15 same low (omega arith) equal))
      | inr bad ↦ rw (start, size, bad)
    ]
