-- ===== src/Settings/Crc.antt =====
-- src/hal/System/DppSettings.cpp: the CRC of the settings.
use dream_pico_port.Prelude.{
  ℕ, zero, suc, ◌+◌, ◌≤◌, ◌<◌, ◌≡◌, ◌≢◌, refl, sym, ap, ◌∙◌, ◌==◌, bit_xor, List, [], ◌∷◌, inl, inr,
  Bool-cases, arith, ==_iff,
}
use dream_pico_port.Prelude.Bits.{bit_xor_cancel}
use dream_pico_port.Prelude.Xor.{bit_xor_comm, bit_xor_assoc, bit_xor_self}
use dream_pico_port.Settings.Layout.{crc_from, calc_crc32, words_from}

crc_from-xor : (a b : ℕ) (ws : List ℕ) → crc_from (bit_xor a b) ws ≡ bit_xor a (crc_from b ws)
unfolding crc_from
crc_from-xor a b [] = refl
crc_from-xor a b (w ∷ ws) =
    ap (λ (c : ℕ). crc_from c ws) (bit_xor_assoc a b w) ∙ crc_from-xor a (bit_xor b w) ws

-- Words behind their own CRC have the CRC 0.
pub crc_sealed : (ws : List ℕ) → calc_crc32 (calc_crc32 ws ∷ ws) ≡ 0
unfolding calc_crc32 crc_from
crc_sealed ws =
    ap (λ (c : ℕ). crc_from c ws) (bit_xor_comm 0xFFFFFFFF (crc_from 0xFFFFFFFF ws))
    ∙ crc_from-xor (crc_from 0xFFFFFFFF ws) 0xFFFFFFFF ws
    ∙ bit_xor_self (crc_from 0xFFFFFFFF ws)

xor_inj : (a b c : ℕ) → bit_xor a c ≡ bit_xor b c → a ≡ b
xor_inj a b c e = sym (bit_xor_cancel a c) ∙ ap (λ (t : ℕ). bit_xor t c) e ∙ bit_xor_cancel b c

crc_from_inj : (a b : ℕ) (ws : List ℕ) → crc_from a ws ≡ crc_from b ws → a ≡ b
unfolding crc_from
crc_from_inj a b [] e = e
crc_from_inj a b (w ∷ ws) e = xor_inj a b w (crc_from_inj (bit_xor a w) (bit_xor b w) ws e)

words_from_same :
    (word word' : ℕ → ℕ) (start n : ℕ)
    → ((i : ℕ) → start ≤ i → word i ≡ word' i)
    → words_from word start n ≡ words_from word' start n
unfolding words_from
words_from_same word word' start zero same = refl
words_from_same word word' start (suc n) same =
    ground
      (arith, same start, words_from_same word word' (suc start) n (λ i h. same i (omega arith)))

-- Two runs of words that differ in one place have different CRCs.
pub crc_from_changed :
    (word word' : ℕ → ℕ) (k a start n : ℕ)
    → ((i : ℕ) → i ≢ k → word i ≡ word' i)
    → start ≤ k
    → k < start + n
    → crc_from a (words_from word start n) ≡ crc_from a (words_from word' start n)
    → word k ≡ word' k
unfolding words_from crc_from
crc_from_changed word word' k a start zero same low high e = absurd (omega arith)
crc_from_changed word word' k a start (suc n) same low high e = elim (Bool-cases (start == k)) [
  | inl here ↦
      let at_start = (==_iff start k).0 here in
      let rest =
        words_from_same word word' (suc start) n (λ i h. same i (λ p. omega (arith, at_start))) in
      let crcs = crc_from_inj _ _ (words_from word' (suc start) n) (rw rest at e) in
      let words : word start ≡ word' start =
        xor_inj (word start) (word' start) a
          (bit_xor_comm (word start) a ∙ crcs ∙ bit_xor_comm a (word' start)) in
      rw at_start at words
  | inr before ↦
      let next = same start (λ p. ground (arith, p, before)) in
      crc_from_changed word word' k (bit_xor a (word' start)) (suc start) n same
        (ground (arith, before)) (omega arith) (rw next at e)
]
