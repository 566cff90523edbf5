-- ===== src/MapleBus/Crc.antt =====
-- src/hal/MapleBus/MapleBus.cpp, both overloads of crc8: the CRC byte of words.
use dream_pico_port.Prelude.{
  ℕ, ◌≡◌, ◌<◌, refl, sym, ap, ◌∙◌, u8, ◌>>>◌, bit_xor, List, [], ◌∷◌, ◌++◌, arith,
}
use dream_pico_port.Prelude.Bits.{bit_xor_lt}
use dream_pico_port.Prelude.Xor.{
  bit_xor_comm, bit_xor-zero, bit_xor_assoc, bit_xor_digits, bit_xor_interchange,
}
use dream_pico_port.MapleBus.{crc8_word, xor_words, crc8_words}

xor_zero_left : (a : ℕ) → bit_xor 0 a ≡ a
xor_zero_left a = bit_xor_comm 0 a ∙ bit_xor-zero a

abbrev byte : ℕ → ℕ → ℕ
byte k w = u8 (w >>> k)

byte-bit_xor : (k v w : ℕ) → byte k (bit_xor v w) ≡ bit_xor (byte k v) (byte k w)
byte-bit_xor k v w = ap u8 (bit_xor_digits k v w).0 ∙ (bit_xor_digits 8 (v >>> k) (w >>> k)).1

u8-bit_xor : (v w : ℕ) → u8 (bit_xor v w) ≡ bit_xor (u8 v) (u8 w)
u8-bit_xor v w = (bit_xor_digits 8 v w).1

-- The CRC so far is kept apart from the bytes of the word.
pub crc8_word_start : (w c : ℕ) → crc8_word w c ≡ bit_xor c (crc8_word w 0)
unfolding crc8_word
crc8_word_start w c =
    rw
      (
        xor_zero_left (u8 w),
        bit_xor_assoc c (u8 w) (byte 8 w),
        bit_xor_assoc c (bit_xor (u8 w) (byte 8 w)) (byte 16 w),
        bit_xor_assoc c (bit_xor (bit_xor (u8 w) (byte 8 w)) (byte 16 w)) (byte 24 w),
      )
      refl

pub crc8_word-bit_xor :
    (v w : ℕ) → crc8_word (bit_xor v w) 0 ≡ bit_xor (crc8_word v 0) (crc8_word w 0)
unfolding crc8_word
crc8_word-bit_xor v w =
    rw
      (
        xor_zero_left (u8 (bit_xor v w)),
        xor_zero_left (u8 v),
        xor_zero_left (u8 w),
        u8-bit_xor v w,
        byte-bit_xor 8 v w,
        byte-bit_xor 16 v w,
        byte-bit_xor 24 v w,
        bit_xor_interchange (u8 v) (u8 w) (byte 8 v) (byte 8 w),
        bit_xor_interchange (bit_xor (u8 v) (byte 8 v)) (bit_xor (u8 w) (byte 8 w)) (byte 16 v)
            (byte 16 w),
        bit_xor_interchange (bit_xor (bit_xor (u8 v) (byte 8 v)) (byte 16 v))
            (bit_xor (bit_xor (u8 w) (byte 8 w)) (byte 16 w)) (byte 24 v) (byte 24 w),
      )
      refl

pub crc8_word-zero : (c : ℕ) → crc8_word 0 c ≡ c
unfolding crc8_word
crc8_word-zero c = bit_xor-zero _ ∙ bit_xor-zero _ ∙ bit_xor-zero _ ∙ bit_xor-zero c

pub crc8_word_lt : (w c : ℕ) → c < 256 → crc8_word w c < 256
unfolding crc8_word
crc8_word_lt w c h =
    bit_xor_lt 8 _ _
      (bit_xor_lt 8 _ _ (bit_xor_lt 8 _ _ (bit_xor_lt 8 c (u8 w) h (omega arith)) (omega arith))
        (omega arith))
      (omega arith)

pub crc8_words_lt : (ws : List ℕ) (c : ℕ) → c < 256 → crc8_words ws c < 256
unfolding crc8_words
crc8_words_lt ws c h = crc8_word_lt (xor_words ws 0) c h

pub xor_words_start : (ws : List ℕ) (c : ℕ) → xor_words ws c ≡ bit_xor c (xor_words ws 0)
unfolding xor_words
xor_words_start [] c = sym (bit_xor-zero c)
xor_words_start (w ∷ ws) c =
    xor_words_start ws (bit_xor c w)
    ∙ bit_xor_assoc c w (xor_words ws 0)
    ∙ ap (bit_xor c) (sym (ap (λ t. xor_words ws t) (xor_zero_left w) ∙ xor_words_start ws w))

-- The CRC of words is their bytes, one word after the other, though the code condenses the words
-- first and takes the bytes of the result.
pub crc8_words-cons :
    (w : ℕ) (ws : List ℕ) (c : ℕ) → crc8_words (w ∷ ws) c ≡ crc8_words ws (crc8_word w c)
unfolding crc8_words xor_words
crc8_words-cons w ws c =
    let x = xor_words ws 0 in
    ap (λ t. crc8_word t c)
      (xor_words_start ws (bit_xor 0 w) ∙ ap (λ t. bit_xor t x) (xor_zero_left w))
    ∙ crc8_word_start (bit_xor w x) c
    ∙ ap (bit_xor c) (crc8_word-bit_xor w x)
    ∙ sym (bit_xor_assoc c (crc8_word w 0) (crc8_word x 0))
    ∙ ap (λ t. bit_xor t (crc8_word x 0)) (sym (crc8_word_start w c))
    ∙ sym (crc8_word_start x (crc8_word w c))

pub crc8_words_start : (ws : List ℕ) (c : ℕ) → crc8_words ws c ≡ bit_xor c (crc8_words ws 0)
unfolding crc8_words
crc8_words_start ws c = crc8_word_start (xor_words ws 0) c

crc8_word_damaged :
    (w damage c : ℕ) → crc8_word (bit_xor w damage) c ≡ bit_xor (crc8_word damage 0) (crc8_word w c)
crc8_word_damaged w damage c =
    crc8_word_start (bit_xor w damage) c
    ∙ ap (bit_xor c) (crc8_word-bit_xor w damage)
    ∙ sym (bit_xor_assoc c (crc8_word w 0) (crc8_word damage 0))
    ∙ bit_xor_comm (bit_xor c (crc8_word w 0)) (crc8_word damage 0)
    ∙ ap (bit_xor (crc8_word damage 0)) (sym (crc8_word_start w c))

-- Damage to one word shows in the CRC as the bytes of the damage.
pub crc8_words_damaged :
    (xs ys : List ℕ) (w damage c : ℕ)
    → crc8_words (xs ++ bit_xor w damage ∷ ys) c
      ≡ bit_xor (crc8_word damage 0) (crc8_words (xs ++ w ∷ ys) c)
crc8_words_damaged [] ys w damage c =
    crc8_words-cons (bit_xor w damage) ys c
    ∙ ap (crc8_words ys) (crc8_word_damaged w damage c)
    ∙ crc8_words_start ys (bit_xor (crc8_word damage 0) (crc8_word w c))
    ∙ bit_xor_assoc (crc8_word damage 0) (crc8_word w c) (crc8_words ys 0)
    ∙ ap (bit_xor (crc8_word damage 0))
        (sym (crc8_words-cons w ys c ∙ crc8_words_start ys (crc8_word w c)))
crc8_words_damaged (x ∷ xs) ys w damage c =
    crc8_words-cons x _ c
    ∙ crc8_words_damaged xs ys w damage (crc8_word x c)
    ∙ ap (bit_xor (crc8_word damage 0)) (sym (crc8_words-cons x _ c))
