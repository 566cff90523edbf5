-- ===== src/Serial/Limit.antt =====
-- SerialStreamParser::addChars: how long mParserRx gets.
use dream_pico_port.Prelude.{
  ℕ, zero, suc, ◌+◌, ◌≤◌, ◌≡◌, ◌≢◌, ap, false, List, [], ◌∷◌, ◌++◌, length, All, length-append,
  length-take, Option, none, some, Option-cases, if◌then◌else◌, inl, inr, arith,
}
use dream_pico_port.Serial.{
  SerialStreamParser, flag_overflow, binary_char, ascii_char, pop_back, last_marker, add_char,
  add_chars, backspace, max_queue_size,
}

length-pop_back : (xs : List ℕ) → length (pop_back xs) ≤ length xs
length-pop_back [] = omega arith
length-pop_back (x ∷ []) = omega arith
length-pop_back (x ∷ y ∷ xs) = omega (arith, length-pop_back (y ∷ xs))

-- A full buffer has its overflow flagged.
IsFlagged : SerialStreamParser → Type 0
IsFlagged s = (s.overflow_detected ≡ false) → suc (length s.parser_rx) ≤ max_queue_size

flag_overflow-IsFlagged :
    (s : SerialStreamParser) (c : ℕ) → c ≢ backspace → IsFlagged (flag_overflow s c)
unfolding flag_overflow IsFlagged
flag_overflow-IsFlagged s c n e = ground arith

flag_overflow-backspace : (s : SerialStreamParser) → flag_overflow s backspace ≡ s
unfolding flag_overflow
flag_overflow-backspace s = ground arith

flag_overflow-same : (s : SerialStreamParser) (c : ℕ) → (flag_overflow s c).parser_rx ≡ s.parser_rx
unfolding flag_overflow
flag_overflow-same s c = ground arith

-- A byte of a binary block is stored, unless an overflow is flagged.
binary_char-rx :
    (s : SerialStreamParser) (n c : ℕ)
    → (binary_char s n c).parser_rx
      ≡ (if s.overflow_detected then s.parser_rx else s.parser_rx ++ c ∷ [])
unfolding binary_char
binary_char-rx s zero c = ground arith
binary_char-rx s (suc zero) c = ground arith
binary_char-rx s (suc (suc n)) c = ground arith

binary_char_limit :
    (s : SerialStreamParser) (n c : ℕ)
    → IsFlagged s
    → length s.parser_rx ≤ max_queue_size
    → length (binary_char s n c).parser_rx ≤ max_queue_size
unfolding IsFlagged
binary_char_limit s n c f h =
    rw (binary_char-rx s n c) (ground (arith, length-append s.parser_rx (c ∷ [])))

ascii_char_limit :
    (s : SerialStreamParser) (c : ℕ)
    → IsFlagged s
    → length s.parser_rx ≤ max_queue_size
    → length (ascii_char s c).parser_rx ≤ max_queue_size
unfolding ascii_char IsFlagged
ascii_char_limit s c f h = elim (Option-cases (last_marker s.end_markers)) [
  | inl e ↦ ground (
    arith,
    e,
    length-append s.parser_rx (c ∷ []),
    length-append s.parser_rx (0 ∷ []),
    length-pop_back s.parser_rx,
  )
  | inr (pos, e) ↦ ground (
    arith,
    e,
    length-append s.parser_rx (c ∷ []),
    length-append s.parser_rx (0 ∷ []),
    length-pop_back s.parser_rx,
    length-take (pos + 1) s.parser_rx,
  )
]

abbrev by_mode : SerialStreamParser → ℕ → Option ℕ → SerialStreamParser
by_mode s c none = ascii_char s c
by_mode s c (some parsed) = binary_char s parsed c

module _ (s : SerialStreamParser) (c : ℕ) where
  add_char-ascii :
      (flag_overflow s c).num_binary_parsed ≡ none → add_char s c ≡ ascii_char (flag_overflow s c) c
  unfolding add_char
  add_char-ascii e = ap (by_mode (flag_overflow s c) c) e

  add_char-binary :
      (n : ℕ)
      → (flag_overflow s c).num_binary_parsed ≡ some n
      → add_char s c ≡ binary_char (flag_overflow s c) n c
  unfolding add_char
  add_char-binary n e = ap (by_mode (flag_overflow s c) c) e

add_char_limit :
    (s : SerialStreamParser) (c : ℕ)
    → c ≢ backspace
    → length s.parser_rx ≤ max_queue_size
    → length (add_char s c).parser_rx ≤ max_queue_size
add_char_limit s c n h =
    let f = flag_overflow-IsFlagged s c n in
    let same = ap length (flag_overflow-same s c) in
    elim (Option-cases (flag_overflow s c).num_binary_parsed) [
      | inl e ↦
          rw (add_char-ascii s c e) (ascii_char_limit (flag_overflow s c) c f (omega (arith, same)))
      | inr (parsed, e) ↦
          rw (add_char-binary s c parsed e)
            (binary_char_limit (flag_overflow s c) parsed c f (omega (arith, same)))
    ]

-- Any characters but 0x08 leave at most 2048 in the buffer, where there were at most so many.
pub add_chars_limit :
    (cs : List ℕ) (s : SerialStreamParser)
    → All (λ c. c ≢ backspace) cs
    → length s.parser_rx ≤ max_queue_size
    → length (add_chars s cs).parser_rx ≤ max_queue_size
unfolding add_chars
add_chars_limit [] s n h = h
add_chars_limit (c ∷ cs) s n h = add_chars_limit cs (add_char s c) n.1 (add_char_limit s c n.0 h)

-- In a binary block, with the buffer full and no overflow flagged, a character 0x08 is stored all the
-- same, past the limit.
add_char_over :
    (s : SerialStreamParser) (n : ℕ)
    → s.num_binary_parsed ≡ some n
    → s.overflow_detected ≡ false
    → length s.parser_rx ≡ max_queue_size
    → length (add_char s backspace).parser_rx ≡ max_queue_size + 1
add_char_over s n e o h =
    let same : flag_overflow s backspace ≡ s = flag_overflow-backspace s in
    let stored = binary_char-rx s n backspace in
    rw (add_char-binary s backspace n (rw same e), same, stored, o)
      (omega (arith, length-append s.parser_rx (backspace ∷ [])))
