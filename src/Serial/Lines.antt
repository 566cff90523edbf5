-- ===== src/Serial/Lines.antt =====
-- SerialStreamParser::addChars: lines typed at the terminal, and what is put in the buffer.
use dream_pico_port.Prelude.{
  ℕ, ◌+◌, ◌≤◌, ◌<◌, ◌≡◌, ◌≢◌, refl, ap, ◌∙◌, true, false, List, [], ◌∷◌, ◌++◌, length, All, none,
  arith, append_assoc, length-append,
}
use dream_pico_port.Serial.{
  SerialStreamParser, add_char, add_chars, strchr, max_queue_size, binary_start_char, is_empty,
  pop_back, input_eol_chars, backspace_chars,
}
use dream_pico_port.Serial.Framing.{joined, Buffered, add_chars-append, Buffered-end}

is_empty-last : (xs : List ℕ) (x : ℕ) → is_empty (xs ++ x ∷ []) ≡ false
is_empty-last [] x = refl
is_empty-last (y ∷ xs) x = refl

pop_back-last : (xs : List ℕ) (x : ℕ) → pop_back (xs ++ x ∷ []) ≡ xs
pop_back-last [] x = refl
pop_back-last (y ∷ []) x = refl
pop_back-last (y ∷ z ∷ xs) x = ap (◌∷◌ y) (pop_back-last (z ∷ xs) x)

-- Outside a binary block, with nothing thrown away.
pub record IsReady (s : SerialStreamParser) : Type 0 where
  pub ascii : s.num_binary_parsed ≡ none
  pub sound : s.overflow_detected ≡ false

-- A character with no meaning of its own to the terminal.
pub record IsPlain (c : ℕ) : Type 0 where
  pub no_binary : c ≢ binary_start_char
  pub no_backspace : strchr backspace_chars c ≡ false
  pub no_eol : strchr input_eol_chars c ≡ false

module _ (s : SerialStreamParser) (ready : IsReady s)
    (room : length s.parser_rx < max_queue_size) where
  pub add_char-plain :
      (c : ℕ)
      → IsPlain c
      → add_char s c ≡ record s { parser_rx = s.parser_rx ++ c ∷ []; last_is_eol = false }
  unfolding add_char
  add_char-plain c p =
      ground (arith, ready.ascii, ready.sound, p.no_binary, p.no_backspace, p.no_eol)

  pub add_char-eol :
      (c : ℕ)
      → strchr input_eol_chars c ≡ true
      → c ≢ 0
      → s.last_is_eol ≡ false
      → add_char s c ≡ record s {
        end_markers = s.end_markers ++ length s.parser_rx ∷ [];
        parser_rx = s.parser_rx ++ 0 ∷ [];
        last_is_eol = true;
      }
  unfolding add_char
  add_char-eol c e n l = ground arith

  pub add_char-eol_again :
      (c : ℕ) → strchr input_eol_chars c ≡ true → c ≢ 0 → s.last_is_eol ≡ true → add_char s c ≡ s
  unfolding add_char
  add_char-eol_again c e n l = ground arith

  pub add_char-backspace :
      (c x : ℕ) (xs : List ℕ)
      → strchr backspace_chars c ≡ true
      → s.last_is_eol ≡ false
      → s.parser_rx ≡ xs ++ x ∷ []
      → add_char s c ≡ record s { parser_rx = xs }
  unfolding add_char
  add_char-backspace c x xs e l r = ground (
    arith,
    ready.ascii,
    ready.sound,
    ap is_empty r ∙ is_empty-last xs x,
    ap pop_back r ∙ pop_back-last xs x,
  )

-- Plain characters go to the end of the buffer.
add_chars-plain :
    (s : SerialStreamParser) (c : ℕ) (cs : List ℕ)
    → IsReady s
    → All IsPlain (c ∷ cs)
    → length s.parser_rx + length (c ∷ cs) ≤ max_queue_size
    → add_chars s (c ∷ cs) ≡ record s { parser_rx = s.parser_rx ++ (c ∷ cs); last_is_eol = false }
unfolding add_chars
add_chars-plain s c [] ready p room = add_char-plain s ready (omega arith) c p.0
add_chars-plain s c (d ∷ cs) ready p room =
    let typed = record s { parser_rx = s.parser_rx ++ c ∷ []; last_is_eol = false } in
    let longer : length (s.parser_rx ++ c ∷ []) ≡ length s.parser_rx + 1 =
      length-append s.parser_rx (c ∷ []) in
    ap (λ t. add_chars t (d ∷ cs)) (add_char-plain s ready (omega arith) c p.0)
    ∙ add_chars-plain typed d cs (record { ascii = ready.ascii; sound = ready.sound }) p.1
        (omega arith)
    ∙ ap (λ rx. record s { parser_rx = rx; last_is_eol = false })
        (append_assoc s.parser_rx (c ∷ []) (d ∷ cs))

-- A command line: some plain characters, and one of the two end of line characters.
pub record Line : Type 0 where
  pub first : ℕ
  pub rest : List ℕ
  pub eol : ℕ

abbrev pub text : Line → List ℕ
text l = l.first ∷ l.rest

abbrev pub typed : Line → List ℕ
typed l = text l ++ l.eol ∷ []

pub record IsLine (l : Line) : Type 0 where
  pub plain : All IsPlain (text l)
  pub ends_it : strchr input_eol_chars l.eol ≡ true
  pub no_nul : l.eol ≢ 0

-- What a parser is after some commands were ended, and that nothing else of it changed.
pub record IsTyped (s t : SerialStreamParser) (cmds : List (List ℕ)) (count : ℕ) : Type 0 where
  pub ready : IsReady t
  pub buffered : Buffered cmds [] t
  pub size : length t.parser_rx ≡ length s.parser_rx + count
  pub same_help : t.help_char ≡ s.help_char
  pub same_parsers : t.parsers ≡ s.parsers

-- Typing a line of plain characters and an end of line character, where the buffer has room for it,
-- ends the command that was begun.
pub add_chars-typed :
    (s : SerialStreamParser) (cmds : List (List ℕ)) (tail : List ℕ) (l : Line)
    → IsReady s
    → Buffered cmds tail s
    → IsLine l
    → length s.parser_rx + length (typed l) ≤ max_queue_size
    → IsTyped s (add_chars s (typed l)) (cmds ++ (tail ++ text l) ∷ []) (length (typed l))
add_chars-typed s cmds tail l ready b v room = rw typed_all (record {
  ready = record { ascii = ready.ascii; sound = ready.sound };
  buffered = Buffered-end cmds (tail ++ text l) mid begun;
  size = omega (arith, length-append (s.parser_rx ++ text l) (0 ∷ []), longer, count);
  same_help = refl;
  same_parsers = refl;
})
  where
    mid : SerialStreamParser
    mid = record s { parser_rx = s.parser_rx ++ text l; last_is_eol = false }

    begun : Buffered cmds (tail ++ text l) mid
    begun = record {
      rx = ap (λ rx. rx ++ text l) b.rx ∙ append_assoc (joined cmds) tail (text l);
      markers = b.markers;
    }

    longer : length (s.parser_rx ++ text l) ≡ length s.parser_rx + length (text l)
    longer = length-append s.parser_rx (text l)

    count : length (typed l) ≡ length (text l) + 1
    count = length-append (text l) (l.eol ∷ [])

    one : (t : SerialStreamParser) (c : ℕ) → add_chars t (c ∷ []) ≡ add_char t c
    one t c = unfold add_chars in refl

    typed_all : add_chars s (typed l) ≡ record mid {
      end_markers = mid.end_markers ++ length mid.parser_rx ∷ [];
      parser_rx = mid.parser_rx ++ 0 ∷ [];
      last_is_eol = true;
    }
    typed_all =
        add_chars-append s (text l) (l.eol ∷ [])
        ∙ ap (λ t. add_chars t (l.eol ∷ []))
            (add_chars-plain s l.first l.rest ready v.plain (omega (arith, count)))
        ∙ one mid l.eol
        ∙ add_char-eol mid (record { ascii = ready.ascii; sound = ready.sound })
            (omega (arith, longer, count)) l.eol v.ends_it v.no_nul refl
