-- ===== src/Serial.antt =====
-- src/hostLib/tty_parsers/SerialStreamParser.cpp and .hpp: the command parser of the serial terminal.
-- A char is a number below 256 (char is unsigned on the target); mNumBinaryParsed, -1 outside a
-- binary block, is an Option. A command handler is the characters that it answers to, and what
-- `process` does with a command is its result; printing is left out. Locking is left out.
pub mod Framing
pub mod Lines
pub mod Sessions
pub mod Erased
pub mod Limit
pub mod Tests
use dream_pico_port.Prelude.{
  ℕ, zero, suc, ◌+◌, ◌-◌, ◌%◌, ◌^◌, Bool, true, false, not, ◌&&◌, ◌||◌, ◌==◌, leb, u16, bit_or, ◌*◌,
  ◌<<<◌, if◌then◌else◌, List, [], ◌∷◌, ◌++◌, map, length, take, drop, Option, none, some,
}

-- strchr finds the terminator of its string too.
unfoldable pub strchr : List ℕ → ℕ → Bool
strchr [] c = c == 0
strchr (x ∷ xs) c = c == x || strchr xs c

abbrev pub backspace : ℕ
backspace = 0x08

abbrev pub binary_start_char : ℕ
binary_start_char = 0x05

abbrev pub whitespace_chars : List ℕ
whitespace_chars = b'\r' ∷ b'\n' ∷ b'\t' ∷ b' ' ∷ []

abbrev pub input_eol_chars : List ℕ
input_eol_chars = b'\r' ∷ b'\n' ∷ []

abbrev pub backspace_chars : List ℕ
backspace_chars = 0x08 ∷ 0x7F ∷ []

abbrev pub max_queue_size : ℕ
max_queue_size = 2048

pub record SerialStreamParser : Type 0 where
  pub parser_rx : List ℕ
  pub end_markers : List ℕ
  pub last_is_eol : Bool
  pub help_char : ℕ
  pub parsers : List (List ℕ)
  pub overflow_detected : Bool
  pub num_binary_parsed : Option ℕ
  pub stored_binary_size : ℕ
  pub num_binary_left : ℕ

unfoldable pub init : ℕ → List (List ℕ) → SerialStreamParser
init help_char parsers = record {
  parser_rx = [];
  end_markers = [];
  last_is_eol = false;
  help_char = help_char;
  parsers = parsers;
  overflow_detected = false;
  num_binary_parsed = none;
  stored_binary_size = 0;
  num_binary_left = 0;
}

abbrev pub pop_back : List ℕ → List ℕ
pop_back [] = []
pop_back (x ∷ []) = []
pop_back (x ∷ y ∷ xs) = x ∷ pop_back (y ∷ xs)

abbrev pub is_empty : List ℕ → Bool
is_empty [] = true
is_empty (x ∷ xs) = false

abbrev pub last_marker : List ℕ → Option ℕ
last_marker [] = none
last_marker (x ∷ []) = some x
last_marker (x ∷ y ∷ xs) = last_marker (y ∷ xs)

-- Overflow is flagged before a character is looked at.
flag_overflow : SerialStreamParser → ℕ → SerialStreamParser
flag_overflow s c =
    if leb max_queue_size (length s.parser_rx) && not (c == backspace)
    then record s { overflow_detected = true }
    else s

push : SerialStreamParser → ℕ → SerialStreamParser
push s c = record s { parser_rx = s.parser_rx ++ c ∷ [] }

push_unless_overflow : SerialStreamParser → ℕ → SerialStreamParser
unfolding push
push_unless_overflow s c = if s.overflow_detected then s else push s c

-- The size is stored, first byte high; the count of bytes left starts at the two of the size.
binary_sizes : ℕ → ℕ → SerialStreamParser → SerialStreamParser
binary_sizes (suc zero) c s = record s { stored_binary_size = u16 (c <<< 8) }
binary_sizes (suc (suc zero)) c s =
    let size = u16 (bit_or s.stored_binary_size c) in
    record s { stored_binary_size = size; num_binary_left = size }
binary_sizes n c s = s

binary_char : SerialStreamParser → ℕ → ℕ → SerialStreamParser
unfolding binary_sizes push_unless_overflow
binary_char s parsed c =
    let n = parsed + 1 in
    let s₁ = record s {
      num_binary_parsed = some n;
      num_binary_left = u16 (s.num_binary_left + 2 ^ 16 - 1);
    } in
    let s₂ = binary_sizes (suc parsed) c s₁ in
    let s₃ = if s₂.num_binary_left == 0 then record s₂ { num_binary_parsed = none } else s₂ in
    push_unless_overflow s₃ c

begin_binary : SerialStreamParser → ℕ → SerialStreamParser
unfolding push_unless_overflow
begin_binary s c =
    record (push_unless_overflow
      (record s { num_binary_parsed = some 0; stored_binary_size = 0; num_binary_left = 2 }) c) {
        last_is_eol = false;
      }

-- The command that overflowed is thrown away at its end of line; full commands stay.
overflow_char : SerialStreamParser → ℕ → SerialStreamParser
overflow_char s c =
    if strchr input_eol_chars c
    then record s {
      parser_rx = elim (last_marker s.end_markers) [
        | none ↦ []
        | some pos ↦ take (pos + 1) s.parser_rx
      ];
      overflow_detected = false;
      last_is_eol = true;
    }
    else record s { last_is_eol = false }

backspace_char : SerialStreamParser → SerialStreamParser
backspace_char s =
    if not s.last_is_eol && not (is_empty s.parser_rx)
    then record s { parser_rx = pop_back s.parser_rx }
    else s

eol_char : SerialStreamParser → SerialStreamParser
eol_char s = if s.last_is_eol then s else record s {
  end_markers = s.end_markers ++ length s.parser_rx ∷ [];
  parser_rx = s.parser_rx ++ 0 ∷ [];
  last_is_eol = true;
}

ascii_char : SerialStreamParser → ℕ → SerialStreamParser
unfolding begin_binary overflow_char backspace_char eol_char push
ascii_char s c =
    if c == binary_start_char
    then begin_binary s c
    else if s.overflow_detected
    then overflow_char s c
    else if strchr backspace_chars c
    then backspace_char s
    else if strchr input_eol_chars c
    then eol_char s
    else record (push s c) { last_is_eol = false }

unfoldable pub add_char : SerialStreamParser → ℕ → SerialStreamParser
unfolding flag_overflow binary_char ascii_char strchr
add_char s c = elim (flag_overflow s c).num_binary_parsed [
  | some parsed ↦ binary_char (flag_overflow s c) parsed c
  | none ↦ ascii_char (flag_overflow s c) c
]

unfoldable pub add_chars : SerialStreamParser → List ℕ → SerialStreamParser
unfolding add_char
add_chars s [] = s
add_chars s (c ∷ cs) = add_chars (add_char s c) cs

-- What comes of the command at the front: nothing for an empty one, the help text, or the command
-- handed to the handler with an index, or to none.
pub data Action : Type 0 where
  nothing help : Action
  submit : ℕ → List ℕ → Action
  invalid_command : List ℕ → Action

unfoldable pub skip_whitespace : List ℕ → List ℕ
unfolding strchr
skip_whitespace [] = []
skip_whitespace (c ∷ cs) =
    let rest = skip_whitespace cs in if strchr whitespace_chars c then rest else c ∷ cs

unfoldable pub find_handler : ℕ → List (List ℕ) → ℕ → Option ℕ
unfolding strchr
find_handler c [] i = none
find_handler c (p ∷ ps) i =
    let rest = find_handler c ps (i + 1) in if strchr p c then some i else rest

dispatch : SerialStreamParser → List ℕ → Action
unfolding find_handler
dispatch s [] = nothing
dispatch s (c ∷ cs) = if c == s.help_char then help else elim (find_handler c s.parsers 0) [
  | none ↦ invalid_command (c ∷ cs)
  | some i ↦ submit i (c ∷ cs)
]

-- What the code makes of a command line.
unfoldable pub action_of : SerialStreamParser → List ℕ → Action
unfolding dispatch skip_whitespace
action_of s line = dispatch s (skip_whitespace line)

-- A marker behind the end of the buffer is an iterator out of range: `none`. Where it is the end,
-- nothing is done, although a command is counted.
unfoldable pub process : SerialStreamParser → Option (SerialStreamParser × Action)
process s = elim s.end_markers [
  | [] ↦ some (s, nothing)
  | pos ∷ markers ↦
      if pos == length s.parser_rx
      then some (s, nothing)
      else if leb pos (length s.parser_rx)
      then some (
        record s {
          end_markers = map (λ m. m - (pos + 1)) markers;
          parser_rx = drop (pos + 1) s.parser_rx;
        },
        action_of s (take pos s.parser_rx),
      )
      else none
]

unfoldable pub reset : SerialStreamParser → SerialStreamParser
reset s = record s {
  parser_rx = [];
  end_markers = [];
  last_is_eol = false;
  overflow_detected = false;
  num_binary_parsed = none;
  stored_binary_size = 0;
  num_binary_left = 0;
}

unfoldable pub num_buffered_chars : SerialStreamParser → ℕ
num_buffered_chars s = length s.parser_rx

unfoldable pub num_buffered_cmds : SerialStreamParser → ℕ
num_buffered_cmds s = length s.end_markers
