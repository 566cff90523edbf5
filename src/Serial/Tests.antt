-- ===== src/Serial/Tests.antt =====
-- A terminal with two command handlers, and lines typed at it.
use dream_pico_port.Prelude.{
  ℕ, ◌≤◌, ◌≡◌, ◌≢◌, length, refl, List, [], ◌∷◌, map, All, some, false, true, none, arith,
}
use dream_pico_port.Serial.{
  SerialStreamParser, nothing, init, add_chars, max_queue_size, process, action_of,
  num_buffered_cmds, strchr, backspace, backspace_chars, input_eol_chars, binary_start_char,
}
use dream_pico_port.Serial.Lines.{Line, IsLine, IsPlain, text}
use dream_pico_port.Serial.Sessions.{typed_lines, process_times, session_lem}
use dream_pico_port.Serial.Erased.{process-erased}
use dream_pico_port.Serial.Limit.{add_chars_limit}

abbrev handlers : List (List ℕ)
handlers = (b'X' ∷ b'x' ∷ []) ∷ (b'S' ∷ []) ∷ []

abbrev lines : List Line
lines =
    record { first = b'X'; rest = b'1' ∷ []; eol = b'\n' }
    ∷ record { first = b' '; rest = b'h' ∷ []; eol = b'\r' }
    ∷ []

plain :
    (c : ℕ)
    → c ≢ binary_start_char
    → strchr backspace_chars c ≡ false
    → strchr input_eol_chars c ≡ false
    → IsPlain c
plain c a b e = record { no_binary = a; no_backspace = b; no_eol = e }

lines-IsLine : All IsLine lines
unfolding strchr
lines-IsLine = (
  record {
    plain = (plain b'X' (omega arith) refl refl, (plain b'1' (omega arith) refl refl, tt));
    ends_it = refl;
    no_nul = omega arith;
  },
  (
    record {
      plain = (plain b' ' (omega arith) refl refl, (plain b'h' (omega arith) refl refl, tt));
      ends_it = refl;
      no_nul = omega arith;
    },
    tt,
  ),
)

session_example :
    (s : SerialStreamParser) × (process_times 2 (add_chars (init b'h' handlers) (typed_lines lines))
      ≡ some (s, map (λ l. action_of (init b'h' handlers) (text l)) lines))
    × (s.parser_rx ≡ [])
    × (s.end_markers ≡ [])
session_example = session_lem b'h' handlers lines lines-IsLine (omega arith)

-- One command is complete.
abbrev one_command : SerialStreamParser
one_command = record {
  parser_rx = b'X' ∷ b'1' ∷ 0 ∷ [];
  end_markers = 2 ∷ [];
  last_is_eol = true;
  help_char = b'h';
  parsers = handlers;
  overflow_detected = false;
  num_binary_parsed = none;
  stored_binary_size = 0;
  num_binary_left = 0;
}

abbrev erasing : List ℕ
erasing = b'S' ∷ backspace ∷ backspace ∷ []

process-erased_example :
    let held = add_chars one_command erasing in
    (process held ≡ some (held, nothing))
    × (num_buffered_cmds held ≡ 1)
    × (process (add_chars held (b'z' ∷ []))
        ≡ some (
          record one_command { parser_rx = []; end_markers = []; last_is_eol = false },
          action_of one_command (b'X' ∷ b'1' ∷ []),
        ))
process-erased_example =
    process-erased one_command (b'X' ∷ b'1' ∷ []) b'S' b'z' (record { ascii = refl; sound = refl })
      (unfold strchr in plain b'S' (omega arith) refl refl)
      (unfold strchr in plain b'z' (omega arith) refl refl) (record { rx = refl; markers = refl })
      (omega arith)

add_chars_limit_example :
    length (add_chars one_command (b'a' ∷ b'\n' ∷ 0x7F ∷ [])).parser_rx ≤ max_queue_size
add_chars_limit_example =
    add_chars_limit (b'a' ∷ b'\n' ∷ 0x7F ∷ []) one_command
      (omega arith, (omega arith, (omega arith, tt))) (omega arith)
