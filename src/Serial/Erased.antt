-- ===== src/Serial/Erased.antt =====
-- SerialStreamParser::addChars and process: backspaces behind the terminator of a complete command.
use dream_pico_port.Prelude.{
  ℕ, ◌+◌, ◌<◌, ◌≡◌, refl, ap, ◌∙◌, false, List, [], ◌∷◌, ◌++◌, length, some, arith, append-nil,
  drop, drop-length, take-append, length-append,
}
use dream_pico_port.Serial.{
  SerialStreamParser, add_char, add_chars, process, action_of, num_buffered_cmds, max_queue_size,
  backspace, nothing, strchr,
}
use dream_pico_port.Serial.Framing.{Buffered, process_front}
use dream_pico_port.Serial.Lines.{IsReady, IsPlain, add_char-plain, add_char-backspace}

two_chars :
    (s : SerialStreamParser) (a b : ℕ) → add_chars s (a ∷ b ∷ []) ≡ add_char (add_char s a) b
unfolding add_chars
two_chars s a b = refl

-- Two backspaces after one plain character take the terminator of the last command off the buffer,
-- its marker stays.
pub erased_terminator :
    (s : SerialStreamParser) (cmd : List ℕ) (c : ℕ)
    → IsReady s
    → IsPlain c
    → s.parser_rx ≡ cmd ++ 0 ∷ []
    → length s.parser_rx + 1 < max_queue_size
    → add_chars s (c ∷ backspace ∷ backspace ∷ [])
      ≡ record s { parser_rx = cmd; last_is_eol = false }
unfolding add_chars
erased_terminator s cmd c ready p rx room =
    let one = record s { parser_rx = s.parser_rx ++ c ∷ []; last_is_eol = false } in
    let two = record s { last_is_eol = false } in
    let ok : IsReady one = record { ascii = ready.ascii; sound = ready.sound } in
    let ok' : IsReady two = record { ascii = ready.ascii; sound = ready.sound } in
    ap (λ t. add_char (add_char t backspace) backspace) (add_char-plain s ready (omega arith) c p)
    ∙ ap (λ t. add_char t backspace)
        (add_char-backspace one ok (omega (arith, length-append s.parser_rx (c ∷ []))) backspace c
          s.parser_rx (unfold strchr in refl) refl refl)
    ∙ add_char-backspace two ok' (omega arith) backspace 0 cmd (unfold strchr in refl) refl rx

-- A marker at the end of the buffer stops `process`.
stuck :
    (t : SerialStreamParser)
    → t.end_markers ≡ length t.parser_rx ∷ []
    → (process t ≡ some (t, nothing)) × (num_buffered_cmds t ≡ 1)
unfolding process num_buffered_cmds
stuck t e = (rw (e, process) (ground arith), ap length e)

drop-end : (xs : List ℕ) (x : ℕ) → drop (length xs + 1) (xs ++ x ∷ []) ≡ []
drop-end xs x =
    drop-length (length xs + 1) (xs ++ x ∷ []) (omega (arith, length-append xs (x ∷ [])))

-- The next character stands where the terminator was.
released :
    (t : SerialStreamParser) (z : ℕ)
    → IsReady t
    → IsPlain z
    → length t.parser_rx < max_queue_size
    → t.end_markers ≡ length t.parser_rx ∷ []
    → process (add_chars t (z ∷ []))
      ≡ some (
        record t { parser_rx = []; end_markers = []; last_is_eol = false },
        action_of t t.parser_rx,
      )
unfolding add_chars action_of
released t z ready p room e =
    let typed = record t { parser_rx = t.parser_rx ++ z ∷ []; last_is_eol = false } in
    ap process (add_char-plain t ready room z p)
    ∙ process_front typed (length t.parser_rx) [] e
        (omega (arith, length-append t.parser_rx (z ∷ [])))
    ∙ (λ i. some (
      record typed { parser_rx = drop-end t.parser_rx z i; end_markers = [] },
      action_of t (take-append t.parser_rx (z ∷ []) i),
    ))

-- Where the buffer holds exactly one complete command, and outside binary blocks and overflow and
-- with room for two more characters, one plain character and two backspaces hold the command back:
-- `process` does nothing, although the command is still counted. The next plain character takes the
-- place of the terminator: `process` then acts on the command, and that character is lost.
pub process-erased :
    (s : SerialStreamParser) (cmd : List ℕ) (c z : ℕ)
    → IsReady s
    → IsPlain c
    → IsPlain z
    → Buffered (cmd ∷ []) [] s
    → length s.parser_rx + 1 < max_queue_size
    → let held = add_chars s (c ∷ backspace ∷ backspace ∷ []) in
      (process held ≡ some (held, nothing))
      × (num_buffered_cmds held ≡ 1)
      × (process (add_chars held (z ∷ []))
          ≡ some
              (record s { parser_rx = []; end_markers = []; last_is_eol = false }, action_of s cmd))
unfolding action_of
process-erased s cmd c z ready p q b room =
    let end : SerialStreamParser = record s { parser_rx = cmd; last_is_eol = false } in
    let e : add_chars s (c ∷ backspace ∷ backspace ∷ []) ≡ end =
      erased_terminator s cmd c ready p (b.rx ∙ append-nil (cmd ++ 0 ∷ [])) room in
    let marker : end.end_markers ≡ length cmd ∷ [] =
      b.markers ∙ ap (λ (n : ℕ). n ∷ []) (omega arith) in
    let again : IsReady end = record { ascii = ready.ascii; sound = ready.sound } in
    let short : length cmd < max_queue_size =
      omega (arith, ap length (b.rx ∙ append-nil (cmd ++ 0 ∷ [])), length-append cmd (0 ∷ [])) in
    let (quiet, counted) = stuck end marker in
    rw e (quiet, counted, released end z again q short marker)
