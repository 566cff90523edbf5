-- ===== src/Serial/Sessions.antt =====
-- SerialStreamParser's addChars and process: a session at the terminal, lines typed and then
-- processed.
use dream_pico_port.Prelude.{
  ℕ, zero, suc, ◌+◌, ◌≤◌, ◌≡◌, refl, ap, ap₂, ◌∙◌, List, [], ◌∷◌, ◌++◌, map, length, All, Option,
  none, some, arith, append_assoc, append-nil, length-append,
}
use dream_pico_port.Serial.{
  SerialStreamParser, Action, init, add_chars, process, dispatch, skip_whitespace, action_of,
  max_queue_size,
}
use dream_pico_port.Serial.Framing.{joined, ends, Buffered, process-Buffered, add_chars-append}
use dream_pico_port.Serial.Lines.{IsReady, Line, text, typed, IsLine, IsTyped, add_chars-typed}

abbrev pub typed_lines : List Line → List ℕ
typed_lines [] = []
typed_lines (l ∷ ls) = typed l ++ typed_lines ls

-- Calls of `process`, with what each does; `none` if one faults.
unfoldable pub process_times : ℕ → SerialStreamParser → Option (SerialStreamParser × List Action)
process_times zero s = some (s, [])
process_times (suc n) s = elim (process s) [
  | none ↦ none
  | some (s', a) ↦ elim (process_times n s') [ none ↦ none | some (s'', as') ↦ some (s'', a ∷ as') ]
]

no_chars : (s : SerialStreamParser) → add_chars s [] ≡ s
unfolding add_chars
no_chars s = refl

add_chars-typed_lines :
    (s : SerialStreamParser) (cmds : List (List ℕ)) (ls : List Line)
    → IsReady s
    → Buffered cmds [] s
    → All IsLine ls
    → length s.parser_rx + length (typed_lines ls) ≤ max_queue_size
    → IsTyped s (add_chars s (typed_lines ls)) (cmds ++ map text ls) (length (typed_lines ls))
add_chars-typed_lines s cmds [] ready b v room = rw (no_chars s) (record {
  ready = ready;
  buffered = rw (append-nil cmds) b;
  size = omega arith;
  same_help = refl;
  same_parsers = refl;
})
add_chars-typed_lines s cmds (l ∷ ls) ready b v room =
    let count : length (typed_lines (l ∷ ls)) ≡ length (typed l) + length (typed_lines ls) =
      length-append (typed l) (typed_lines ls) in
    let one : IsTyped s (add_chars s (typed l)) (cmds ++ text l ∷ []) (length (typed l)) =
      add_chars-typed s cmds [] l ready b v.0 (omega (arith, count)) in
    let more = cmds ++ text l ∷ [] in
    let rest : IsTyped (add_chars s (typed l)) (add_chars (add_chars s (typed l)) (typed_lines ls))
        (more ++ map text ls) (length (typed_lines ls)) =
      add_chars-typed_lines (add_chars s (typed l)) more ls one.ready one.buffered v.1
        (omega (arith, one.size, count)) in
    rw (add_chars-append s (typed l) (typed_lines ls)) (record {
      ready = rest.ready;
      buffered = rw (← append_assoc cmds (text l ∷ []) (map text ls)) rest.buffered;
      size = omega (arith, rest.size, one.size, count);
      same_help = rest.same_help ∙ one.same_help;
      same_parsers = rest.same_parsers ∙ one.same_parsers;
    })

dispatch-same :
    (s t : SerialStreamParser) (line : List ℕ)
    → t.help_char ≡ s.help_char
    → t.parsers ≡ s.parsers
    → dispatch t line ≡ dispatch s line
unfolding dispatch
dispatch-same s t [] h p = refl
dispatch-same s t (c ∷ cs) h p = rw (h, p)

pub action_of-same :
    (s t : SerialStreamParser) (line : List ℕ)
    → t.help_char ≡ s.help_char
    → t.parsers ≡ s.parsers
    → action_of t line ≡ action_of s line
unfolding action_of
action_of-same s t line h p = dispatch-same s t (skip_whitespace line) h p

actions_of-same :
    (s t : SerialStreamParser) (cmds : List (List ℕ))
    → t.help_char ≡ s.help_char
    → t.parsers ≡ s.parsers
    → map (action_of t) cmds ≡ map (action_of s) cmds
actions_of-same s t [] h p = refl
actions_of-same s t (c ∷ cs) h p = ap₂ ◌∷◌ (action_of-same s t c h p) (actions_of-same s t cs h p)

process_times-Buffered :
    (s : SerialStreamParser) (cmds : List (List ℕ)) (tail : List ℕ)
    → Buffered cmds tail s
    → process_times (length cmds) s
      ≡ some (record s { end_markers = []; parser_rx = tail }, map (action_of s) cmds)
unfolding process_times
process_times-Buffered s [] tail b =
    ap (λ t. some (t, [])) (λ i. record s { end_markers = b.markers i; parser_rx = b.rx i })
process_times-Buffered s (c ∷ cmds) tail b =
    let taken = record s { end_markers = ends 0 cmds; parser_rx = joined cmds ++ tail } in
    let rest = process_times-Buffered taken cmds tail (record { rx = refl; markers = refl }) in
    rw (process-Buffered s c cmds tail b, process_times)
      (rw (rest, process_times)
        (ap
          (λ actions.
            some (record s { end_markers = []; parser_rx = tail }, action_of s c ∷ actions))
          (actions_of-same s taken cmds refl refl)))

texts-actions :
    (s t : SerialStreamParser) (ls : List Line)
    → t.help_char ≡ s.help_char
    → t.parsers ≡ s.parsers
    → map (action_of t) (map text ls) ≡ map (λ l. action_of s (text l)) ls
texts-actions s t [] h p = refl
texts-actions s t (l ∷ ls) h p =
    ap₂ ◌∷◌ (action_of-same s t (text l) h p) (texts-actions s t ls h p)

length-texts : (ls : List Line) → length (map text ls) ≡ length ls
length-texts [] = refl
length-texts (l ∷ ls) = ap (λ (n : ℕ). suc n) (length-texts ls)

-- Lines of one or more plain characters and an end of line character are typed at a new parser, and
-- all fit its buffer. As many calls of `process` as lines return, act on the lines one by one in
-- order, each as its text, and leave nothing buffered.
pub session_lem :
    (help_char : ℕ) (parsers : List (List ℕ)) (ls : List Line)
    → All IsLine ls
    → length (typed_lines ls) ≤ max_queue_size
    → (s : SerialStreamParser) × (process_times
          (length ls)
          (add_chars (init help_char parsers) (typed_lines ls))
        ≡ some (s, map (λ l. action_of (init help_char parsers) (text l)) ls))
      × (s.parser_rx ≡ [])
      × (s.end_markers ≡ [])
session_lem help_char parsers ls v room = (
  record (add_chars (init help_char parsers) (typed_lines ls)) { end_markers = []; parser_rx = [] },
  rw (← length-texts ls) (
        process_times-Buffered (add_chars (init help_char parsers) (typed_lines ls)) (map text ls)
          [] done.buffered)
      ∙ ap
          (λ actions. some (
            record (add_chars (init help_char parsers) (typed_lines ls)) {
              end_markers = [];
              parser_rx = [];
            },
            actions,
          ))
          (texts-actions (init help_char parsers)
            (add_chars (init help_char parsers) (typed_lines ls)) ls done.same_help
            done.same_parsers),
  refl,
  refl,
)
  where
    done :
        IsTyped
          (init help_char parsers)
          (add_chars (init help_char parsers) (typed_lines ls))
          (map text ls)
          (length (typed_lines ls))
    done =
        add_chars-typed_lines (init help_char parsers) [] ls
          (unfold init in record { ascii = refl; sound = refl })
          (unfold init in record { rx = refl; markers = refl }) v
          (unfold init in (omega (arith, room)))
