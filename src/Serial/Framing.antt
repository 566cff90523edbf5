-- ===== src/Serial/Framing.antt =====
-- SerialStreamParser's mParserRx and mEndMarkers as the commands in them, and process on the first
-- one.
use dream_pico_port.Prelude.{
  ℕ, suc, ◌+◌, ◌-◌, ◌<◌, ◌≡◌, refl, sym, ap, ap₂, ◌∙◌, true, List, [], ◌∷◌, ◌++◌, map, length, take,
  drop, some, arith, append_assoc, append-nil, length-append, take-append,
}
use dream_pico_port.Serial.{SerialStreamParser, add_char, add_chars, process, action_of}

-- Complete commands, each with its terminator.
abbrev pub joined : List (List ℕ) → List ℕ
joined [] = []
joined (c ∷ cs) = c ++ (0 ∷ joined cs)

-- The positions of the terminators, for a buffer that starts at `k`.
abbrev pub ends : ℕ → List (List ℕ) → List ℕ
ends k [] = []
ends k (c ∷ cs) = (k + length c) ∷ ends (k + length c + 1) cs

-- The buffer holds complete commands, each with its marker, and the start of a command.
pub record Buffered (cmds : List (List ℕ)) (tail : List ℕ) (s : SerialStreamParser) : Type 0 where
  pub rx : s.parser_rx ≡ joined cmds ++ tail
  pub markers : s.end_markers ≡ ends 0 cmds

ends-shift :
    (d k e : ℕ) (cmds : List (List ℕ)) → e ≡ k + d → map (λ m. m - d) (ends e cmds) ≡ ends k cmds
ends-shift d k e [] h = refl
ends-shift d k e (c ∷ cs) h =
    ap₂ ◌∷◌ (omega arith) (ends-shift d (k + length c + 1) (e + length c + 1) cs (omega arith))

drop-append_suc : (xs ys : List ℕ) (y : ℕ) → drop (length xs + 1) (xs ++ (y ∷ ys)) ≡ ys
drop-append_suc [] ys y = refl
drop-append_suc (x ∷ xs) ys y =
    let e : length (x ∷ xs) + 1 ≡ suc (length xs + 1) = omega arith in
    rw e (drop-append_suc xs ys y)

-- A marker inside the buffer ends the command that is taken.
pub process_front :
    (s : SerialStreamParser) (pos : ℕ) (markers : List ℕ)
    → s.end_markers ≡ pos ∷ markers
    → pos < length s.parser_rx
    → process s
      ≡ some (
        record s {
          end_markers = map (λ m. m - (pos + 1)) markers;
          parser_rx = drop (pos + 1) s.parser_rx;
        },
        action_of s (take pos s.parser_rx),
      )
unfolding process
process_front s pos markers e h = rw (e, process) (ground arith)

-- Where the buffer holds complete commands with their markers, and the start of a further one,
-- `process` acts on the first command and takes exactly it off the buffer.
pub process-Buffered :
    (s : SerialStreamParser) (c : List ℕ) (cmds : List (List ℕ)) (tail : List ℕ)
    → Buffered (c ∷ cmds) tail s
    → process s
      ≡ some
          (record s { end_markers = ends 0 cmds; parser_rx = joined cmds ++ tail }, action_of s c)
process-Buffered s c cmds tail b = cc (
  process_front s (length c) (ends (length c + 1) cmds) markers
      (rw rx (omega (arith, length-append c (0 ∷ (joined cmds ++ tail))))),
  ends-shift (length c + 1) 0 (length c + 1) cmds (omega arith),
  ap (take (length c)) rx,
  take-append c (0 ∷ (joined cmds ++ tail)),
  ap (drop (length c + 1)) rx,
  drop-append_suc c (joined cmds ++ tail) 0,
)
  where
    rx : s.parser_rx ≡ c ++ (0 ∷ (joined cmds ++ tail))
    rx = b.rx ∙ append_assoc c (0 ∷ joined cmds) tail

    zero_add : (n : ℕ) → 0 + n ≡ n
    zero_add n = omega arith

    markers : s.end_markers ≡ length c ∷ ends (length c + 1) cmds
    markers = b.markers ∙ ap (λ (n : ℕ). n ∷ ends (n + 1) cmds) (zero_add (length c))

-- Characters may come in any portions.
pub add_chars-append :
    (s : SerialStreamParser) (xs ys : List ℕ)
    → add_chars s (xs ++ ys) ≡ add_chars (add_chars s xs) ys
unfolding add_chars
add_chars-append s [] ys = refl
add_chars-append s (x ∷ xs) ys = add_chars-append (add_char s x) xs ys

joined-append : (cs ds : List (List ℕ)) → joined (cs ++ ds) ≡ joined cs ++ joined ds
joined-append [] ds = refl
joined-append (c ∷ cs) ds =
    ap (λ l. c ++ (0 ∷ l)) (joined-append cs ds) ∙ sym (append_assoc c (0 ∷ joined cs) (joined ds))

ends-append :
    (k : ℕ) (cs : List (List ℕ)) (c : List ℕ)
    → ends k (cs ++ c ∷ []) ≡ ends k cs ++ (k + length (joined cs) + length c) ∷ []
ends-append k [] c = ap (λ (n : ℕ). n ∷ []) (omega arith)
ends-append k (d ∷ cs) c = ap (◌∷◌ (k + length d)) (
    ends-append (k + length d + 1) cs c
    ∙ ap (λ (n : ℕ). ends (k + length d + 1) cs ++ n ∷ [])
        (omega (arith, length-append d (0 ∷ joined cs))))

-- Ending the command that was begun makes it the last complete one.
pub Buffered-end :
    (cmds : List (List ℕ)) (tail : List ℕ) (s : SerialStreamParser)
    → Buffered cmds tail s
    → Buffered (cmds ++ tail ∷ []) [] (record s {
      end_markers = s.end_markers ++ length s.parser_rx ∷ [];
      parser_rx = s.parser_rx ++ 0 ∷ [];
      last_is_eol = true;
    })
Buffered-end cmds tail s b = record {
  rx =
      rw (b.rx, joined-append cmds (tail ∷ []), append-nil (joined cmds ++ (tail ++ 0 ∷ [])))
        (append_assoc (joined cmds) tail (0 ∷ []));
  markers =
      rw (b.markers, ends-append 0 cmds tail)
        (ap (λ (n : ℕ). ends 0 cmds ++ n ∷ [])
          (omega (arith, ap length b.rx, length-append (joined cmds) tail)));
}
