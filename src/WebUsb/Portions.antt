-- ===== src/WebUsb/Portions.antt =====
-- WebUsbProcessorBase's addData and process: bytes that come in and are processed in portions.
use dream_pico_port.Prelude.{
  ℕ, ◌+◌, ◌-◌, ◌≤◌, ◌<◌, ◌≡◌, refl, sym, ap, ◌∙◌, ltb, List, [], ◌∷◌, ◌++◌, set, length, Bool-cases,
  inl, inr, ltb→lt, some, arith, take-length, false,
}
use dream_pico_port.WebUsb.{
  WebUsbProcessor, Request, reset, max_buffer_size, size_field, parse_magic, check_sizes,
}
use dream_pico_port.WebUsb.Loop.{add_data, process}
use dream_pico_port.WebUsb.Automaton.{magic_byte, size_byte, byte, feed, feed-append}
use dream_pico_port.WebUsb.Magic.{
  byte-magic, byte-size, size_byte-last, size_byte-more, magic_byte-bound, parse_magic-more,
  parse_magic-done,
}
use dream_pico_port.WebUsb.Reception.{IsReceiving, IsReceiving-low, check_sizes-IsChecked}
use dream_pico_port.WebUsb.Consumption.{byte-more, byte-last, stored-IsReceiving}
use dream_pico_port.WebUsb.Equivalence.{process-feed}

check_sizes-IsReceiving : (s : WebUsbProcessor) → s.rcv_idx ≡ 8 → IsReceiving (check_sizes s).0
check_sizes-IsReceiving s h =
    let c = check_sizes-IsChecked s in
    elim (Bool-cases (check_sizes s).1) [
      | inl e ↦
          let g = c.good e in
          record {
            least = λ l. g.2;
            stored = λ l. omega (arith, g.0, ap length g.1);
            partial = λ l. omega (arith, g.2, ap length g.1);
          }
      | inr e ↦ IsReceiving-low (check_sizes s).0 (omega (arith, c.bad e))
    ]

size_byte-IsReceiving :
    (s : WebUsbProcessor) (b : ℕ) → 4 ≤ s.rcv_idx → s.rcv_idx < 8 → IsReceiving (size_byte s b)
size_byte-IsReceiving s b l h = elim (Bool-cases (ltb s.rcv_idx 7)) [
  | inl k ↦
      let lt : s.rcv_idx < 7 = ltb→lt s.rcv_idx 7 k in
      rw (size_byte-more s b lt) (IsReceiving-low _ (omega arith))
  | inr k ↦
      let last : s.rcv_idx ≡ 7 = ground arith in
      rw (size_byte-last s b last) (check_sizes-IsReceiving _ (omega arith))
]

byte-IsReceiving : (s : WebUsbProcessor) (b : ℕ) → IsReceiving s → IsReceiving (byte s b).0
byte-IsReceiving s b w = elim (Bool-cases (ltb s.rcv_idx 4)) [
  | inl k ↦
      let lt : s.rcv_idx < 4 = ltb→lt s.rcv_idx 4 k in
      rw (byte-magic s b lt)
        (IsReceiving-low (magic_byte s b) (omega (arith, magic_byte-bound s b lt)))
  | inr k ↦ elim (Bool-cases (ltb s.rcv_idx 8)) [
    | inl m ↦
        let lt : s.rcv_idx < 8 = ltb→lt s.rcv_idx 8 m in
        let ge : 4 ≤ s.rcv_idx = ground arith in
        rw (byte-size s b ge lt) (size_byte-IsReceiving s b ge lt)
    | inr m ↦
        let ge : 8 ≤ s.rcv_idx = ground arith in
        elim (Bool-cases (ltb (length s.buffer + 1) s.rcv_size)) [
          | inl few ↦
              let lt : length s.buffer + 1 < s.rcv_size = ground arith in
              rw (byte-more s w ge b lt) (stored-IsReceiving s w ge b lt)
          | inr full ↦
              let eq : length s.buffer + 1 ≡ s.rcv_size = ground (arith, w.partial ge) in
              rw (byte-last s w ge b eq) (IsReceiving-low _ (unfold reset in omega arith))
        ]
  ]
]

magic_byte-incoming :
    (s : WebUsbProcessor) (b : ℕ) → (magic_byte s b).incoming_buffer ≡ s.incoming_buffer
unfolding magic_byte reset
magic_byte-incoming s b = ground arith

parse_magic-incoming :
    (bs : List ℕ) (s : WebUsbProcessor) → (parse_magic s bs).0.incoming_buffer ≡ s.incoming_buffer
parse_magic-incoming [] s = unfold parse_magic in refl
parse_magic-incoming (b ∷ bs) s = elim (Bool-cases (ltb s.rcv_idx 4)) [
  | inl k ↦
      rw (parse_magic-more s b bs (ltb→lt s.rcv_idx 4 k))
        (parse_magic-incoming bs (magic_byte s b) ∙ magic_byte-incoming s b)
  | inr k ↦ let ge : 4 ≤ s.rcv_idx = ground arith in rw (parse_magic-done s (b ∷ bs) ge) refl
]

check_sizes-incoming : (s : WebUsbProcessor) → (check_sizes s).0.incoming_buffer ≡ s.incoming_buffer
unfolding check_sizes
check_sizes-incoming s =
    let kept : (parse_magic (reset (record s { rcv_size = size_field s }))
          s.size_bytes).0.incoming_buffer
        ≡ s.incoming_buffer =
      parse_magic-incoming s.size_bytes (reset (record s { rcv_size = size_field s })) in
    ground (arith, kept)

byte-incoming : (s : WebUsbProcessor) (b : ℕ) → (byte s b).0.incoming_buffer ≡ s.incoming_buffer
unfolding byte reset
byte-incoming s b =
    let sized = record s {
      rcv_idx = s.rcv_idx + 1;
      size_bytes = set s.size_bytes (s.rcv_idx - 4) b;
    } in
    ground (arith, check_sizes-incoming sized)

feed-IsReceiving :
    (s : WebUsbProcessor) (bs : List ℕ)
    → IsReceiving s
    → IsReceiving (feed s bs).0 × ((feed s bs).0.incoming_buffer ≡ s.incoming_buffer)
unfolding feed
feed-IsReceiving s [] w = (w, refl)
feed-IsReceiving s (b ∷ bs) w =
    let rest = feed-IsReceiving (byte s b).0 bs (byte-IsReceiving s b w) in
    (rest.0, rest.1 ∙ byte-incoming s b)

pub add_data-room :
    (s : WebUsbProcessor) (bs : List ℕ)
    → length s.incoming_buffer + length bs ≤ max_buffer_size
    → add_data s bs ≡ record s { incoming_buffer = s.incoming_buffer ++ bs }
unfolding add_data
add_data-room s bs room =
    let fits : ltb max_buffer_size (length s.incoming_buffer + length bs) ≡ false = ground arith in
    rw fits (λ i. record s {
      incoming_buffer = s.incoming_buffer ++ take-length (length bs) bs (omega arith) i;
    })

add_data-empty :
    (s : WebUsbProcessor) (bs : List ℕ)
    → s.incoming_buffer ≡ []
    → length bs ≤ max_buffer_size
    → add_data s bs ≡ record s { incoming_buffer = bs }
add_data-empty s bs e fits =
    add_data-room s bs (omega (arith, ap length e))
    ∙ (λ i. record s { incoming_buffer = e i ++ bs })

-- What `process` makes of bytes where nothing waits.
process_arrived :
    (s : WebUsbProcessor) (bs : List ℕ)
    → IsReceiving s
    → s.incoming_buffer ≡ []
    → process (record s { incoming_buffer = bs }) ≡ some (feed s bs)
process_arrived s bs w e =
    process-feed (record s { incoming_buffer = bs })
      (record { least = w.least; stored = w.stored; partial = w.partial })
    ∙ ap (λ t. some (feed t bs)) (λ i. record s { incoming_buffer = sym e i })

-- Where nothing waits, and the bytes stored of a packet that has begun fit its header (IsReceiving),
-- bytes that addData takes in two portions, processed after each, are processed as if `process` had
-- been called after both only: the same requests, and the same state in the end, of which both
-- conditions hold again. Together the portions are at most the 1100 bytes that the buffer takes.
pub process_portions :
    (s : WebUsbProcessor) (xs ys : List ℕ)
    → IsReceiving s
    → s.incoming_buffer ≡ []
    → length xs + length ys ≤ max_buffer_size
    → (t u : WebUsbProcessor) × (rs qs : List Request) × (process (add_data s xs) ≡ some (t, rs))
      × (process (add_data t ys) ≡ some (u, qs))
      × (process (add_data (add_data s xs) ys) ≡ some (u, rs ++ qs))
      × IsReceiving u
      × (u.incoming_buffer ≡ [])
process_portions s xs ys w e room =
    let t = (feed s xs).0 in
    let (receiving, same) = feed-IsReceiving s xs w in
    let waits = same ∙ e in
    let (after, same_after) = feed-IsReceiving t ys receiving in
    let first = add_data-empty s xs e (omega arith) in
    let both : add_data (add_data s xs) ys ≡ record s { incoming_buffer = xs ++ ys } =
      ap (λ r. add_data r ys) first ∙ add_data-room (record s { incoming_buffer = xs }) ys room in
    (
      t,
      (feed t ys).0,
      (feed s xs).1,
      (feed t ys).1,
      ap process first ∙ process_arrived s xs w e,
      ap process (add_data-empty t ys waits (omega arith)) ∙ process_arrived t ys receiving waits,
      ap process both ∙ process_arrived s (xs ++ ys) w e ∙ ap some (feed-append s xs ys),
      after,
      same_after ∙ waits,
    )
