-- ===== src/WebUsb/Automaton.antt =====
-- Reception as a machine that takes one byte at a time, with no portions, buffers or loops: what
-- the loops of `process` are compared with.
use dream_pico_port.Prelude.{
  ℕ, ◌+◌, ◌-◌, ◌≡◌, refl, ◌==◌, leb, ltb, if◌then◌else◌, List, [], ◌∷◌, ◌++◌, set, get_or,
  append_assoc,
}
use dream_pico_port.WebUsb.{
  WebUsbProcessor, reset, check_sizes, decode, requests_of, webusb_magic_value,
}
use dream_pico_port.WebUsb.Loop.{Received, prepend}

unfoldable pub magic_byte : WebUsbProcessor → ℕ → WebUsbProcessor
magic_byte s b =
    if b == get_or webusb_magic_value s.rcv_idx 0
    then record s { rcv_idx = s.rcv_idx + 1 }
    else reset s

unfoldable pub size_byte : WebUsbProcessor → ℕ → WebUsbProcessor
size_byte s b =
    let t = record s { size_bytes = set s.size_bytes (s.rcv_idx - 4) b; rcv_idx = s.rcv_idx + 1 } in
    if s.rcv_idx == 7 then (check_sizes t).0 else t

unfoldable pub packet_byte : WebUsbProcessor → ℕ → Received
packet_byte s b =
    let t = record s { buffer = s.buffer ++ b ∷ []; rcv_idx = s.rcv_idx + 1 } in
    if leb s.rcv_size (s.rcv_idx + 1 - 8) then (reset t, requests_of (decode t.buffer)) else (t, [])

unfoldable pub byte : WebUsbProcessor → ℕ → Received
unfolding magic_byte size_byte packet_byte
byte s b =
    if ltb s.rcv_idx 4
    then (magic_byte s b, [])
    else if ltb s.rcv_idx 8
    then (size_byte s b, [])
    else packet_byte s b

unfoldable pub feed : WebUsbProcessor → List ℕ → Received
feed s [] = (s, [])
feed s (b ∷ bs) = prepend (byte s b).1 (feed (byte s b).0 bs)

-- Portions do not matter.
pub feed-append :
    (s : WebUsbProcessor) (xs ys : List ℕ)
    → feed s (xs ++ ys) ≡ prepend (feed s xs).1 (feed (feed s xs).0 ys)
unfolding feed
feed-append s [] ys = refl
feed-append s (x ∷ xs) ys =
    rw
      (
        feed-append (byte s x).0 xs ys,
        append_assoc (byte s x).1 (feed (byte s x).0 xs).1 (feed (feed (byte s x).0 xs).0 ys).1,
      )
      refl
