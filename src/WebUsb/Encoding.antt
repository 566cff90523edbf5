-- ===== src/WebUsb/Encoding.antt =====
-- WebUsbProcessorBase's sendPkt and flushOutgoing against process: packets sent and received.
use dream_pico_port.Prelude.{
  ℕ, suc, ◌+◌, ◌-◌, ◌^◌, ◌≤◌, ◌<◌, ◌≡◌, refl, sym, ap, ◌∙◌, bit_xor, u16, List, [], ◌∷◌, ◌++◌, map,
  length, take, drop, All, take-append, drop-append, append_assoc, append-nil, length-append, some,
  arith,
}
use dream_pico_port.NetworkBytes.{uint16_to_bytes, compute_crc16, crc_seed}
use dream_pico_port.NetworkBytes.Laws.{compute_crc16-append, compute_crc16_lt}
use dream_pico_port.WebUsb.{
  WebUsbProcessor, Request, Write, webusb_magic_value, decode, requests_of, reset,
}
use dream_pico_port.WebUsb.Loop.{prepend, process}
use dream_pico_port.WebUsb.Sending.{
  payload_length, concat, crc_of_pieces, pkt_size, build_pkt, send_pkt, flush_outgoing, flush_queue,
}
use dream_pico_port.WebUsb.Automaton.{feed}
use dream_pico_port.WebUsb.Reception.{IsReceiving, IsReceiving-low}
use dream_pico_port.WebUsb.Consumption.{feed_complete}
use dream_pico_port.WebUsb.Equivalence.{process-feed, feed-nil}
use dream_pico_port.WebUsb.Decoding.{
  IsAddress, covered, body, decode-body, length-tail_crc, IsAddress-nonempty,
}
use dream_pico_port.WebUsb.Headers.{IsIdle, header_done, feed-header}

payload_length-concat :
    (n : ℕ) (ps : List (List ℕ))
    → n + length (concat ps) < 2 ^ 16
    → payload_length n ps ≡ n + length (concat ps)
unfolding payload_length
payload_length-concat n [] h = omega arith
payload_length-concat n (p ∷ ps) h =
    let e : u16 (n + length p) ≡ n + length p = omega (arith, length-append p (concat ps)) in
    rw e (
      payload_length-concat (n + length p) ps (omega (arith, length-append p (concat ps)))
      ∙ omega (arith, length-append p (concat ps)))

crc_of_pieces-concat :
    (crc : ℕ) (ps : List (List ℕ)) → crc_of_pieces crc ps ≡ compute_crc16 crc (concat ps)
unfolding crc_of_pieces
crc_of_pieces-concat crc [] = unfold compute_crc16 in refl
crc_of_pieces-concat crc (p ∷ ps) =
    crc_of_pieces-concat (compute_crc16 crc p) ps ∙ sym (compute_crc16-append crc p (concat ps))

-- What is to be sent: an address, a command and the pieces of a payload.
pub record Message : Type 0 where
  pub to : List ℕ
  pub command : ℕ
  pub pieces : List (List ℕ)

abbrev pub request_of : Message → Request
request_of m = record { address = m.to; cmd = m.command; payload = concat m.pieces }

abbrev pub packet_of : Message → List ℕ
packet_of m = build_pkt m.to m.command m.pieces

-- A message with an address of the format, that fits the 16 bits of a size.
pub record IsMessage (m : Message) : Type 0 where
  pub address_ok : IsAddress 9 m.to
  pub fits : length m.to + length (concat m.pieces) + 3 < 2 ^ 16

after_header :
    (a b c d : List ℕ)
    → (webusb_magic_value ++ (a ++ (b ++ c))) ++ d ≡ webusb_magic_value ++ (a ++ (b ++ (c ++ d)))
after_header a b c d =
    ap (λ (l : List ℕ). webusb_magic_value ++ l)
      (append_assoc a (b ++ c) d ∙ ap (λ (l : List ℕ). a ++ l) (append_assoc b c d))

module _ (m : Message) (v : IsMessage m) where
  pkt_size-count : pkt_size m.to m.pieces ≡ length m.to + length (concat m.pieces) + 3
  unfolding pkt_size
  pkt_size-count =
      let v' = v.fits in
      let e = payload_length-concat 0 m.pieces (omega arith) in rw e (omega arith)

  address_nonempty : 1 ≤ length m.to
  address_nonempty = IsAddress-nonempty 8 m.to v.address_ok

  -- The bytes of a packet are its header and its body.
  build_pkt-body :
      packet_of m
      ≡ webusb_magic_value
        ++ (uint16_to_bytes (pkt_size m.to m.pieces)
            ++ (uint16_to_bytes (bit_xor (pkt_size m.to m.pieces) 0xFFFF)
                ++ body m.to m.command (concat m.pieces)))
  unfolding build_pkt
  build_pkt-body =
      let whole : crc_of_pieces (compute_crc16 crc_seed (m.to ++ m.command ∷ [])) m.pieces
          ≡ compute_crc16 crc_seed (covered m.to m.command (concat m.pieces)) =
        crc_of_pieces-concat (compute_crc16 crc_seed (m.to ++ m.command ∷ [])) m.pieces
        ∙ sym (compute_crc16-append crc_seed (m.to ++ m.command ∷ []) (concat m.pieces))
        ∙ ap (compute_crc16 crc_seed) (append_assoc m.to (m.command ∷ []) (concat m.pieces)) in
      ap
        (λ (l : List ℕ).
          webusb_magic_value
          ++ (uint16_to_bytes (pkt_size m.to m.pieces)
              ++ (uint16_to_bytes (bit_xor (pkt_size m.to m.pieces) 0xFFFF) ++ l)))
        (ap (λ (crc : ℕ). m.to ++ (m.command ∷ (concat m.pieces ++ uint16_to_bytes crc))) whole
          ∙ sym (
              append_assoc m.to (m.command ∷ concat m.pieces) (
                uint16_to_bytes
                  (compute_crc16 crc_seed (covered m.to m.command (concat m.pieces))))))

  length-body :
      length (body m.to m.command (concat m.pieces)) ≡ length m.to + length (concat m.pieces) + 3
  length-body =
      let xs = covered m.to m.command (concat m.pieces) in
      length-tail_crc xs (compute_crc16 crc_seed xs) (compute_crc16_lt xs crc_seed (omega arith))
      ∙ omega (arith, length-append m.to (m.command ∷ concat m.pieces))

  -- A packet that is fed to an idle machine is one request, and leaves it idle.
  pub feed-packet :
      (s : WebUsbProcessor) (rest : List ℕ)
      → IsIdle s
      → (t : WebUsbProcessor) × IsIdle t
        × (feed s (packet_of m ++ rest) ≡ prepend (request_of m ∷ []) (feed t rest))
  feed-packet s rest i = (
    reset done,
    idle_again,
    (ap (λ (l : List ℕ). feed s (l ++ rest)) build_pkt-body
        ∙ ap (feed s)
            (after_header (uint16_to_bytes n) (uint16_to_bytes (bit_xor n 0xFFFF)) bytes rest)
        ∙ feed-header s n (bytes ++ rest) i least (omega (arith, v.fits, pkt_size-count))
        ∙ feed_complete (n - 1) done (bytes ++ rest) receiving (omega arith) (omega (arith, least))
            (omega (arith, least, count, length-append bytes rest))
        ∙ taken),
  )
    where
      n : ℕ
      n = pkt_size m.to m.pieces

      bytes : List ℕ
      bytes = body m.to m.command (concat m.pieces)

      done : WebUsbProcessor
      done = header_done s n

      least : 4 ≤ n
      least = omega (arith, address_nonempty, pkt_size-count)

      count : length bytes ≡ n
      count = length-body ∙ sym pkt_size-count

      taken :
          prepend
            (requests_of (decode (take (suc (n - 1)) (bytes ++ rest))))
            (feed (reset done) (drop (suc (n - 1)) (bytes ++ rest)))
          ≡ prepend (request_of m ∷ []) (feed (reset done) rest)
      taken =
          let all : suc (n - 1) ≡ length bytes = omega (arith, least, count) in
          rw
            (
              all,
              take-append bytes rest,
              drop-append bytes rest,
              decode-body m.to m.command (concat m.pieces) v.address_ok,
            )
            refl

      receiving : IsReceiving done
      receiving = record {
        least = λ l. least;
        stored = λ l. omega arith;
        partial = λ l. omega (arith, least);
      }

      idle_again : IsIdle (reset done)
      idle_again = unfold reset in record { idle_idx = refl; four_sizes = refl }

-- Packets one after the other, fed to an idle machine, are the requests in order.
pub feed-packets :
    (ms : List Message) (s : WebUsbProcessor)
    → All IsMessage ms
    → IsIdle s
    → (t : WebUsbProcessor) × IsIdle t
      × (feed s (concat (map packet_of ms)) ≡ (t, map request_of ms))
feed-packets [] s v i = (s, i, feed-nil s)
feed-packets (m ∷ ms) s v i =
    let one = feed-packet m v.0 s (concat (map packet_of ms)) i in
    let rest = feed-packets ms one.0 v.1 one.1 in
    (rest.0, rest.1, one.2 ∙ ap (prepend (request_of m ∷ [])) rest.2)

-- Messages sent with nothing queued before.
unfoldable pub send_all : WebUsbProcessor → List Message → WebUsbProcessor
send_all s [] = s
send_all s (m ∷ ms) = send_all (send_pkt s m.to m.command m.pieces) ms

send_pkt-queue :
    (s : WebUsbProcessor) (m : Message)
    → length s.outgoing_queue < 10
    → (send_pkt s m.to m.command m.pieces).outgoing_queue ≡ s.outgoing_queue ++ packet_of m ∷ []
unfolding send_pkt
send_pkt-queue s m h = ground arith

send_all-queue :
    (ms : List Message) (s : WebUsbProcessor)
    → length s.outgoing_queue + length ms ≤ 10
    → (send_all s ms).outgoing_queue ≡ s.outgoing_queue ++ map packet_of ms
unfolding send_all
send_all-queue [] s h = sym (append-nil s.outgoing_queue)
send_all-queue (m ∷ ms) s h =
    let queued = send_pkt-queue s m (omega arith) in
    send_all-queue ms (send_pkt s m.to m.command m.pieces)
      (omega (arith, ap length queued, length-append s.outgoing_queue (packet_of m ∷ [])))
    ∙ ap (λ q. q ++ map packet_of ms) queued
    ∙ append_assoc s.outgoing_queue (packet_of m ∷ []) (map packet_of ms)

abbrev pub bytes_of : List Write → List ℕ
bytes_of [] = []
bytes_of (w ∷ ws) = w.bytes ++ bytes_of ws

flush_queue-bytes :
    (q : List (List ℕ)) (s : WebUsbProcessor) → bytes_of (flush_queue s q).1 ≡ concat q
unfolding flush_queue
flush_queue-bytes [] s = refl
flush_queue-bytes (p ∷ ps) s =
    ap (λ (l : List ℕ). p ++ l) (flush_queue-bytes ps (record s { outgoing_queue = ps }))

-- Up to ten messages, each with an address of the packet format and a size that fits 16 bits, are
-- sent with nothing queued before, and flushed. A processor that is between packets and has the
-- bytes written waiting makes of them, in order, one request for each message, with its address,
-- its command and its payload, and is between packets again.
pub exchange_lem :
    (sender receiver : WebUsbProcessor) (ms : List Message)
    → All IsMessage ms
    → sender.outgoing_queue ≡ []
    → length ms ≤ 10
    → IsIdle receiver
    → receiver.incoming_buffer ≡ bytes_of (flush_outgoing (send_all sender ms)).1
    → (t : WebUsbProcessor) × IsIdle t × (process receiver ≡ some (t, map request_of ms))
exchange_lem sender receiver ms v q n i e =
    let idle_now : IsIdle (record receiver { incoming_buffer = [] }) = record {
      idle_idx = i.idle_idx;
      four_sizes = i.four_sizes;
    } in
    let written : bytes_of (flush_outgoing (send_all sender ms)).1 ≡ concat (map packet_of ms) =
      unfold flush_outgoing in
      (flush_queue-bytes (send_all sender ms).outgoing_queue (send_all sender ms)
        ∙ ap concat (
            send_all-queue ms sender (omega (arith, ap length q))
            ∙ ap (λ l. l ++ map packet_of ms) q)) in
    let all = feed-packets ms (record receiver { incoming_buffer = [] }) v idle_now in
    (
      all.0,
      all.1,
      process-feed receiver (IsReceiving-low receiver (omega (arith, i.idle_idx)))
          ∙ ap some (ap (feed (record receiver { incoming_buffer = [] })) (e ∙ written) ∙ all.2),
    )
