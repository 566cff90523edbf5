-- ===== src/WebUsb/Queues.antt =====
-- WebUsbProcessorBase's mIncomingBuffer and mOutgoingQueue, and externalReset.
use dream_pico_port.Prelude.{
  ℕ, zero, suc, ◌+◌, ◌-◌, ◌≤◌, ◌≡◌, refl, ap, ◌∙◌, true, false, min, max, List, [], ◌∷◌, ◌++◌,
  length, take, length-append, length-take, replicate, append_assoc, sym, none, some, arith,
}
use dream_pico_port.WebUsb.{WebUsbProcessor, Write, max_outgoing_size, max_buffer_size}
use dream_pico_port.WebUsb.Loop.{add_data}
use dream_pico_port.WebUsb.Sending.{
  send_pkt, build_pkt, zero_writes, external_reset, purge, cleared,
}
use dream_pico_port.WebUsb.Encoding.{bytes_of}

-- Data that comes in, or a packet that is sent.
pub data Event : Type 0 where
  data_added : List ℕ → Event
  packet_sent : List ℕ → ℕ → List (List ℕ) → Event

unfoldable pub happen : WebUsbProcessor → List Event → WebUsbProcessor
happen s [] = s
happen s (data_added bs ∷ es) = happen (add_data s bs) es
happen s (packet_sent a c ps ∷ es) = happen (send_pkt s a c ps) es

pub record IsBounded (s : WebUsbProcessor) : Type 0 where
  pub incoming : length s.incoming_buffer ≤ max_buffer_size
  pub outgoing : length s.outgoing_queue ≤ max_outgoing_size

take_limit :
    (n : ℕ) (xs bs : List ℕ)
    → length xs ≤ max_buffer_size
    → n ≤ max_buffer_size - length xs
    → length (xs ++ take n bs) ≤ max_buffer_size
take_limit n xs bs h k = omega (arith, length-append xs (take n bs), length-take n bs)

add_data-IsBounded : (s : WebUsbProcessor) (bs : List ℕ) → IsBounded s → IsBounded (add_data s bs)
unfolding add_data
add_data-IsBounded s bs v = record {
  incoming = take_limit _ s.incoming_buffer bs v.incoming (ground arith);
  outgoing = v.outgoing;
}

send_pkt-IsBounded :
    (s : WebUsbProcessor) (a : List ℕ) (c : ℕ) (ps : List (List ℕ))
    → IsBounded s
    → IsBounded (send_pkt s a c ps)
unfolding send_pkt
send_pkt-IsBounded s a c ps v = record {
  incoming = ground (arith, v.incoming);
  outgoing = ground (arith, v.outgoing, length-append s.outgoing_queue (build_pkt a c ps ∷ []));
}

-- However much data comes in and however many packets are sent, at most 1100 bytes wait to be
-- processed and at most ten packets to be written, if that was so before.
pub happen-IsBounded :
    (es : List Event) (s : WebUsbProcessor) → IsBounded s → IsBounded (happen s es)
unfolding happen
happen-IsBounded [] s v = v
happen-IsBounded (data_added bs ∷ es) s v =
    happen-IsBounded es (add_data s bs) (add_data-IsBounded s bs v)
happen-IsBounded (packet_sent a c ps ∷ es) s v =
    happen-IsBounded es (send_pkt s a c ps) (send_pkt-IsBounded s a c ps v)

abbrev zeros : ℕ → List ℕ
zeros n = replicate n 0

replicate_add : (m n : ℕ) → zeros m ++ zeros n ≡ zeros (m + n)
replicate_add zero n = ap zeros (omega arith)
replicate_add (suc m) n =
    let e : suc m + n ≡ suc (m + n) = omega arith in rw e (ap (◌∷◌ 0) (replicate_add m n))

bytes_of-append : (ws vs : List Write) → bytes_of (ws ++ vs) ≡ bytes_of ws ++ bytes_of vs
bytes_of-append [] vs = refl
bytes_of-append (w ∷ ws) vs =
    ap (λ (l : List ℕ). w.bytes ++ l) (bytes_of-append ws vs)
    ∙ sym (append_assoc w.bytes (bytes_of ws) (bytes_of vs))

zero_writes-bytes : (fuel n : ℕ) → n ≤ fuel → bytes_of (zero_writes fuel n) ≡ zeros n
unfolding zero_writes
zero_writes-bytes zero zero h = refl
zero_writes-bytes zero (suc n) h = absurd (omega arith)
zero_writes-bytes (suc fuel) zero h = refl
zero_writes-bytes (suc fuel) (suc n) h =
    let e : min 512 (suc n) + (suc n - min 512 (suc n)) ≡ suc n = omega arith in
    ap (λ (l : List ℕ). zeros (min 512 (suc n)) ++ l)
      (zero_writes-bytes fuel (suc n - min 512 (suc n)) (omega arith))
    ∙ replicate_add (min 512 (suc n)) (suc n - min 512 (suc n))
    ∙ ap zeros e

purge-some :
    (s : WebUsbProcessor) (n : ℕ)
    → s.last_send_size ≡ some n
    → purge s true ≡ (
      record s { last_send_size = none },
      zero_writes (max n 256) (max n 256)
          ++ record { bytes = zeros 16; flush = true; task = false } ∷ [],
    )
unfolding purge
purge-some s n e = rw (e, purge) refl

-- A reset that sends zeros after a packet of `n` bytes writes `max n 256` of them and 16 more, and
-- leaves nothing received, nothing queued and no size to purge.
external_reset-zeros :
    (s : WebUsbProcessor) (n : ℕ)
    → s.last_send_size ≡ some n
    → (bytes_of (external_reset s true false).1 ≡ zeros (max n 256 + 16))
      × ((external_reset s true false).0 ≡ record s {
        rcv_idx = 0;
        buffer = [];
        incoming_buffer = [];
        outgoing_queue = [];
        last_send_size = none;
      })
unfolding external_reset
external_reset-zeros s n e =
    let w = purge-some (cleared s) n (unfold cleared in e) in
    (
      ap (λ r. bytes_of r.1) w
          ∙ bytes_of-append (zero_writes (max n 256) (max n 256)) _
          ∙ ap (λ (l : List ℕ). l ++ zeros 16)
              (zero_writes-bytes (max n 256) (max n 256) (omega arith))
          ∙ replicate_add (max n 256) 16,
      ap (λ r. r.0) w ∙ unfold cleared in refl,
    )
