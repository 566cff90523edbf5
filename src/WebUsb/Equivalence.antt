-- ===== src/WebUsb/Equivalence.antt =====
-- The loop of WebUsbProcessorBase::process and the machine that takes one byte at a time.
use dream_pico_port.Prelude.{
  ℕ, zero, suc, ◌+◌, ◌-◌, ◌≤◌, ◌<◌, ◌≡◌, refl, sym, ap, ◌∙◌, Bool, true, false, leb, ltb, min, List,
  [], ◌∷◌, ◌++◌, length, take, drop, take-length, drop-length, length-take, length-drop, Bool-cases,
  inl, inr, Option, some, arith, length-append,
}
use dream_pico_port.WebUsb.{
  WebUsbProcessor, reset, decode, requests_of, try_read_packet_header, try_packet_header_fuel,
  consume_packet_bytes, try_process_completed_packet,
}
use dream_pico_port.WebUsb.Loop.{Received, prepend, process_loop, process}
use dream_pico_port.WebUsb.Automaton.{feed}
use dream_pico_port.WebUsb.Reception.{
  IsReceiving, IsReceiving-low, Outcome, waiting, headed, try_read_packet_header-Outcome,
}
use dream_pico_port.WebUsb.Consumption.{stored, feed-stored, feed_complete}

module _ (s : WebUsbProcessor) (bs : List ℕ) (w : IsReceiving s) (h : 8 ≤ s.rcv_idx) where
  consume-all :
      length s.buffer + length bs < s.rcv_size → consume_packet_bytes s bs ≡ (stored s bs, [])
  unfolding consume_packet_bytes
  consume-all m =
      let n : min (s.rcv_size - (s.rcv_idx - 8)) (length bs) ≡ length bs =
        omega (arith, w.stored h) in
      rw (n, take-length (length bs) bs (omega arith), drop-length (length bs) bs (omega arith))
        refl

  consume-some :
      (n : ℕ)
      → length s.buffer + suc n ≡ s.rcv_size
      → n < length bs
      → consume_packet_bytes s bs ≡ (
        record s { buffer = s.buffer ++ take (suc n) bs; rcv_idx = s.rcv_idx + suc n },
        drop (suc n) bs,
      )
  unfolding consume_packet_bytes
  consume-some n e m =
      let k : min (s.rcv_size - (s.rcv_idx - 8)) (length bs) ≡ suc n = omega (arith, w.stored h) in
      rw k refl

  stored-IsReceiving : length s.buffer + length bs < s.rcv_size → IsReceiving (stored s bs)
  stored-IsReceiving m = record {
    least = λ l. w.least h;
    stored = λ l. omega (arith, w.stored h, length-append s.buffer bs);
    partial = λ l. omega (arith, length-append s.buffer bs);
  }

-- A body of at least four bytes is processed.
try_process-full :
    (s : WebUsbProcessor)
    → 4 ≤ length s.buffer
    → try_process_completed_packet s ≡ (reset s, requests_of (decode s.buffer), true)
unfolding try_process_completed_packet
try_process-full s h = ground arith

-- What the loop does once a header is complete, or is not.
module _ (fuel : ℕ) (s : WebUsbProcessor) (b : ℕ) (bs : List ℕ) where
  loop-waiting :
      (t : WebUsbProcessor)
      → try_read_packet_header (try_packet_header_fuel (b ∷ bs)) s (b ∷ bs) ≡ some (t, [], false)
      → process_loop (suc fuel) s (b ∷ bs) ≡ some (t, [])
  unfolding process_loop
  loop-waiting t e = rw (e, process_loop) refl

  module _ (t : WebUsbProcessor) (left : List ℕ)
      (e : try_read_packet_header (try_packet_header_fuel (b ∷ bs)) s (b ∷ bs)
        ≡ some (t, left, true))
      (w : IsReceiving t) (h : 8 ≤ t.rcv_idx) where
    loop-stored :
        length t.buffer + length left < t.rcv_size
        → process_loop (suc fuel) s (b ∷ bs) ≡ process_loop fuel (stored t left) []
    unfolding process_loop
    loop-stored m =
        let more : leb t.rcv_size (t.rcv_idx + length left - 8) ≡ false =
          ground (arith, w.stored h) in
        let c = consume-all t left w h m in rw (e, c, more, c, process_loop) refl

    loop_complete :
        (n : ℕ) (r : Received)
        → length t.buffer + suc n ≡ t.rcv_size
        → n < length left
        → process_loop fuel (reset t) (drop (suc n) left) ≡ some r
        → process_loop (suc fuel) s (b ∷ bs)
          ≡ some (prepend (requests_of (decode (t.buffer ++ take (suc n) left))) r)
    unfolding process_loop
    loop_complete n r k m rest =
        let body = record t {
          buffer = t.buffer ++ take (suc n) left;
          rcv_idx = t.rcv_idx + suc n;
        } in
        let full : leb t.rcv_size (t.rcv_idx + suc n - 8) ≡ true = ground (arith, w.stored h) in
        let long : 4 ≤ length body.buffer = omega (
          arith,
          w.least h,
          length-append t.buffer (take (suc n) left),
          length-take (suc n) left,
        ) in
        let again : process_loop fuel (reset body) (drop (suc n) left) ≡ some r =
          unfold reset in rest in
        let c = consume-some t left w h n k m in
        let p = try_process-full body long in
        rw (e, c, full, c, p, c, p, again, c, p, process_loop) refl

pub feed-nil : (s : WebUsbProcessor) → feed s [] ≡ (s, [])
unfolding feed
feed-nil s = refl

-- Enough fuel is one more than the bytes, and then the loop returns what the machine does.
pub process_loop-feed :
    (fuel : ℕ) (s : WebUsbProcessor) (bs : List ℕ)
    → length bs < fuel
    → IsReceiving s
    → process_loop fuel s bs ≡ some (feed s bs)
process_loop-feed zero s bs h w = absurd (omega arith)
process_loop-feed (suc fuel) s [] h w = unfold process_loop in unfold feed in refl
process_loop-feed (suc fuel) s (b ∷ bs) h w =
    go (try_read_packet_header (try_packet_header_fuel (b ∷ bs)) s (b ∷ bs)) refl
      (try_read_packet_header-Outcome (try_packet_header_fuel (b ∷ bs)) s (b ∷ bs) (omega arith) w)
      (process_loop-feed fuel)
  where
    go :
        (o : Option (WebUsbProcessor × List ℕ × Bool))
        → try_read_packet_header (try_packet_header_fuel (b ∷ bs)) s (b ∷ bs) ≡ o
        → Outcome s (b ∷ bs) o
        → ((t : WebUsbProcessor) (left : List ℕ)
            → length left < fuel
            → IsReceiving t
            → process_loop fuel t left ≡ some (feed t left))
        → process_loop (suc fuel) s (b ∷ bs) ≡ some (feed s (b ∷ bs))
    go o e (waiting t f k) ih = loop-waiting fuel s b bs t e ∙ ap some (sym f)
    go o e (headed t left f v k l m) ih =
        elim (Bool-cases (ltb (length t.buffer + length left) t.rcv_size)) [
          | inl few ↦
              let m : length t.buffer + length left < t.rcv_size = ground arith in
              loop-stored fuel s b bs t left e v k m
              ∙ ih (stored t left) [] (omega arith) (stored-IsReceiving t left v k m)
              ∙ ap some (feed-nil (stored t left) ∙ sym (f ∙ feed-stored t left v k m))
          | inr many ↦
              let n = t.rcv_size - length t.buffer - 1 in
              let body : length t.buffer + suc n ≡ t.rcv_size = omega (arith, v.partial k) in
              let enough : n < length left = ground (arith, body) in
              loop_complete fuel s b bs t left e v k n (feed (reset t) (drop (suc n) left)) body
                enough
                (ih (reset t) (drop (suc n) left) (omega (arith, length-drop (suc n) left))
                  (IsReceiving-low (reset t) (unfold reset in omega arith)))
              ∙ ap some (sym (f ∙ feed_complete n t left v k body enough))
        ]

-- Where the bytes stored of a packet that has begun fit its header, `process` returns, and does to
-- the bytes that wait what the machine that takes one byte at a time does.
pub process-feed :
    (s : WebUsbProcessor)
    → IsReceiving s
    → process s ≡ some (feed (record s { incoming_buffer = [] }) s.incoming_buffer)
unfolding process
process-feed s w =
    process_loop-feed (suc (length s.incoming_buffer)) (record s { incoming_buffer = [] })
      s.incoming_buffer (omega arith)
      (record { least = w.least; stored = w.stored; partial = w.partial })
