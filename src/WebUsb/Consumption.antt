-- ===== src/WebUsb/Consumption.antt =====
-- WebUsbProcessorBase::consumePacketBytes: the bytes of a packet behind its header, in portions and
-- one at a time.
use dream_pico_port.Prelude.{
  ℕ, zero, suc, ◌+◌, ◌≤◌, ◌<◌, ◌≡◌, refl, sym, ap, ◌∙◌, List, [], ◌∷◌, ◌++◌, length, take, drop,
  arith, append_assoc, append-nil, length-append,
}
use dream_pico_port.WebUsb.{WebUsbProcessor, reset, decode, requests_of}
use dream_pico_port.WebUsb.Loop.{prepend}
use dream_pico_port.WebUsb.Automaton.{byte, feed}
use dream_pico_port.WebUsb.Magic.{feed-quiet}
use dream_pico_port.WebUsb.Reception.{IsReceiving}

abbrev pub stored : WebUsbProcessor → List ℕ → WebUsbProcessor
stored s bs = record s { buffer = s.buffer ++ bs; rcv_idx = s.rcv_idx + length bs }

module _ (s : WebUsbProcessor) (w : IsReceiving s) (h : 8 ≤ s.rcv_idx) (b : ℕ) where
  pub byte-more : length s.buffer + 1 < s.rcv_size → byte s b ≡ (stored s (b ∷ []), [])
  unfolding byte
  byte-more m = ground (arith, w.stored h)

  pub byte-last :
      length s.buffer + 1 ≡ s.rcv_size
      → byte s b ≡ (reset (stored s (b ∷ [])), requests_of (decode (s.buffer ++ b ∷ [])))
  unfolding byte
  byte-last m = ground (arith, w.stored h)

  pub stored-IsReceiving : length s.buffer + 1 < s.rcv_size → IsReceiving (stored s (b ∷ []))
  stored-IsReceiving m = record {
    least = λ l. w.least h;
    stored = λ l. omega (arith, w.stored h, length-append s.buffer (b ∷ []));
    partial = λ l. omega (arith, length-append s.buffer (b ∷ []));
  }

stored_twice :
    (s : WebUsbProcessor) (b : ℕ) (bs : List ℕ) → stored (stored s (b ∷ [])) bs ≡ stored s (b ∷ bs)
stored_twice s b bs =
    let n : s.rcv_idx + 1 + length bs ≡ s.rcv_idx + suc (length bs) = omega arith in
    λ i. record s { buffer = append_assoc s.buffer (b ∷ []) bs i; rcv_idx = n i }

reset-stored : (s : WebUsbProcessor) (bs : List ℕ) → reset (stored s bs) ≡ reset s
unfolding reset
reset-stored s bs = refl

feed-next :
    (s : WebUsbProcessor) (b : ℕ) (bs : List ℕ)
    → feed s (b ∷ bs) ≡ prepend (byte s b).1 (feed (byte s b).0 bs)
unfolding feed
feed-next s b bs = refl

-- Too few bytes are stored.
pub feed-stored :
    (s : WebUsbProcessor) (bs : List ℕ)
    → IsReceiving s
    → 8 ≤ s.rcv_idx
    → length s.buffer + length bs < s.rcv_size
    → feed s bs ≡ (stored s bs, [])
feed-stored s [] w h m =
    let n : s.rcv_idx ≡ s.rcv_idx + 0 = omega arith in
    unfold feed in
    (ap (λ u. (u, [])) (λ i. record s { buffer = sym (append-nil s.buffer) i; rcv_idx = n i }))
feed-stored s (b ∷ bs) w h m =
    feed-quiet s (stored s (b ∷ [])) b bs (byte-more s w h b (omega arith))
    ∙ feed-stored (stored s (b ∷ [])) bs (stored-IsReceiving s w h b (omega arith)) (omega arith)
        (omega (arith, length-append s.buffer (b ∷ [])))
    ∙ ap (λ u. (u, [])) (stored_twice s b bs)

-- Enough bytes make up a packet, and the rest goes on after it.
pub feed_complete :
    (n : ℕ) (s : WebUsbProcessor) (bs : List ℕ)
    → IsReceiving s
    → 8 ≤ s.rcv_idx
    → length s.buffer + suc n ≡ s.rcv_size
    → n < length bs
    → feed s bs
      ≡ prepend
          (requests_of (decode (s.buffer ++ take (suc n) bs)))
          (feed (reset s) (drop (suc n) bs))
feed_complete n s [] w h e m = absurd (omega arith)
feed_complete zero s (b ∷ bs) w h e m =
    feed-next s b bs
    ∙ ap (λ r. prepend r.1 (feed r.0 bs)) (byte-last s w h b e)
    ∙ ap (λ u. prepend (requests_of (decode (s.buffer ++ b ∷ []))) (feed u bs))
        (reset-stored s (b ∷ []))
feed_complete (suc n) s (b ∷ bs) w h e m =
    feed-quiet s (stored s (b ∷ [])) b bs (byte-more s w h b (omega arith))
    ∙ feed_complete n (stored s (b ∷ [])) bs (stored-IsReceiving s w h b (omega arith))
        (omega arith) (omega (arith, length-append s.buffer (b ∷ []))) (omega arith)
    ∙ ap
        (λ u.
          prepend (requests_of (decode ((s.buffer ++ b ∷ []) ++ take (suc n) bs)))
            (feed u (drop (suc n) bs)))
        (reset-stored s (b ∷ []))
    ∙ ap (λ (l : List ℕ). prepend (requests_of (decode l)) (feed (reset s) (drop (suc n) bs)))
        (append_assoc s.buffer (b ∷ []) (take (suc n) bs))
