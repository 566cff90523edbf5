-- ===== src/MapleBus/Loopback.antt =====
-- src/hal/MapleBus/MapleBus.cpp: what `write` sends, as processEvents reads it.
use dream_pico_port.Prelude.{
  ℕ, ◌-◌, ◌<◌, ◌≡◌, ◌≢◌, refl, sym, ap, ◌∙◌, true, u8, u32, ◌<<<◌, bit_xor, suc, List, [], ◌∷◌,
  ◌++◌, length, drop, get_or, length-append, take-append, arith, if◌then◌else◌, leb, ltb, ==_refl,
}
use dream_pico_port.Prelude.Bits.{bit_and_low, bit_xor_cancel}
use dream_pico_port.Prelude.Xor.{bit_xor_self}
use dream_pico_port.Frame.{Frame, to_word, ByteOrder, host, network, IsFrame, is_host}
use dream_pico_port.Frame.Words.{to_word-host, to_word-network}
use dream_pico_port.Packet.{MaplePacket, get_frame_word}
use dream_pico_port.Packet.Contents.{IsConsistent}
use dream_pico_port.Timeliner.{Phase, read_complete, read_failed, received_packet}
use dream_pico_port.Timeliner.Received.{received_packet-status_of}
use dream_pico_port.MapleBus.{MapleBus, missing_data, no_failure, crc8_word, crc8_words}
use dream_pico_port.MapleBus.Writing.{packet_crc, written_words}
use dream_pico_port.MapleBus.Crc.{crc8_words-cons, crc8_word_lt, crc8_words_lt, crc8_words_damaged}
use dream_pico_port.MapleBus.Events.{
  Look, Report, edge_byte, check_crc, read_complete_events, process_events, count_incomplete,
  report,
}

get_or_last : (ws : List ℕ) (last : ℕ) → get_or (ws ++ last ∷ []) (length ws) 0 ≡ last
get_or_last [] last = refl
get_or_last (w ∷ ws) last = get_or_last ws last

-- The outcome for the words before the CRC and the word with the CRC.
abbrev outcome : MapleBus → ℕ → List ℕ → ℕ → ℕ → MapleBus × Report
outcome bus w ws last now =
    if leb (edge_byte bus.rx_byte_order w) (length ws) then check_crc bus (w ∷ ws) last now else (
      record bus { stats = count_incomplete bus.stats; current_phase = Phase.idle },
      report read_failed missing_data,
    )

read_split :
    (bus : MapleBus) (w : ℕ) (ws : List ℕ) (last now : ℕ)
    → read_complete_events bus (record { received = (w ∷ ws) ++ last ∷ []; now = now })
      ≡ outcome bus w ws last now
unfolding read_complete_events
read_split bus w ws last now =
    let n : length (ws ++ last ∷ []) ≡ suc (length ws) =
      omega (arith, length-append ws (last ∷ [])) in
    let one : suc (suc (length ws)) - 1 ≡ suc (length ws) = omega arith in
    let two : suc (suc (length ws)) - 2 ≡ length ws = omega arith in
    let several : ltb 1 (suc (suc (length ws))) ≡ true = ground arith in
    rw (n, several, one, two, take-append ws (last ∷ []), get_or_last ws last) refl

crc_edge :
    (order : ByteOrder) (crc : ℕ)
    → crc < 256
    → edge_byte order (if is_host order then crc else u32 (crc <<< 24)) ≡ crc
crc_edge host crc h = ground (arith, bit_and_low 8 crc)
crc_edge network crc h = omega arith

edge_byte-to_word :
    (f : Frame) (order : ByteOrder) → IsFrame f → edge_byte order (to_word f order) ≡ f.length
edge_byte-to_word f host h = ground (arith, to_word-host f h, bit_and_low 8 (to_word f host))
edge_byte-to_word f network h = ground (arith, to_word-network f h)

frame_edge :
    (p : MaplePacket)
    → IsFrame p.frame
    → length p.payload < 256
    → edge_byte p.payload_byte_order (get_frame_word p) ≡ length p.payload
unfolding get_frame_word
frame_edge p v h =
    edge_byte-to_word (record (p.frame) { length = u8 (length p.payload) }) p.payload_byte_order
      (v.0, v.1, v.2, omega arith)
    ∙ omega arith

checks :
    (bus : MapleBus) (words : List ℕ) (last now : ℕ)
    → crc8_words words 0 ≡ edge_byte bus.rx_byte_order last
    → check_crc bus words last now ≡ (
      record bus {
        last_read = words;
        current_phase = Phase.idle;
        stats = record (bus.stats) { last_read_complete_time = now };
      },
      record {
        status = record {
          phase = read_complete;
          read_buffer = words;
          read_buffer_len = length words;
          rx_byte_order = bus.rx_byte_order;
        };
        failure_reason = no_failure;
      },
    )
unfolding check_crc
checks bus words last now e = rw (e, ==_refl (edge_byte bus.rx_byte_order last)) refl

-- If the read channel gets the words that `write` sends for a packet, behind the count of bits and
-- in the same byte order, and the packet has byte fields, a counting length byte and at most 254
-- payload words, then processEvents of a bus whose read is complete reports exactly this packet,
-- and leaves the bus idle.
pub process_events-written_words :
    (p : MaplePacket) (bus : MapleBus) (time now : ℕ)
    → IsFrame p.frame
    → IsConsistent p
    → length p.payload < 255
    → bus.current_phase ≡ read_complete
    → bus.rx_byte_order ≡ p.payload_byte_order
    → let r = process_events bus time (record { received = drop 1 (written_words p); now = now }) in
      (r.1.status.phase ≡ read_complete)
      × (received_packet r.1.status ≡ p)
      × (r.0.current_phase ≡ Phase.idle)
unfolding process_events written_words packet_crc read_complete_events received_packet
process_events-written_words p bus time now v c h phase order =
    let word = get_frame_word p in
    let crc = packet_crc p in
    let last = if is_host p.payload_byte_order then crc else u32 (crc <<< 24) in
    let within : leb (edge_byte bus.rx_byte_order word) (length p.payload) ≡ true =
      rw (order, frame_edge p v (omega arith)) (ground arith) in
    let small : crc < 256 =
      crc8_words_lt p.payload (crc8_word word 0) (crc8_word_lt word 0 (omega arith)) in
    let right : crc8_words (word ∷ p.payload) 0 ≡ edge_byte bus.rx_byte_order last =
      crc8_words-cons word p.payload 0
      ∙ sym (ap (λ o. edge_byte o last) order ∙ crc_edge p.payload_byte_order crc small) in
    let e = read_split bus word p.payload last now in
    rw (phase, e, within, checks bus (word ∷ p.payload) last now right)
      (refl, rw order (received_packet-status_of p v c h), refl)

damaged_outcome :
    (bus : MapleBus) (words : List ℕ) (last now : ℕ)
    → 0 < length words
    → crc8_words words 0 ≢ edge_byte bus.rx_byte_order last
    → (read_complete_events bus
        (record { received = words ++ last ∷ []; now = now })).1.status.phase
      ≡ read_failed
unfolding check_crc
damaged_outcome bus [] last now h e = absurd (omega arith)
damaged_outcome bus (w ∷ ws) last now h e = rw (read_split bus w ws last now) (ground arith)

-- A reading whose CRC was right is not taken for right once one of its words before the CRC is
-- damaged, if the bytes of the damage do not cancel (as none does that is confined to one byte):
-- processEvents reports a failed read.
pub process_events_damaged :
    (bus : MapleBus) (xs ys : List ℕ) (w damage last time now : ℕ)
    → bus.current_phase ≡ read_complete
    → crc8_words (xs ++ w ∷ ys) 0 ≡ edge_byte bus.rx_byte_order last
    → crc8_word damage 0 ≢ 0
    → let look : Look = record {
      received = (xs ++ bit_xor w damage ∷ ys) ++ last ∷ [];
      now = now;
    } in
      (process_events bus time look).1.status.phase ≡ read_failed
unfolding process_events read_complete_events
process_events_damaged bus xs ys w damage last time now phase right damaged =
    let differs : crc8_words (xs ++ bit_xor w damage ∷ ys) 0 ≢ edge_byte bus.rx_byte_order last =
      λ same. damaged (
        sym (bit_xor_cancel (crc8_word damage 0) (crc8_words (xs ++ w ∷ ys) 0))
        ∙ ap (λ t. bit_xor t (crc8_words (xs ++ w ∷ ys) 0))
            (sym (crc8_words_damaged xs ys w damage 0) ∙ same ∙ sym right)
        ∙ bit_xor_self (crc8_words (xs ++ w ∷ ys) 0)) in
    rw phase (
      damaged_outcome bus (xs ++ bit_xor w damage ∷ ys) last now
        (omega (arith, length-append xs (bit_xor w damage ∷ ys))) differs)
