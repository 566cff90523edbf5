-- ===== src/Timeliner/Received.antt =====
-- TransmissionTimeliner::readTask: a packet that has come over the bus.
use dream_pico_port.Prelude.{◌<◌, ◌≡◌, refl, false, [], length, u8, arith, take-length}
use dream_pico_port.Frame.{IsFrame}
use dream_pico_port.Packet.{MaplePacket, make_words, packet_is_valid}
use dream_pico_port.Packet.Contents.{IsConsistent, sent_words, set_words-sent_words}
use dream_pico_port.Timeliner.{BusStatus, read_complete, received_packet}

-- The status of a bus that has read the words of a packet.
abbrev pub status_of : MaplePacket → BusStatus
status_of p = record {
  phase = read_complete;
  read_buffer = sent_words p;
  read_buffer_len = length (sent_words p);
  rx_byte_order = p.payload_byte_order;
}

-- A packet with byte fields, a counting length byte and at most 254 payload words is received whole.
pub received_packet-status_of :
    (p : MaplePacket)
    → IsFrame p.frame
    → IsConsistent p
    → length p.payload < 255
    → received_packet (status_of p) ≡ p
unfolding received_packet
received_packet-status_of p b v h =
    let small : u8 (length (sent_words p)) ≡ length (sent_words p) = omega arith in
    rw (small, take-length (length (sent_words p)) (sent_words p) (omega arith))
      ((set_words-sent_words p p b v).0)

-- A packet with 255 payload words is received as an invalid packet with no payload.
received_packet-full :
    (p : MaplePacket)
    → length p.payload ≡ 255
    → (received_packet (status_of p)).payload ≡ []
      × (packet_is_valid (received_packet (status_of p)) ≡ false)
unfolding received_packet make_words packet_is_valid
received_packet-full p h =
    let wraps : u8 (length (sent_words p)) ≡ 0 = omega arith in rw wraps (refl, refl)
