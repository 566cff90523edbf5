-- ===== src/Packet.antt =====
-- inc/hal/MapleBus/MaplePacket.hpp, struct MaplePacket. A pointer to words with its uint8_t count is
-- the list of those words, so such a list has fewer than 256 entries; reserving space has no effect
-- that a caller sees.
pub mod Contents
pub mod Tests
use dream_pico_port.Prelude.{
  ℕ, zero, suc, ◌+◌, ◌-◌, ◌*◌, ◌%◌, ◌<◌, ◌^◌, ◌≡◌, refl, Bool, true, false, not, ◌&&◌, ◌==◌, u8,
  u32, if◌then◌else◌, List, [], ◌∷◌, ◌++◌, map, length,
}
use dream_pico_port.Frame.{
  ByteOrder, host, network, Frame, default_frame, from_word, set_from_frame_word, to_word, frame_eq,
  frame_is_valid, flip_word_bytes,
}

pub record MaplePacket : Type 0 where
  pub frame : Frame
  pub payload : List ℕ
  pub payload_byte_order : ByteOrder

-- frame.length = payload.size(), cut to a uint8_t.
unfoldable pub update_frame_length : MaplePacket → MaplePacket
update_frame_length p = record p { frame = record (p.frame) { length = u8 (length p.payload) } }

-- Constructors 1 and 6.
unfoldable pub make : Frame → List ℕ → ByteOrder → MaplePacket
unfolding update_frame_length
make f words order =
    update_frame_length (record { frame = f; payload = words; payload_byte_order = order })

-- Constructors 2, 3 and 4.
unfoldable pub make_default : MaplePacket
unfolding make
make_default = make default_frame [] host

unfoldable pub make_empty : Frame → MaplePacket
unfolding make
make_empty f = make f [] host

unfoldable pub make_single : Frame → ℕ → ByteOrder → MaplePacket
unfolding make
make_single f word order = make f (word ∷ []) order

-- Constructor 5: a frame word and a payload.
unfoldable pub make_words : List ℕ → ByteOrder → MaplePacket
unfolding make
make_words [] order = make default_frame [] order
make_words (w ∷ words) order = make (from_word w order) words order

-- operator==
same_order : ByteOrder → ByteOrder → Bool
same_order host host = true
same_order network network = true
same_order _ _ = false

same_words : List ℕ → List ℕ → Bool
same_words [] [] = true
same_words (x ∷ xs) (y ∷ ys) = x == y && same_words xs ys
same_words _ _ = false

unfoldable pub packet_eq : MaplePacket → MaplePacket → Bool
unfolding same_order same_words frame_eq
packet_eq p q =
    frame_eq p.frame q.frame
    && same_words p.payload q.payload
    && same_order p.payload_byte_order q.payload_byte_order

unfoldable pub get_frame_word : MaplePacket → ℕ
get_frame_word p =
    to_word (record (p.frame) { length = u8 (length p.payload) }) p.payload_byte_order

unfoldable pub reset : MaplePacket → MaplePacket
unfolding update_frame_length
reset p = update_frame_length (record p { frame = default_frame; payload = [] })

-- MaplePacket::set
unfoldable pub set_words : MaplePacket → List ℕ → ByteOrder → MaplePacket
unfolding update_frame_length
set_words p [] order =
    update_frame_length
      (record p { frame = default_frame; payload = []; payload_byte_order = order })
set_words p (w ∷ words) order = update_frame_length (record p {
  frame = set_from_frame_word p.frame w order;
  payload = words;
  payload_byte_order = order;
})

-- Words in the other byte order are reversed as they are appended.
abbrev pub in_order : ByteOrder → ByteOrder → List ℕ → List ℕ
in_order host host words = words
in_order network network words = words
in_order _ _ words = map flip_word_bytes words

unfoldable pub append_payload : MaplePacket → List ℕ → ByteOrder → MaplePacket
unfolding update_frame_length
append_payload p [] order = p
append_payload p (w ∷ words) order =
    update_frame_length
      (record p { payload = p.payload ++ in_order p.payload_byte_order order (w ∷ words) })

unfoldable pub append_payload_word : MaplePacket → ℕ → ByteOrder → MaplePacket
unfolding append_payload
append_payload_word p word order = append_payload p (word ∷ []) order

unfoldable pub set_payload : MaplePacket → List ℕ → ByteOrder → MaplePacket
unfolding append_payload
set_payload p words order =
    append_payload (record p { payload = []; payload_byte_order = order }) words order

unfoldable pub set_payload_word : MaplePacket → ℕ → ByteOrder → MaplePacket
unfolding set_payload
set_payload_word p word order = set_payload p (word ∷ []) order

unfoldable pub packet_is_valid : MaplePacket → Bool
unfolding frame_is_valid
packet_is_valid p = frame_is_valid p.frame && p.frame.length == length p.payload

-- Payload, frame word and CRC byte; the sums are uint32_t.
unfoldable pub num_total_bits : ℕ → ℕ
num_total_bits num_payload_words = u32 (((num_payload_words + 1) * 4 + 1) * 8)

unfoldable pub tx_time_ns : ℕ → ℕ → ℕ
unfolding num_total_bits
tx_time_ns num_payload_words ns_per_bit = u32 ((num_total_bits num_payload_words + 14) * ns_per_bit)

abbrev pub maple_ns_per_bit : ℕ
maple_ns_per_bit = 480

unfoldable pub packet_tx_time_ns : MaplePacket → ℕ
unfolding tx_time_ns
packet_tx_time_ns p = tx_time_ns (length p.payload) maple_ns_per_bit
