-- ===== src/Frame.antt =====
-- inc/hal/MapleBus/MaplePacket.hpp, struct MaplePacket::Frame: the frame word of a Maple packet in
-- its two byte orders. Every field is a uint8_t and a frame word is a uint32_t; both are numbers,
-- and `IsFrame` and `w < 2 ^ 32` state the ranges.
pub mod Words
pub mod Tests
use dream_pico_port.Prelude.{
  ℕ, ◌<◌, ◌^◌, ◌≡◌, refl, Bool, true, false, not, ◌&&◌, ◌==◌, u8, u32, ◌<<<◌, ◌>>>◌, bit_and,
  bit_or, if◌then◌else◌,
}

pub data ByteOrder : Type 0 where
  host network : ByteOrder

-- `byteOrder != ByteOrder::NETWORK`
abbrev pub is_host : ByteOrder → Bool
is_host host = true
is_host network = false

abbrev pub command_invalid : ℕ
command_invalid = 0xFF

pub record Frame : Type 0 where
  pub command : ℕ
  pub recipient_addr : ℕ
  pub sender_addr : ℕ
  pub length : ℕ

-- What the uint8_t fields hold.
abbrev pub IsFrame : Frame → Type 0
IsFrame f = (f.command < 256) × (f.recipient_addr < 256) × (f.sender_addr < 256) × (f.length < 256)

-- One byte of a word, by its position in each order.
byte_at : ℕ → ℕ → ℕ → ByteOrder → ℕ
byte_at word host_position network_position order =
    u8 (bit_and (word >>> (if is_host order then host_position else network_position)) 0xFF)

unfoldable pub get_frame_packet_length : ℕ → ByteOrder → ℕ
unfolding byte_at
get_frame_packet_length word order = byte_at word 0 24 order

unfoldable pub get_frame_sender_addr : ℕ → ByteOrder → ℕ
unfolding byte_at
get_frame_sender_addr word order = byte_at word 8 16 order

unfoldable pub get_frame_recipient_addr : ℕ → ByteOrder → ℕ
unfolding byte_at
get_frame_recipient_addr word order = byte_at word 16 8 order

unfoldable pub get_frame_command : ℕ → ByteOrder → ℕ
unfolding byte_at
get_frame_command word order = byte_at word 24 0 order

-- The static object has `command` set and zeros elsewhere.
abbrev pub default_frame : Frame
default_frame = record {
  command = command_invalid;
  recipient_addr = 0;
  sender_addr = 0;
  length = 0;
}

-- setFromFrameWord overwrites all four fields.
unfoldable pub set_from_frame_word : Frame → ℕ → ByteOrder → Frame
unfolding get_frame_packet_length get_frame_sender_addr get_frame_recipient_addr get_frame_command
set_from_frame_word f word order = record f {
  length = get_frame_packet_length word order;
  sender_addr = get_frame_sender_addr word order;
  recipient_addr = get_frame_recipient_addr word order;
  command = get_frame_command word order;
}

unfoldable pub from_word : ℕ → ByteOrder → Frame
unfolding set_from_frame_word
from_word word order = set_from_frame_word default_frame word order

unfoldable pub to_word : Frame → ByteOrder → ℕ
to_word f network =
    bit_or
      (bit_or (bit_or (u32 (f.length <<< 24)) (u32 (f.sender_addr <<< 16)))
        (u32 (f.recipient_addr <<< 8)))
      (u32 (f.command <<< 0))
to_word f host =
    bit_or
      (bit_or (bit_or (u32 (f.length <<< 0)) (u32 (f.sender_addr <<< 8)))
        (u32 (f.recipient_addr <<< 16)))
      (u32 (f.command <<< 24))

-- operator==
unfoldable pub frame_eq : Frame → Frame → Bool
frame_eq f g =
    f.length == g.length
    && f.sender_addr == g.sender_addr
    && f.recipient_addr == g.recipient_addr
    && f.command == g.command

unfoldable pub frame_is_valid : Frame → Bool
frame_is_valid f = not (f.command == command_invalid)

-- MaplePacket::flipWordBytes
unfoldable pub flip_word_bytes : ℕ → ℕ
flip_word_bytes word =
    bit_or
      (bit_or (bit_or (u32 (word <<< 24)) (bit_and (u32 (word <<< 8)) 0xFF0000))
        (bit_and (word >>> 8) 0xFF00))
      (word >>> 24)
