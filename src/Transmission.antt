-- ===== src/Transmission.antt =====
-- src/hostLib/Transmission.hpp, and from PrioritizedTxScheduler the properties that a transmission is
-- made of and its expected duration. A Transmitter is an opaque handle, and the packet that a
-- shared_ptr names is the packet itself, since it is const.
use dream_pico_port.Prelude.{
  ℕ, ◌+◌, ◌-◌, ◌/◌, ◌^◌, Bool, u32, u64, if◌then◌else◌, Option, none, some,
}
use dream_pico_port.Frame.{ByteOrder}
use dream_pico_port.Packet.{MaplePacket, packet_tx_time_ns, tx_time_ns}

pub record Transmission : Type 0 where
  pub transmission_id : ℕ
  pub priority : ℕ
  pub expect_response : Bool
  pub tx_duration_us : ℕ
  pub auto_repeat_us : ℕ
  pub auto_repeat_end_time_us : ℕ
  pub next_tx_time_us : ℕ
  pub packet : MaplePacket
  pub rx_byte_order : ByteOrder
  pub transmitter : Option ℕ
  pub sp_transmitter : Option ℕ

unfoldable pub next_completion_time : Transmission → ℕ → ℕ
next_completion_time tx execution_time = u64 (execution_time + tx.tx_duration_us)

abbrev pub recipient_of : Transmission → ℕ
recipient_of tx = tx.packet.frame.recipient_addr

pub record TransmissionProperties : Type 0 where
  pub priority : ℕ
  pub tx_time : ℕ
  pub packet : MaplePacket
  pub expect_response : Bool
  pub expected_response_num_payload_words : ℕ
  pub auto_repeat_us : ℕ
  pub auto_repeat_end_time_us : ℕ
  pub rx_byte_order : ByteOrder

-- The two overloads of `add` differ in which field of the transmission keeps the transmitter.
pub data TransmitterRef : Type 0 where
  raw shared : ℕ → TransmitterRef

abbrev pub raw_of : TransmitterRef → Option ℕ
raw_of (raw t) = some t
raw_of (shared t) = none

abbrev pub shared_of : TransmitterRef → Option ℕ
shared_of (raw t) = none
shared_of (shared t) = some t

abbrev pub maple_open_line_check_time_us : ℕ
maple_open_line_check_time_us = 10

abbrev pub maple_response_delay_ns : ℕ
maple_response_delay_ns = 50

abbrev pub maple_response_ns_per_bit : ℕ
maple_response_ns_per_bit = 1750

-- INT_DIVIDE_CEILING in uint32_t.
abbrev pub div_ceil32 : ℕ → ℕ → ℕ
div_ceil32 x y = u32 (u32 (x + y) + 2 ^ 32 - 1) / y

-- The first part of both overloads of `add`, in uint32_t.
unfoldable pub packet_duration_us : TransmissionProperties → ℕ
packet_duration_us p =
    let out = u32 (maple_open_line_check_time_us + packet_tx_time_ns p.packet) in
    let read = tx_time_ns p.expected_response_num_payload_words maple_response_ns_per_bit in
    div_ceil32 (if p.expect_response then u32 (out + u32 (maple_response_delay_ns + read)) else out)
      1000
