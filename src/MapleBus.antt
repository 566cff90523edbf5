-- ===== src/MapleBus.antt =====
-- src/hal/MapleBus/MapleBus.cpp and .hpp: the phases of a bus. The PIO programs, the DMA channels,
-- the clock and the lines are hardware: what they read is an argument of each operation, and what
-- the class does to them is the direction and the two flags of a running state machine. The words
-- that the read channel has transferred are an argument too; the buffer has room for 258. A word is
-- a uint32_t, and a list of words to write has at most 258.
pub mod Writing
pub mod Crc
pub mod Events
pub mod Timeouts
pub mod Interface
pub mod Phases
pub mod Tests
pub mod Loopback
use dream_pico_port.Prelude.{
  ℕ, ◌+◌, ◌-◌, ◌*◌, ◌/◌, ◌%◌, ◌^◌, Bool, true, false, not, ◌&&◌, ◌==◌, ltb, leb, u8, u32, u64,
  ◌<<<◌, ◌>>>◌, bit_and, bit_xor, if◌then◌else◌, List, [], ◌∷◌, ◌++◌, length, take, get_or, Option,
  none, some,
}
use dream_pico_port.Frame.{ByteOrder, host, is_host, flip_word_bytes}
use dream_pico_port.Packet.{MaplePacket, get_frame_word, num_total_bits, packet_tx_time_ns}
use dream_pico_port.Timeliner.{
  Phase, write_in_progress, write_failed, write_complete, waiting_for_read_start, read_in_progress,
  read_failed, read_complete, invalid, BusStatus,
}

pub data FailureReason : Type 0 where
  no_failure crc_invalid missing_data buffer_overflow timeout : FailureReason

-- MapleStats: mNVStats and mVStats together.
pub record MapleStats : Type 0 where
  pub num_reads : ℕ
  pub num_null_reads : ℕ
  pub num_read_fail_crc : ℕ
  pub num_read_fail_incomplete : ℕ
  pub num_read_fail_overflow : ℕ
  pub num_read_fail_timeout : ℕ
  pub last_read_start_time : ℕ
  pub last_read_complete_time : ℕ
  pub num_writes : ℕ
  pub num_write_fail : ℕ
  pub last_write_start_time : ℕ
  pub last_write_complete_time : ℕ

abbrev pub no_stats : MapleStats
no_stats = record {
  num_reads = 0;
  num_null_reads = 0;
  num_read_fail_crc = 0;
  num_read_fail_incomplete = 0;
  num_read_fail_overflow = 0;
  num_read_fail_timeout = 0;
  last_read_start_time = 0;
  last_read_complete_time = 0;
  num_writes = 0;
  num_write_fail = 0;
  last_write_start_time = 0;
  last_write_complete_time = 0;
}

pub record MapleBus : Type 0 where
  pub mask : ℕ
  pub has_callback : Bool
  pub dir_output : Bool
  pub out_running : Bool
  pub in_running : Bool
  pub write_buffer : List ℕ
  pub last_read : List ℕ
  pub current_phase : Phase
  pub expecting_response : Bool
  pub response_timeout_us : ℕ
  pub rx_byte_order : ByteOrder
  pub proc_start_time : ℕ
  pub proc_kill_offset_us : ℕ
  pub last_received_word_offset_us : ℕ
  pub last_read_transfer_count : ℕ
  pub stats : MapleStats

-- The buffers have no defined contents before the first transfer.
unfoldable pub make_bus : ℕ → MapleBus
make_bus pin_a = record {
  mask = 2 ^ pin_a + 2 ^ (pin_a + 1);
  has_callback = false;
  dir_output = false;
  out_running = false;
  in_running = false;
  write_buffer = [];
  last_read = [];
  current_phase = Phase.idle;
  expecting_response = false;
  response_timeout_us = 1000;
  rx_byte_order = host;
  proc_start_time = 0;
  proc_kill_offset_us = 0;
  last_received_word_offset_us = 0;
  last_read_transfer_count = 0;
  stats = no_stats;
}

abbrev pub read_buffer_size : ℕ
read_buffer_size = 258

-- NO_TIMEOUT and std::numeric_limits<uint32_t>::max()
abbrev pub no_timeout : ℕ
no_timeout = 0xFFFFFFFF

abbrev pub maple_open_line_check_time_us : ℕ
maple_open_line_check_time_us = 10

abbrev pub maple_write_timeout_extra_percent : ℕ
maple_write_timeout_extra_percent = 20

abbrev pub maple_write_timeout_extra_us : ℕ
maple_write_timeout_extra_us = 1000

abbrev pub maple_inter_word_read_timeout_us : ℕ
maple_inter_word_read_timeout_us = 300

-- The difference of two times as uint64_t, cut to a uint32_t.
abbrev pub offset_from : ℕ → ℕ → ℕ
offset_from start now = u32 (now + 2 ^ 64 - start)

unfoldable pub is_busy : MapleBus → Bool
is_busy bus = elim bus.current_phase [ Phase.idle ↦ false | _ ↦ true ]

unfoldable pub set_callback : MapleBus → Bool → MapleBus
set_callback bus given = record bus { has_callback = given }

-- crc8 of one word: each of its bytes into the CRC.
unfoldable pub crc8_word : ℕ → ℕ → ℕ
crc8_word source crc =
    bit_xor (bit_xor (bit_xor (bit_xor crc (u8 source)) (u8 (source >>> 8))) (u8 (source >>> 16)))
      (u8 (source >>> 24))

-- The loop of crc8 over words, with its 32-bit CRC.
unfoldable pub xor_words : List ℕ → ℕ → ℕ
xor_words [] crc32 = crc32
xor_words (w ∷ words) crc32 = xor_words words (bit_xor crc32 w)

unfoldable pub crc8_words : List ℕ → ℕ → ℕ
crc8_words words crc = crc8_word (xor_words words 0) crc

-- The callback is called with the phase that is returned beside the bus.
abbrev calling : MapleBus → Phase → MapleBus × Option Phase
calling bus phase =
    (record bus { current_phase = phase }, if bus.has_callback then some phase else none)

-- readIsr at a clock reading.
unfoldable pub read_isr : MapleBus → ℕ → MapleBus × Option Phase
read_isr bus now = elim bus.current_phase [
  | waiting_for_read_start ↦ (
    record bus {
      current_phase = read_in_progress;
      last_received_word_offset_us = offset_from bus.proc_start_time now;
    },
    none,
  )
  | read_in_progress ↦ calling (record bus { in_running = false }) read_complete
  | _ ↦ (bus, none)
]

-- writeIsr at the clock readings for the timeout and for the statistics.
unfoldable pub write_isr : MapleBus → ℕ → ℕ → MapleBus × Option Phase
write_isr bus now current_time =
    if bus.expecting_response
    then (
      record bus {
        out_running = false;
        in_running = true;
        dir_output = false;
        proc_kill_offset_us =
            if bus.response_timeout_us == no_timeout
            then no_timeout
            else u32 (offset_from bus.proc_start_time now + bus.response_timeout_us);
        stats = record (bus.stats) {
          last_write_complete_time = current_time;
          last_read_start_time = current_time;
          num_reads = u64 (bus.stats.num_reads + 1);
        };
        current_phase = waiting_for_read_start;
      },
      none,
    )
    else calling (record bus { out_running = false; dir_output = false }) write_complete

-- The direction is left as it is.
unfoldable pub reset_sms : MapleBus → MapleBus
reset_sms bus = record bus { out_running = false; in_running = false; current_phase = Phase.idle }

unfoldable pub get_stats : MapleBus → MapleStats
get_stats bus = bus.stats
