-- ===== src/MapleBus/Writing.antt =====
-- src/hal/MapleBus/MapleBus.cpp: `write` and startRead, from the line check to the kill time.
use dream_pico_port.Prelude.{
  ℕ, ◌+◌, ◌-◌, ◌*◌, ◌/◌, Bool, true, false, ◌==◌, ltb, u32, u64, ◌<<<◌, bit_and, if◌then◌else◌,
  List, [], ◌∷◌, ◌++◌, length,
}
use dream_pico_port.Frame.{ByteOrder, is_host, flip_word_bytes}
use dream_pico_port.Packet.{MaplePacket, get_frame_word, num_total_bits, packet_tx_time_ns}
use dream_pico_port.Timeliner.{write_in_progress, waiting_for_read_start}
use dream_pico_port.MapleBus.{
  MapleBus, read_buffer_size, no_timeout, maple_open_line_check_time_us,
  maple_write_timeout_extra_percent, maple_write_timeout_extra_us, is_busy, crc8_word, crc8_words,
}

-- The rounds of lineCheck's loop, each with the lines and then the clock that it reads.
line_check_loop : ℕ → ℕ → List (ℕ × ℕ) → Bool
line_check_loop mask target_time [] = true
line_check_loop mask target_time ((lines, now) ∷ rounds) =
    if bit_and lines mask == mask
    then (if ltb now target_time then line_check_loop mask target_time rounds else true)
    else false

unfoldable pub line_check : ℕ → ℕ → List (ℕ × ℕ) → Bool
unfolding line_check_loop
line_check mask now rounds = line_check_loop mask (now + maple_open_line_check_time_us + 1) rounds

unfoldable pub packet_crc : MaplePacket → ℕ
packet_crc packet = crc8_words packet.payload (crc8_word (get_frame_word packet) 0)

-- The words that `write` hands to the DMA channel.
unfoldable pub written_words : MaplePacket → List ℕ
written_words packet =
    let crc = packet_crc packet in
    let bits = num_total_bits (length packet.payload) in
    let flip_bytes = is_host packet.payload_byte_order in
    (if flip_bytes then flip_word_bytes bits else bits)
    ∷ get_frame_word packet
    ∷ (packet.payload ++ (if flip_bytes then crc else u32 (crc <<< 24)) ∷ [])

-- killTime - mProcStartTime
unfoldable pub write_kill_offset : MaplePacket → ℕ
write_kill_offset packet =
    let tx = packet_tx_time_ns packet in
    let total = u32 (tx + tx * maple_write_timeout_extra_percent / 100) in
    u32 (u32 (total + 1000 - 1) / 1000 + maple_write_timeout_extra_us)

-- What `write` reads from the hardware: the clock on entry, the rounds of the line check with the
-- clock before them, and the clock when writing starts.
pub record WriteInputs : Type 0 where
  pub entered : ℕ
  pub line_checked : ℕ
  pub rounds : List (ℕ × ℕ)
  pub started : ℕ

count_write : MapleBus → ℕ → MapleBus
count_write bus now = record bus {
  stats = record (bus.stats) {
    num_writes = u64 (bus.stats.num_writes + 1);
    last_write_start_time = now;
  };
}

start_write : MapleBus → MaplePacket → Bool → ℕ → ByteOrder → ℕ → MapleBus
start_write bus packet autostart_read read_timeout_us rx_byte_order now = record bus {
  expecting_response = autostart_read;
  response_timeout_us = read_timeout_us;
  rx_byte_order = rx_byte_order;
  current_phase = write_in_progress;
  last_read_transfer_count =
      if autostart_read then read_buffer_size else bus.last_read_transfer_count;
  out_running = true;
  dir_output = true;
  proc_start_time = now;
  proc_kill_offset_us = write_kill_offset packet;
}

unfoldable pub write : MapleBus → MaplePacket → Bool → ℕ → ByteOrder → WriteInputs → MapleBus × Bool
unfolding count_write start_write
write bus packet autostart_read read_timeout_us rx_byte_order inputs =
    let counted = count_write bus inputs.entered in
    if is_busy bus
    then (counted, false)
    else let loaded = record counted { write_buffer = written_words packet } in
      if line_check bus.mask inputs.line_checked inputs.rounds
      then (
        start_write loaded packet autostart_read read_timeout_us rx_byte_order inputs.started,
        true,
      )
      else (loaded, false)

-- startRead at the clock readings for the statistics and for the start.
unfoldable pub start_read : MapleBus → ℕ → ByteOrder → ℕ → ℕ → MapleBus × Bool
start_read bus read_timeout_us rx_byte_order entered started =
    let counted = record bus {
      stats = record (bus.stats) {
        num_reads = u64 (bus.stats.num_reads + 1);
        last_read_start_time = entered;
      };
    } in
    if is_busy bus then (counted, false) else (
      record counted {
        rx_byte_order = rx_byte_order;
        last_read_transfer_count = read_buffer_size;
        proc_start_time = started;
        proc_kill_offset_us = if read_timeout_us == no_timeout then no_timeout else read_timeout_us;
        current_phase = waiting_for_read_start;
        dir_output = false;
        in_running = true;
      },
      true,
    )
