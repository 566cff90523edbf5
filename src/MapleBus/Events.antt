-- ===== src/MapleBus/Events.antt =====
-- src/hal/MapleBus/MapleBus.cpp: MapleBus::processEvents, by phase.
use dream_pico_port.Prelude.{
  ℕ, ◌+◌, ◌-◌, Bool, false, ◌&&◌, ◌==◌, ltb, leb, u8, u64, ◌>>>◌, bit_and, if◌then◌else◌, List, [],
  length, take, get_or,
}
use dream_pico_port.Frame.{ByteOrder, host, is_host}
use dream_pico_port.Timeliner.{
  Phase, write_in_progress, write_failed, write_complete, waiting_for_read_start, read_in_progress,
  read_failed, read_complete, BusStatus,
}
use dream_pico_port.MapleBus.{
  FailureReason, no_failure, crc_invalid, missing_data, buffer_overflow, timeout, MapleStats,
  MapleBus, read_buffer_size, no_timeout, maple_inter_word_read_timeout_us, offset_from, crc8_words,
  reset_sms,
}

-- What processEvents reads from the hardware: the words that the read channel has transferred (at
-- the end of the wait for the FIFO, in READ_COMPLETE), and the clock.
pub record Look : Type 0 where
  pub received : List ℕ
  pub now : ℕ

-- Status with its failure reason.
pub record Report : Type 0 where
  pub status : BusStatus
  pub failure_reason : FailureReason

abbrev pub report : Phase → FailureReason → Report
report phase reason = record {
  status = record { phase = phase; read_buffer = []; read_buffer_len = 0; rx_byte_order = host };
  failure_reason = reason;
}

abbrev pub transfer_count : Look → ℕ
transfer_count look = read_buffer_size - length look.received

-- The byte of a word at the end of it that the byte order has the length and the CRC at.
abbrev pub edge_byte : ByteOrder → ℕ → ℕ
edge_byte order word = if is_host order then u8 (bit_and word 0xFF) else u8 (word >>> 24)

abbrev pub count_incomplete : MapleStats → MapleStats
count_incomplete stats = record stats {
  num_read_fail_incomplete = u64 (stats.num_read_fail_incomplete + 1);
}

unfoldable pub check_crc : MapleBus → List ℕ → ℕ → ℕ → MapleBus × Report
check_crc bus words last now =
    let copied = record bus { last_read = words; current_phase = Phase.idle } in
    if crc8_words words 0 == edge_byte bus.rx_byte_order last
    then (
      record copied { stats = record (bus.stats) { last_read_complete_time = now } },
      record {
        status = record {
          phase = read_complete;
          read_buffer = words;
          read_buffer_len = length words;
          rx_byte_order = bus.rx_byte_order;
        };
        failure_reason = no_failure;
      },
    )
    else (
      record copied {
        stats = record (bus.stats) { num_read_fail_crc = u64 (bus.stats.num_read_fail_crc + 1) };
      },
      report read_failed crc_invalid,
    )

unfoldable pub read_complete_events : MapleBus → Look → MapleBus × Report
unfolding check_crc
read_complete_events bus look =
    let words_read = length look.received in
    let incomplete : MapleBus × Report = (
      record bus { stats = count_incomplete bus.stats; current_phase = Phase.idle },
      report read_failed missing_data,
    ) in
    if ltb 1 words_read
    then (if leb (edge_byte bus.rx_byte_order (get_or look.received 0 0)) (words_read - 2)
        then check_crc bus (take (words_read - 1) look.received)
            (get_or look.received (words_read - 1) 0) look.now
        else incomplete)
    else incomplete

-- mSmIn is disabled, and the bus is idle again.
fail_reading : MapleBus → MapleStats → FailureReason → MapleBus × Report
fail_reading bus stats reason = (
  record bus { in_running = false; stats = stats; current_phase = Phase.idle },
  report read_failed reason,
)

-- No word for too long, at a current time.
abbrev pub is_stalled : MapleBus → ℕ → Bool
is_stalled bus current_time_us =
    let last_time = u64 (bus.proc_start_time + bus.last_received_word_offset_us) in
    ltb last_time current_time_us
    && leb maple_inter_word_read_timeout_us (current_time_us - last_time)

unfoldable pub read_in_progress_events : MapleBus → ℕ → Look → MapleBus × Report
unfolding fail_reading
read_in_progress_events bus current_time_us look =
    if transfer_count look == 0
    then fail_reading bus
        (record (bus.stats) { num_read_fail_overflow = u64 (bus.stats.num_read_fail_overflow + 1) })
        buffer_overflow
    else if bus.last_read_transfer_count == transfer_count look
    then (if is_stalled bus current_time_us
        then fail_reading bus
            (record (bus.stats) {
              num_read_fail_timeout = u64 (bus.stats.num_read_fail_timeout + 1);
            })
            timeout
        else (bus, report read_in_progress no_failure))
    else (
      record bus {
        last_read_transfer_count = transfer_count look;
        last_received_word_offset_us = offset_from bus.proc_start_time current_time_us;
      },
      report read_in_progress no_failure,
    )

-- The time is past the kill time, and there is one.
abbrev pub is_killed : MapleBus → ℕ → Bool
is_killed bus current_time_us =
    leb (u64 (bus.proc_start_time + bus.proc_kill_offset_us)) current_time_us
    && ltb bus.proc_kill_offset_us no_timeout

unfoldable pub process_events : MapleBus → ℕ → Look → MapleBus × Report
process_events bus current_time_us look = elim bus.current_phase [
  | Phase.idle ↦ (bus, report Phase.idle no_failure)
  | read_complete ↦ read_complete_events bus look
  | write_complete ↦ (
    record bus {
      stats = record (bus.stats) { last_write_complete_time = look.now };
      current_phase = Phase.idle;
    },
    report write_complete no_failure,
  )
  | read_in_progress ↦ read_in_progress_events bus current_time_us look
  | waiting_for_read_start ↦
      if is_killed bus current_time_us
      then (
        reset_sms (record bus {
          stats = record (bus.stats) { num_null_reads = u64 (bus.stats.num_null_reads + 1) };
        }),
        report read_failed timeout,
      )
      else (bus, report waiting_for_read_start no_failure)
  | write_in_progress ↦
      if is_killed bus current_time_us
      then (
        reset_sms (record bus {
          stats = record (bus.stats) { num_write_fail = u64 (bus.stats.num_write_fail + 1) };
        }),
        report write_failed timeout,
      )
      else (bus, report write_in_progress no_failure)
  | phase ↦ (reset_sms bus, report phase no_failure)
]
