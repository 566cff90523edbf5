-- ===== src/MapleBus/Tests.antt =====
-- A bus on pins 10 and 11 that writes a packet and reads it back.
use dream_pico_port.Prelude.{
  ◌+◌, ◌*◌, ◌≤◌, ℕ, ◌≡◌, ◌≢◌, inl, refl, true, false, List, [], ◌∷◌, ◌++◌, drop, replicate, Option,
  none, some, arith, bit_xor,
}
use dream_pico_port.Frame.{host}
use dream_pico_port.Packet.{MaplePacket}
use dream_pico_port.Transmission.{Transmission}
use dream_pico_port.Scheduler.{Scheduler, get_tx, peek_next, insert_by_time, pop_item, repeats}
use dream_pico_port.Timeliner.{
  Phase, read_in_progress, read_complete, read_failed, write_failed, Timeliner, received_packet,
  read_task, write_task,
}
use dream_pico_port.Timeliner.Ledger.{Task, reads, writes, Entry, perform_all, pending, IsWatched}
use dream_pico_port.MapleBus.{
  MapleBus, make_bus, timeout, crc8_words, crc8_word, xor_words, is_busy, write_isr, read_isr,
}
use dream_pico_port.MapleBus.Writing.{WriteInputs, write, written_words, line_check}
use dream_pico_port.MapleBus.Events.{Look, process_events, edge_byte}
use dream_pico_port.MapleBus.Loopback.{process_events-written_words, process_events_damaged}
use dream_pico_port.MapleBus.Phases.{
  BusEvent, interrupts, write_done, read_edge, IsSound, happen_all, happen_all-make_bus-IsSound,
}
use dream_pico_port.MapleBus.Timeouts.{
  process_events_late_write, AllBefore, look_all, look_all_ends,
}
use dream_pico_port.MapleBus.Writing.{write_kill_offset}
use dream_pico_port.Packet.{packet_tx_time_ns}
use dream_pico_port.MapleBus.Interface.{Moment, Wired, deliver, maple_bus, perform_all-maple_bus}

abbrev packet : MaplePacket
packet = record {
  frame = record { command = 9; recipient_addr = 0x20; sender_addr = 0; length = 1 };
  payload = 0x01000000 ∷ [];
  payload_byte_order = host;
}

abbrev both_high : ℕ
both_high = 0xC00

abbrev inputs : WriteInputs
inputs = record {
  entered = 90;
  line_checked = 90;
  rounds = (both_high, 95) ∷ (both_high, 101) ∷ [];
  started = 102;
}

abbrev nothing_read : Look
nothing_read = record { received = []; now = 0 }

abbrev fresh : MapleBus
fresh = make_bus 10

written : (write fresh packet true 1000 host inputs).1 ≡ true
unfolding write is_busy make_bus line_check
written = refl

abbrev history : List BusEvent
history =
    BusEvent.writes packet true 1000 host inputs
    ∷ interrupts (write_done 180 181)
    ∷ interrupts (read_edge 240)
    ∷ interrupts (read_edge 300)
    ∷ []

happen_all-make_bus-IsSound_example : IsSound (happen_all (make_bus 10) history)
happen_all-make_bus-IsSound_example = happen_all-make_bus-IsSound 10 history

-- The history ends with a complete read.
unfoldable answered : MapleBus
answered = happen_all fresh history

answered_phase : answered.current_phase ≡ read_complete
unfolding answered happen_all make_bus write is_busy line_check write_isr read_isr
answered_phase = refl

answered_order : answered.rx_byte_order ≡ host
unfolding answered happen_all make_bus write is_busy line_check write_isr read_isr
answered_order = refl

process_events-written_words_example :
    let r =
      process_events answered 310
        (record { received = drop 1 (written_words packet); now = 311 }) in
    (r.1.status.phase ≡ read_complete)
    × (received_packet r.1.status ≡ packet)
    × (r.0.current_phase ≡ Phase.idle)
process_events-written_words_example =
    process_events-written_words packet answered 310 311 (omega arith) refl (omega arith)
      answered_phase answered_order

damage : crc8_word 0x40 0 ≢ 0
unfolding crc8_word
damage e = absurd (omega arith)

right_crc : crc8_words (0x09200001 ∷ 0x01000000 ∷ []) 0 ≡ 0x29
unfolding crc8_words crc8_word xor_words
right_crc = refl

last_byte : edge_byte host 0x29 ≡ 0x29
last_byte = refl

process_events_damaged_example :
    let look : Look = record {
      received = (0x09200001 ∷ bit_xor 0x01000000 0x40 ∷ []) ++ 0x29 ∷ [];
      now = 311;
    } in
    (process_events answered 310 look).1.status.phase ≡ read_failed
process_events_damaged_example =
    process_events_damaged answered (0x09200001 ∷ []) [] 0x01000000 0x40 0x29 310 311 answered_phase
      (rw answered_order right_crc) damage

-- The bus is looked at while the packet goes out.
abbrev early_looks : List (ℕ × Look)
early_looks = (300, nothing_read) ∷ (1000, nothing_read) ∷ []

early_looks-AllBefore : AllBefore (inputs.started + write_kill_offset packet) early_looks
unfolding write_kill_offset packet_tx_time_ns
early_looks-AllBefore = (omega arith, (omega arith, tt))

late_time : inputs.started + write_kill_offset packet ≤ 6000
unfolding write_kill_offset packet_tx_time_ns
late_time = omega arith

process_events_late_write_example :
    let waiting = look_all (write fresh packet true 1000 host inputs).0 early_looks in
    let e = process_events waiting 6000 nothing_read in
    (packet_tx_time_ns packet + 1000 * 1000 ≤ write_kill_offset packet * 1000)
    × (write_kill_offset packet ≤ 5732)
    × (waiting ≡ (write fresh packet true 1000 host inputs).0)
    × (e.1.status.phase ≡ write_failed)
    × (e.1.failure_reason ≡ timeout)
    × (e.0.current_phase ≡ Phase.idle)
process_events_late_write_example =
    process_events_late_write fresh packet true 1000 host inputs early_looks 6000 nothing_read
      (omega arith) (omega arith) written early_looks-AllBefore late_time

-- Two words are left when the bus is looked at.
abbrev reading : MapleBus
reading = record fresh {
  in_running = true;
  current_phase = read_in_progress;
  proc_start_time = 100;
  last_received_word_offset_us = 200;
  last_read_transfer_count = 2;
}

abbrev one_left : Look
one_left = record { received = replicate 257 0; now = 0 }

look_all_ends_example :
    (look_all reading ((700, one_left) ∷ (1000, one_left) ∷ (1300, one_left) ∷ [])).current_phase
    ≡ Phase.idle
look_all_ends_example =
    look_all_ends reading ((700, one_left) ∷ (1000, one_left) ∷ (1300, one_left) ∷ []) refl
      (omega arith) (omega arith) (omega arith) (omega arith)

abbrev moment_of : ℕ → Moment
moment_of n = record {
  interrupts = write_done 180 181 ∷ [];
  look = nothing_read;
  write_inputs = inputs;
}

abbrev wired : Wired
wired = record {
  bus = happen_all (make_bus 10) [];
  sound = happen_all-make_bus-IsSound 10 [];
  moment = 0;
  moments = moment_of;
}

abbrev transmission : Transmission
transmission = record {
  transmission_id = 1;
  priority = 0;
  expect_response = false;
  tx_duration_us = 100;
  auto_repeat_us = 0;
  auto_repeat_end_time_us = 0;
  next_tx_time_us = 0;
  packet = packet;
  rx_byte_order = host;
  transmitter = some 7;
  sp_transmitter = none;
}

abbrev scheduled : Scheduler
scheduled = record { sender_address = 0; next_id = 2; schedule = (transmission ∷ []) ∷ [] ∷ [] }

abbrev waiting : Timeliner maple_bus
waiting = record { bus_state = wired; schedule = scheduled; current_tx = none }

abbrev tasks : List Task
tasks = writes 100 ∷ reads 200 ∷ []

abbrev entry_of : Option (Entry maple_bus) → Entry maple_bus
entry_of none = record { timeliner = waiting; sent = []; reported = [] }
entry_of (some e) = e

unfoldable performed : Entry maple_bus
performed = entry_of (perform_all maple_bus waiting tasks)

performed-result : perform_all maple_bus waiting tasks ≡ some performed
unfolding performed perform_all make_bus write write_isr happen_all deliver is_busy line_check
    write_task read_task get_tx peek_next pop_item repeats process_events insert_by_time
performed-result = refl

perform_all-maple_bus_example :
    (pending maple_bus waiting ++ performed.sent
      ≡ performed.reported ++ pending maple_bus performed.timeliner)
    × IsWatched maple_bus performed.timeliner
perform_all-maple_bus_example =
    perform_all-maple_bus waiting tasks performed (inl refl) performed-result
