-- ===== src/MainPeripheral/Tasks.antt =====
-- src/clientLib/DreamcastMainPeripheral.cpp, task: what is done about the bus's report. The bus is the
-- interface of inc/hal/MapleBus/MapleBusInterface.hpp, a parameter.
use dream_pico_port.Prelude.{
  ℕ, Bool, true, false, ◌&&◌, ◌==◌, u8, if◌then◌else◌, take, Option, none, some,
}
use dream_pico_port.Frame.{ByteOrder, host}
use dream_pico_port.Packet.{MaplePacket, update_frame_length, set_words, reset as reset_packet}
use dream_pico_port.Storage.{Handled}
use dream_pico_port.Timeliner.{
  Phase, idle, write_in_progress, write_failed, write_complete, waiting_for_read_start,
  read_in_progress, read_failed, read_complete, invalid, BusStatus,
}
use dream_pico_port.MapleBus.{
  FailureReason, no_failure, crc_invalid, missing_data, buffer_overflow, timeout,
}
use dream_pico_port.MapleBus.Events.{Report}
use dream_pico_port.Peripheral.{Functions, get_address}
use dream_pico_port.MainPeripheral.{
  MainPeripheral, reset_main, dispense_packet, command_response_request_resend,
}

abbrev pub read_timeout_us : ℕ
read_timeout_us = 1000000

-- The bus of a client.
pub record ClientBus : Type 1 where
  pub State : Type 0
  pub process_events : State → ℕ → State × Report
  pub write : State → MaplePacket → Bool → ℕ → ByteOrder → State × Bool
  pub start_read : State → ℕ → ByteOrder → State × Bool

-- What a task has the bus do, at most one thing.
pub data Action : Type 0 where
  nothing start_reading : Action
  writing : MaplePacket → Action

abbrev pub is_crc_invalid : FailureReason → Bool
is_crc_invalid crc_invalid = true
is_crc_invalid no_failure = false
is_crc_invalid missing_data = false
is_crc_invalid buffer_overflow = false
is_crc_invalid timeout = false

module _ (functions : Functions) where
  abbrev pub Main : Type 0
  Main = MainPeripheral functions

  -- The request to send again.
  unfoldable pub ask_again : Main → Main × Action
  ask_again d =
      let cleared = reset_packet d.packet_out in
      let out = update_frame_length (record cleared {
        frame = record (cleared.frame) {
          command = command_response_request_resend;
          recipient_addr = d.last_sender;
          sender_addr = get_address functions d.base;
        };
      }) in
      (record d { packet_out = out }, writing out)

  unfoldable pub start_over : Main → Main × Action
  start_over d = (reset_main functions d, start_reading)

  -- MaplePacket::set takes the count of words as a uint8_t.
  abbrev pub packet_from : Main → BusStatus → MaplePacket
  packet_from d st = set_words d.packet_in (take (u8 st.read_buffer_len) st.read_buffer) host

  unfoldable pub answer : Main → Bool → Main × Action
  answer d write_it =
      if write_it
      then (record d { packet_sent = true; last_packet_out = d.packet_out }, writing d.packet_out)
      else (d, start_reading)

  unfoldable pub send_again : Main → Main × Action
  unfolding answer
  send_again d =
      if d.packet_sent
      then answer (record d { packet_out = d.last_packet_out }) true
      else answer d false

  abbrev pub answer_dispensed : Option (Main × Handled) → Option (Main × Action)
  answer_dispensed none = none
  answer_dispensed (some (d, h)) = some (answer (record d { packet_out = h.out }) h.handled)

  unfoldable pub answer_packet : Main → MaplePacket → Option (Main × Action)
  answer_packet before p =
      let d = record before { packet_in = p; last_sender = p.frame.sender_addr } in
      if p.frame.command == command_response_request_resend
      then some (send_again d)
      else answer_dispensed (dispense_packet functions d p d.packet_out)

  -- The switch of task; `none` is a read out of bounds.
  abbrev pub react_to : Phase → Main → Report → Option (Main × Action)
  react_to read_failed d r =
      some
        (if is_crc_invalid r.failure_reason && d.base.connected then ask_again d else start_over d)
  react_to invalid d r = some (start_over d)
  react_to idle d r = some (start_over d)
  react_to write_failed d r = some (d, start_reading)
  react_to write_complete d r = some (d, start_reading)
  react_to write_in_progress d r = some (d, nothing)
  react_to waiting_for_read_start d r = some (d, nothing)
  react_to read_in_progress d r = some (d, nothing)
  react_to read_complete d r = answer_packet d (packet_from d r.status)

  unfoldable pub react : Main → Report → Option (Main × Action)
  react d r = react_to r.status.phase d r

  module _ (bus : ClientBus) where
    open bus use {State, process_events, write, start_read}

    -- The results of write and startRead are not looked at.
    unfoldable pub use_bus : State → Action → State
    use_bus b nothing = b
    use_bus b start_reading = (start_read b read_timeout_us host).0
    use_bus b (writing p) = (write b p true read_timeout_us host).0

    unfoldable pub task : Main × State → ℕ → Option (Main × State)
    task (d, b) now =
        let (b', r) = process_events b now in
        elim (react d r) [ none ↦ none | some (e, action) ↦ some (e, use_bus b' action) ]
