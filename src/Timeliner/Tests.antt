-- ===== src/Timeliner/Tests.antt =====
-- A bus that takes every packet and has written it at the next look, and packets that it reads.
use dream_pico_port.Prelude.{
  ℕ, ◌≡◌, inl, refl, Bool, true, false, List, [], ◌∷◌, ◌++◌, replicate, Option, none, some,
}
use dream_pico_port.Frame.{host}
use dream_pico_port.Packet.{MaplePacket}
use dream_pico_port.Transmission.{Transmission, TransmissionProperties, raw}
use dream_pico_port.Scheduler.{
  Scheduler, init, add, get_tx, peek_next, insert_by_time, pop_item, repeats,
}
use dream_pico_port.Scheduler.History.{Call, adds, run, run-init-IsScheduled}
use dream_pico_port.Timeliner.{Phase, write_complete, ends, Bus, Timeliner, write_task}
use dream_pico_port.Timeliner.Tasks.{Outcome, write_task-Outcome}
use dream_pico_port.Timeliner.Ledger.{
  Task, reads, writes, Entry, perform_all, pending, IsWatched, perform_all-Balanced,
}

abbrev phase_of : Bool → Phase
phase_of true = write_complete
phase_of false = Phase.idle

stays : (b : Bool) → b ≡ true → ends (phase_of b) ≡ false → false ≡ true
stays true e f = absurd (cc f)
stays false e f = e

-- Its state is whether it is busy.
abbrev prompt_bus : Bus
prompt_bus = record {
  State = Bool;
  process_events = λ b t. (
    false,
    record { phase = phase_of b; read_buffer = []; read_buffer_len = 0; rx_byte_order = host },
  );
  is_busy = λ b. b;
  write = λ b p r t o. (true, true);
  accepted_is_busy = λ b p r t o e. refl;
  stays_busy = λ b t e f. stays b e f;
}

abbrev reset_packet : MaplePacket
reset_packet = record {
  frame = record { command = 3; recipient_addr = 0x20; sender_addr = 0; length = 0 };
  payload = [];
  payload_byte_order = host;
}

abbrev reset_properties : TransmissionProperties
reset_properties = record {
  priority = 1;
  tx_time = 0;
  packet = reset_packet;
  expect_response = false;
  expected_response_num_payload_words = 0;
  auto_repeat_us = 0;
  auto_repeat_end_time_us = 0;
  rx_byte_order = host;
}

abbrev calls : List Call
calls = adds reset_properties (raw 7) ∷ []

abbrev state_of : Option Scheduler → Scheduler
state_of none = record { sender_address = 0; next_id = 0; schedule = [] }
state_of (some s) = s

unfoldable filled : Scheduler
filled = state_of (run (init 0 2) calls)

filled-run : run (init 0 2) calls ≡ some filled
unfolding filled run init add
filled-run = refl

abbrev waiting : Timeliner prompt_bus
waiting = record { bus_state = false; schedule = filled; current_tx = none }

write_task-Outcome_example :
    (t' : Timeliner prompt_bus) × (tx : Option Transmission) × (write_task prompt_bus waiting 5
      ≡ some (t', tx))
    × Outcome prompt_bus waiting 5 t' tx
write_task-Outcome_example =
    write_task-Outcome prompt_bus waiting 5 (run-init-IsScheduled 0 2 filled calls filled-run)

abbrev tasks : List Task
tasks = writes 5 ∷ writes 6 ∷ reads 7 ∷ []

abbrev entry_of : Option (Entry prompt_bus) → Entry prompt_bus
entry_of none = record { timeliner = waiting; sent = []; reported = [] }
entry_of (some e) = e

unfoldable performed : Entry prompt_bus
performed = entry_of (perform_all prompt_bus waiting tasks)

performed-result : perform_all prompt_bus waiting tasks ≡ some performed
unfolding performed perform_all filled run init add write_task get_tx peek_next insert_by_time
    pop_item repeats
performed-result = refl

perform_all-Balanced_example :
    (pending prompt_bus waiting ++ performed.sent
      ≡ performed.reported ++ pending prompt_bus performed.timeliner)
    × IsWatched prompt_bus performed.timeliner
perform_all-Balanced_example =
    perform_all-Balanced prompt_bus waiting tasks performed (inl refl) performed-result

abbrev long_packet : ℕ → MaplePacket
long_packet n = record {
  frame = record { command = 8; recipient_addr = 0; sender_addr = 0x20; length = n };
  payload = replicate n 5;
  payload_byte_order = host;
}
