-- ===== src/Scheduler/Tests.antt =====
-- A schedule with two transmissions, one of which repeats.
use dream_pico_port.Prelude.{
  ℕ, suc, ◌≤◌, ◌≡◌, ◌⊎◌, refl, true, not, List, [], ◌∷◌, All, Option, none, some,
}
use dream_pico_port.Frame.{host}
use dream_pico_port.Packet.{MaplePacket}
use dream_pico_port.Transmission.{
  Transmission, TransmissionProperties, raw, shared, packet_duration_us,
}
use dream_pico_port.Scheduler.{
  Scheduler, init, add, insert_by_time, peek_next, get_tx, cancel_by_id, count_lists,
}
use dream_pico_port.Scheduler.Lanes.{IsScheduled, has_id}
use dream_pico_port.Scheduler.Peek.{NotBefore}
use dream_pico_port.Scheduler.Picks.{MayGo, IsHeld, peek_next-MayGo, peek_next-none}
use dream_pico_port.Scheduler.History.{Call, adds, pops, step, run, run-init-IsScheduled, step-pops}
use dream_pico_port.Scheduler.Cancel.{cancel_by_id_lem}
use dream_pico_port.Scheduler.Lanes.{selected}

abbrev packet_to : ℕ → MaplePacket
packet_to addr = record {
  frame = record { command = 9; recipient_addr = addr; sender_addr = 0; length = 0 };
  payload = [];
  payload_byte_order = host;
}

abbrev properties_to : ℕ → ℕ → ℕ → TransmissionProperties
properties_to addr priority repeat = record {
  priority = priority;
  tx_time = 100;
  packet = packet_to addr;
  expect_response = true;
  expected_response_num_payload_words = 3;
  auto_repeat_us = repeat;
  auto_repeat_end_time_us = 0;
  rx_byte_order = host;
}

abbrev calls : List Call
calls = adds (properties_to 0x20 1 16000) (raw 7) ∷ adds (properties_to 0x01 2 0) (shared 8) ∷ []

abbrev state_of : Option Scheduler → Scheduler
state_of none = record { sender_address = 0; next_id = 0; schedule = [] }
state_of (some s) = s

unfoldable filled : Scheduler
filled = state_of (run (init 0 2) calls)

filled-run : run (init 0 2) calls ≡ some filled
unfolding filled run init add
filled-run = refl

filled-IsScheduled : IsScheduled filled
filled-IsScheduled = run-init-IsScheduled 0 2 filled calls filled-run

run-init-IsScheduled_example : IsScheduled filled
run-init-IsScheduled_example = run-init-IsScheduled 0 2 filled calls filled-run

step-pops_example : (s' : Scheduler) × (step filled (pops 100) ≡ some s') × IsScheduled s'
step-pops_example = step-pops filled 100 filled-IsScheduled

unfoldable first : Transmission
first = record {
  transmission_id = 1;
  priority = 1;
  expect_response = true;
  tx_duration_us = packet_duration_us (properties_to 0x20 1 16000);
  auto_repeat_us = 16000;
  auto_repeat_end_time_us = 0;
  next_tx_time_us = 100;
  packet = packet_to 0x20;
  rx_byte_order = host;
  transmitter = some 7;
  sp_transmitter = none;
}

first-due : get_tx filled (peek_next filled 100) ≡ some first
unfolding filled run init add peek_next get_tx first insert_by_time
first-due = refl

nothing_due : get_tx filled (peek_next filled 99) ≡ none
unfolding filled run init add peek_next get_tx insert_by_time
nothing_due = refl

peek_next-MayGo_example : MayGo filled 100 (peek_next filled 100) first
peek_next-MayGo_example = peek_next-MayGo filled 100 first filled-IsScheduled first-due

peek_next-none_example : All (NotBefore (suc 99)) filled.schedule ⊎ ((k : ℕ) × IsHeld filled 99 k)
peek_next-none_example = peek_next-none filled 99 filled-IsScheduled nothing_due

cancel_by_id_example :
    let r = cancel_by_id filled 2 in
    (r.1 ≡ count_lists (has_id 2) filled.schedule)
    × (r.1 ≤ 1)
    × (count_lists (has_id 2) r.0.schedule ≡ 0)
    × (r.0 ≡ record filled { schedule = selected (λ tx. not (has_id 2 tx)) filled.schedule })
cancel_by_id_example = cancel_by_id_lem filled 2 filled-IsScheduled
