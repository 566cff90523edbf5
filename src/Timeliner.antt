-- ===== src/Timeliner.antt =====
-- src/hostLib/TransmissionTimeliner.cpp and .hpp: it moves due transmissions from the schedule to the
-- Maple bus, and what the bus reports back to whoever scheduled it. The bus is the interface of
-- inc/hal/MapleBus/MapleBusInterface.hpp, a parameter with its documented behaviour as laws.
pub mod Tasks
pub mod Ledger
pub mod Received
pub mod Tests
use dream_pico_port.Prelude.{
  ℕ, ◌≡◌, Bool, true, false, u8, if◌then◌else◌, List, take, Option, none, some,
}
use dream_pico_port.Frame.{ByteOrder}
use dream_pico_port.Packet.{MaplePacket, make_words}
use dream_pico_port.Transmission.{Transmission}
use dream_pico_port.Scheduler.{Scheduler, ScheduleItem, peek_next, get_tx, pop_item}

pub data Phase : Type 0 where
  idle write_in_progress write_failed write_complete : Phase
  waiting_for_read_start read_in_progress read_failed read_complete invalid : Phase

-- MapleBusInterface::Status, without the reason of a failure, which is not read here.
pub record BusStatus : Type 0 where
  pub phase : Phase
  pub read_buffer : List ℕ
  pub read_buffer_len : ℕ
  pub rx_byte_order : ByteOrder

-- The phases that end a transmission.
abbrev pub ends : Phase → Bool
ends write_failed = true
ends write_complete = true
ends read_failed = true
ends read_complete = true
ends _ = false

-- The bus as its client sees it: once a write is accepted the bus is busy, and a busy bus stays busy
-- until `processEvents` reports a phase that ends the transmission.
pub record Bus : Type 1 where
  pub State : Type 0
  pub process_events : State → ℕ → State × BusStatus
  pub is_busy : State → Bool
  pub write : State → MaplePacket → Bool → ℕ → ByteOrder → State × Bool
  pub accepted_is_busy :
      (b : State) (p : MaplePacket) (r : Bool) (t : ℕ) (o : ByteOrder)
      → (write b p r t o).1 ≡ true
      → is_busy (write b p r t o).0 ≡ true
  pub stays_busy :
      (b : State) (time : ℕ)
      → is_busy b ≡ true
      → ends (process_events b time).1.phase ≡ false
      → is_busy (process_events b time).0 ≡ true

abbrev pub maple_response_timeout_us : ℕ
maple_response_timeout_us = 1000

pub record ReadStatus : Type 0 where
  pub transmission : Option Transmission
  pub received : Option MaplePacket
  pub bus_phase : Phase

-- MaplePacket takes the count of words as a uint8_t.
unfoldable pub received_packet : BusStatus → MaplePacket
received_packet st = make_words (take (u8 st.read_buffer_len) st.read_buffer) st.rx_byte_order

module _ (bus : Bus) where
  open bus use {State, process_events, is_busy, write}

  pub record Timeliner : Type 0 where
    pub bus_state : State
    pub schedule : Scheduler
    pub current_tx : Option Transmission

  -- What is done with the status of the bus.
  read_status : Timeliner → BusStatus → Timeliner × ReadStatus
  read_status t st = elim st.phase [
    | read_complete ↦ (
      record t { current_tx = none },
      record {
        transmission = t.current_tx;
        received = some (received_packet st);
        bus_phase = read_complete;
      },
    )
    | write_complete ↦ (
      record t { current_tx = none },
      record { transmission = t.current_tx; received = none; bus_phase = write_complete },
    )
    | read_failed ↦ (
      record t { current_tx = none },
      record { transmission = t.current_tx; received = none; bus_phase = read_failed },
    )
    | write_failed ↦ (
      record t { current_tx = none },
      record { transmission = t.current_tx; received = none; bus_phase = write_failed },
    )
    | phase ↦ (t, record { transmission = none; received = none; bus_phase = phase })
  ]

  unfoldable pub read_task : Timeliner → ℕ → Timeliner × ReadStatus
  unfolding read_status
  read_task t time =
      let (b, st) = process_events t.bus_state time in read_status (record t { bus_state = b }) st

  -- After `write`: the item is popped if the bus took the packet. `mCurrentTx` is the object that the
  -- schedule may have put back, with its new time. `none` is a failed assertion.
  after_write : Timeliner → ScheduleItem → State × Bool → Option (Timeliner × Option Transmission)
  after_write t item (b, true) = elim (pop_item t.schedule item) [
    | none ↦ none
    | some r ↦ some (record t { bus_state = b; schedule = r.scheduler; current_tx = r.tx }, r.tx)
  ]
  after_write t item (b, false) = some (record t { bus_state = b }, none)

  -- What `peekNext` found is offered to the bus.
  offer : Timeliner → ScheduleItem → Option Transmission → Option (Timeliner × Option Transmission)
  unfolding after_write
  offer t item none = some (t, none)
  offer t item (some tx) =
      after_write t item
        (write t.bus_state tx.packet tx.expect_response maple_response_timeout_us tx.rx_byte_order)

  unfoldable pub write_task : Timeliner → ℕ → Option (Timeliner × Option Transmission)
  unfolding offer
  write_task t time =
      if is_busy t.bus_state
      then some (t, none)
      else let item = peek_next t.schedule time in offer t item (get_tx t.schedule item)
