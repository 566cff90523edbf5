-- ===== src/MapleBus/Phases.antt =====
-- src/hal/MapleBus/MapleBus.cpp: the phases of a bus, its two state machines and its direction over
-- any history of calls and interrupts.
use dream_pico_port.Prelude.{ℕ, ◌≡◌, refl, Bool, true, false, List, [], ◌∷◌, arith, if◌then◌else◌}
use dream_pico_port.Frame.{ByteOrder}
use dream_pico_port.Packet.{MaplePacket}
use dream_pico_port.Timeliner.{
  Phase, write_in_progress, write_failed, write_complete, waiting_for_read_start, read_in_progress,
  read_failed, read_complete, invalid,
}
use dream_pico_port.MapleBus.{
  MapleBus, make_bus, is_busy, set_callback, read_isr, write_isr, reset_sms,
}
use dream_pico_port.MapleBus.Writing.{WriteInputs, write, start_read}
use dream_pico_port.MapleBus.Events.{
  Look, read_complete_events, read_in_progress_events, check_crc, process_events,
}

-- The clock readings of each ISR.
pub data Interrupt : Type 0 where
  write_done : ℕ → ℕ → Interrupt
  read_edge : ℕ → Interrupt

-- What the interrupt handlers, which dispatch over the buses, do to this bus. A state machine raises its
-- interrupt only while it runs.
unfoldable pub interrupt : MapleBus → Interrupt → MapleBus
interrupt bus (write_done now current_time) =
    if bus.out_running then (write_isr bus now current_time).0 else bus
interrupt bus (read_edge now) = if bus.in_running then (read_isr bus now).0 else bus

pub data BusEvent : Type 0 where
  interrupts : Interrupt → BusEvent
  writes : MaplePacket → Bool → ℕ → ByteOrder → WriteInputs → BusEvent
  starts_read : ℕ → ByteOrder → ℕ → ℕ → BusEvent
  processes : ℕ → Look → BusEvent
  sets_callback : Bool → BusEvent

unfoldable pub happen : MapleBus → BusEvent → MapleBus
unfolding interrupt
happen bus (interrupts i) = interrupt bus i
happen bus (writes packet autostart timeout order inputs) =
    (write bus packet autostart timeout order inputs).0
happen bus (starts_read timeout order entered started) =
    (start_read bus timeout order entered started).0
happen bus (processes time look) = (process_events bus time look).0
happen bus (sets_callback given) = set_callback bus given

unfoldable pub happen_all : MapleBus → List BusEvent → MapleBus
unfolding happen
happen_all bus [] = bus
happen_all bus (e ∷ es) = happen_all (happen bus e) es

-- Which state machine runs in a phase, and the direction. The direction of an idle bus is open.
abbrev pub Agrees : Phase → Bool → Bool → Bool → Type 0
Agrees Phase.idle out into dir = (out ≡ false) × (into ≡ false)
Agrees write_in_progress out into dir = (out ≡ true) × (into ≡ false) × (dir ≡ true)
Agrees waiting_for_read_start out into dir = (out ≡ false) × (into ≡ true) × (dir ≡ false)
Agrees read_in_progress out into dir = (out ≡ false) × (into ≡ true) × (dir ≡ false)
Agrees write_complete out into dir = (out ≡ false) × (into ≡ false) × (dir ≡ false)
Agrees read_complete out into dir = (out ≡ false) × (into ≡ false) × (dir ≡ false)
Agrees write_failed out into dir = ⊥
Agrees read_failed out into dir = ⊥
Agrees invalid out into dir = ⊥

abbrev pub IsSound : MapleBus → Type 0
IsSound bus = Agrees bus.current_phase bus.out_running bus.in_running bus.dir_output

pub interrupt-IsSound : (bus : MapleBus) (i : Interrupt) → IsSound bus → IsSound (interrupt bus i)
unfolding interrupt write_isr read_isr
interrupt-IsSound bus (write_done now current_time) v = ground arith
interrupt-IsSound bus (read_edge now) v = ground arith

pub write-IsSound :
    (bus : MapleBus) (p : MaplePacket) (r : Bool) (t : ℕ) (o : ByteOrder) (inputs : WriteInputs)
    → IsSound bus
    → IsSound (write bus p r t o inputs).0
unfolding write is_busy
write-IsSound bus p r t o inputs v = ground arith

start_read-IsSound :
    (bus : MapleBus) (t : ℕ) (o : ByteOrder) (entered started : ℕ)
    → IsSound bus
    → IsSound (start_read bus t o entered started).0
unfolding start_read is_busy
start_read-IsSound bus t o entered started v = ground arith

pub process_events-IsSound :
    (bus : MapleBus) (time : ℕ) (look : Look)
    → IsSound bus
    → IsSound (process_events bus time look).0
unfolding process_events read_complete_events read_in_progress_events check_crc reset_sms
process_events-IsSound bus time look v = ground arith

happen-IsSound : (bus : MapleBus) (e : BusEvent) → IsSound bus → IsSound (happen bus e)
unfolding happen set_callback
happen-IsSound bus (interrupts i) v = interrupt-IsSound bus i v
happen-IsSound bus (writes p r t o inputs) v = write-IsSound bus p r t o inputs v
happen-IsSound bus (starts_read t o entered started) v =
    start_read-IsSound bus t o entered started v
happen-IsSound bus (processes time look) v = process_events-IsSound bus time look v
happen-IsSound bus (sets_callback given) v = v

happen_all-IsSound :
    (bus : MapleBus) (es : List BusEvent) → IsSound bus → IsSound (happen_all bus es)
unfolding happen_all
happen_all-IsSound bus [] v = v
happen_all-IsSound bus (e ∷ es) v = happen_all-IsSound (happen bus e) es (happen-IsSound bus e v)

-- In any history from a new bus, where a state machine interrupts only while it runs: the output
-- state machine runs exactly in WRITE_IN_PROGRESS and the input one exactly while a read waits or
-- goes on, the direction is output in WRITE_IN_PROGRESS and input in every other phase but IDLE,
-- and the phase between calls is never INVALID, WRITE_FAILED or READ_FAILED.
pub happen_all-make_bus-IsSound :
    (pin_a : ℕ) (es : List BusEvent) → IsSound (happen_all (make_bus pin_a) es)
unfolding make_bus
happen_all-make_bus-IsSound pin_a es = happen_all-IsSound (make_bus pin_a) es (refl, refl)
