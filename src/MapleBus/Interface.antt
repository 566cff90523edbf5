-- ===== src/MapleBus/Interface.antt =====
-- src/hal/MapleBus/MapleBus.cpp as the bus that TransmissionTimeliner.cpp uses, through the
-- interface of inc/hal/MapleBus/MapleBusInterface.hpp.
use dream_pico_port.Prelude.{ℕ, suc, ◌≡◌, Bool, true, false, List, [], ◌∷◌, ◌++◌, some, arith}
use dream_pico_port.Frame.{ByteOrder}
use dream_pico_port.Packet.{MaplePacket}
use dream_pico_port.Timeliner.{ends, BusStatus, Bus, Timeliner}
use dream_pico_port.Timeliner.Ledger.{
  Task, Entry, perform_all, pending, IsWatched, perform_all-Balanced,
}
use dream_pico_port.MapleBus.{MapleBus, is_busy, read_isr, write_isr, reset_sms}
use dream_pico_port.MapleBus.Writing.{WriteInputs, write}
use dream_pico_port.MapleBus.Events.{
  Look, read_complete_events, read_in_progress_events, check_crc, process_events,
}
use dream_pico_port.MapleBus.Phases.{
  Interrupt, write_done, read_edge, interrupt, IsSound, interrupt-IsSound, write-IsSound,
  process_events-IsSound,
}

-- What the hardware does around one call: the interrupts before it, and what the call reads.
pub record Moment : Type 0 where
  pub interrupts : List Interrupt
  pub look : Look
  pub write_inputs : WriteInputs

-- The bus with the hardware still to come.
pub record Wired : Type 0 where
  pub bus : MapleBus
  pub sound : IsSound bus
  pub moment : ℕ
  pub moments : ℕ → Moment

unfoldable pub deliver : MapleBus → List Interrupt → MapleBus
deliver bus [] = bus
deliver bus (i ∷ is) = deliver (interrupt bus i) is

pub deliver-IsSound :
    (bus : MapleBus) (is : List Interrupt) → IsSound bus → IsSound (deliver bus is)
unfolding deliver
deliver-IsSound bus [] v = v
deliver-IsSound bus (i ∷ is) v = deliver-IsSound (interrupt bus i) is (interrupt-IsSound bus i v)

abbrev pub interrupted : Wired → MapleBus
interrupted w = deliver w.bus (w.moments w.moment).interrupts

-- A call, made on the bus after its interrupts.
abbrev pub wired_process_events : Wired → ℕ → Wired × BusStatus
wired_process_events w time =
    let look = (w.moments w.moment).look in
    (
      record w {
        bus = (process_events (interrupted w) time look).0;
        sound =
            process_events-IsSound (interrupted w) time look
              (deliver-IsSound w.bus (w.moments w.moment).interrupts w.sound);
        moment = suc w.moment;
      },
      (process_events (interrupted w) time look).1.status,
    )

abbrev pub wired_write : Wired → MaplePacket → Bool → ℕ → ByteOrder → Wired × Bool
wired_write w packet autostart timeout order =
    let inputs = (w.moments w.moment).write_inputs in
    (
      record w {
        bus = (write (interrupted w) packet autostart timeout order inputs).0;
        sound =
            write-IsSound (interrupted w) packet autostart timeout order inputs
              (deliver-IsSound w.bus (w.moments w.moment).interrupts w.sound);
        moment = suc w.moment;
      },
      (write (interrupted w) packet autostart timeout order inputs).1,
    )

interrupt_busy :
    (bus : MapleBus) (i : Interrupt) → is_busy bus ≡ true → is_busy (interrupt bus i) ≡ true
unfolding interrupt write_isr read_isr is_busy
interrupt_busy bus (write_done now current_time) b = ground arith
interrupt_busy bus (read_edge now) b = ground arith

pub deliver_busy :
    (bus : MapleBus) (is : List Interrupt) → is_busy bus ≡ true → is_busy (deliver bus is) ≡ true
unfolding deliver
deliver_busy bus [] b = b
deliver_busy bus (i ∷ is) b = deliver_busy (interrupt bus i) is (interrupt_busy bus i b)

-- A write that the bus takes makes it busy.
pub write_busy :
    (bus : MapleBus) (p : MaplePacket) (r : Bool) (t : ℕ) (o : ByteOrder) (inputs : WriteInputs)
    → (write bus p r t o inputs).1 ≡ true
    → is_busy (write bus p r t o inputs).0 ≡ true
unfolding write is_busy
write_busy bus p r t o inputs taken = ground arith

-- A busy bus stays busy until processEvents reports a phase that ends the transmission.
pub process_events_busy :
    (bus : MapleBus) (time : ℕ) (look : Look)
    → IsSound bus
    → is_busy bus ≡ true
    → ends (process_events bus time look).1.status.phase ≡ false
    → is_busy (process_events bus time look).0 ≡ true
unfolding process_events read_complete_events read_in_progress_events check_crc reset_sms is_busy
process_events_busy bus time look v b going = ground arith

abbrev pub maple_bus : Bus
maple_bus = record {
  State = Wired;
  process_events = wired_process_events;
  is_busy = λ w. is_busy w.bus;
  write = wired_write;
  accepted_is_busy =
      λ w p r t o. write_busy (interrupted w) p r t o (w.moments w.moment).write_inputs;
  stays_busy = λ w time b.
      process_events_busy (interrupted w) time (w.moments w.moment).look
        (deliver-IsSound w.bus (w.moments w.moment).interrupts w.sound)
        (deliver_busy w.bus (w.moments w.moment).interrupts b);
}

-- The timeliner on this bus, whatever interrupts come before each of its calls and whatever the
-- calls read from the hardware: over a history of the two tasks that fails no assertion, what was
-- handed out as sent is reported back, in order and once each, but for the transmission that is
-- still out; this starts from a timeliner that has a transmission out only while the bus is busy.
pub perform_all-maple_bus :
    (t : Timeliner maple_bus) (tasks : List Task) (e : Entry maple_bus)
    → IsWatched maple_bus t
    → perform_all maple_bus t tasks ≡ some e
    → (pending maple_bus t ++ e.sent ≡ e.reported ++ pending maple_bus e.timeliner)
      × IsWatched maple_bus e.timeliner
perform_all-maple_bus t tasks e w h = perform_all-Balanced maple_bus t tasks e w h
