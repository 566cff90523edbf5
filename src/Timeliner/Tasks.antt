-- ===== src/Timeliner/Tasks.antt =====
-- TransmissionTimeliner::writeTask: what it may hand out.
use dream_pico_port.Prelude.{
  ℕ, ◌≡◌, inl, inr, refl, Bool, true, false, Option, none, some, if◌then◌else◌, Bool-cases,
  Option-cases,
}
use dream_pico_port.Transmission.{Transmission}
use dream_pico_port.Scheduler.{
  ScheduleItem, Popped, pop_item, peek_next, get_tx, repeats, rescheduled,
}
use dream_pico_port.Scheduler.Lanes.{IsScheduled}
use dream_pico_port.Scheduler.Pop.{pop_item_lem, popped_scheduler, popped_scheduler-IsScheduled}
use dream_pico_port.Scheduler.Picks.{MayGo, peek_next-MayGo}
use dream_pico_port.Timeliner.{
  Bus, Timeliner, maple_response_timeout_us, after_write, offer, write_task,
}

module _ (bus : Bus) where
  open bus use {State, is_busy, write}

  -- The bus took the packet of an entry that may go out now. The schedule is what popping this entry
  -- leaves, and the transmission that is out is what it gives.
  pub record IsSent (t : Timeliner bus) (time : ℕ) (t' : Timeliner bus) : Type 0 where
    pub tx : Transmission
    pub was_free : is_busy t.bus_state ≡ false
    pub found : get_tx t.schedule (peek_next t.schedule time) ≡ some tx
    pub may_go : MayGo t.schedule time (peek_next t.schedule time) tx
    pub taken :
        write t.bus_state tx.packet tx.expect_response maple_response_timeout_us tx.rx_byte_order
        ≡ (t'.bus_state, true)
    pub out :
        t'.current_tx
        ≡ some (
            if repeats tx (peek_next t.schedule time).time
            then rescheduled tx (peek_next t.schedule time).time
            else tx)
    pub popped :
        (r : Popped) × (pop_item t.schedule (peek_next t.schedule time) ≡ some r)
        × (t'.schedule ≡ r.scheduler)
        × (t'.current_tx ≡ r.tx)
    pub scheduled : IsScheduled t'.schedule

  -- Nothing was sent: the schedule and the transmission that is out are as before.
  pub record IsUnsent (t t' : Timeliner bus) : Type 0 where
    pub schedule : t'.schedule ≡ t.schedule
    pub current_tx : t'.current_tx ≡ t.current_tx

  -- The result of the write task, by what it hands out.
  abbrev pub Outcome : Timeliner bus → ℕ → Timeliner bus → Option Transmission → Type 0
  Outcome t time t' none = IsUnsent t t'
  Outcome t time t' (some tx) = (t'.current_tx ≡ some tx) × IsSent t time t'

  module _ (t : Timeliner bus) (time : ℕ) (v : IsScheduled t.schedule) (tx : Transmission)
      (free : is_busy t.bus_state ≡ false)
      (found : get_tx t.schedule (peek_next t.schedule time) ≡ some tx) where
    abbrev item : ScheduleItem
    item = peek_next t.schedule time

    after_write-Outcome :
        (written : State × Bool)
        → write t.bus_state tx.packet tx.expect_response maple_response_timeout_us tx.rx_byte_order
          ≡ written
        → (t' : Timeliner bus) × (out : Option Transmission) × (after_write bus t item written
            ≡ some (t', out))
          × Outcome t time t' out
    unfolding after_write
    after_write-Outcome (b, false) e =
        (record t { bus_state = b }, none, refl, record { schedule = refl; current_tx = refl })
    after_write-Outcome (b, true) e =
        let out = if repeats tx item.time then rescheduled tx item.time else tx in
        (
          record t {
            bus_state = b;
            schedule = popped_scheduler t.schedule item tx v found;
            current_tx = some out;
          },
          some out,
          rw (pop_item_lem t.schedule item tx v found, after_write) refl,
          (
            refl,
            record {
              tx = tx;
              was_free = free;
              found = found;
              may_go = peek_next-MayGo t.schedule time tx v found;
              taken = e;
              out = refl;
              popped = (_, pop_item_lem t.schedule item tx v found, refl, refl);
              scheduled = popped_scheduler-IsScheduled t.schedule item tx v found;
            },
          ),
        )

  -- On a schedule that keeps the invariant, the write task fails no assertion. If it hands out a
  -- transmission, the bus was free and took its packet, the entry that it was found as may go out at
  -- that time, and the schedule and the current transmission are those that popping this entry gives;
  -- if not, schedule and current transmission are as before.
  pub write_task-Outcome :
      (t : Timeliner bus) (time : ℕ)
      → IsScheduled t.schedule
      → (t' : Timeliner bus) × (tx : Option Transmission) × (write_task bus t time ≡ some (t', tx))
        × Outcome t time t' tx
  unfolding write_task
  write_task-Outcome t time v = elim (Bool-cases (is_busy t.bus_state)) [
    | inl busy ↦ (t, none, rw busy refl, record { schedule = refl; current_tx = refl })
    | inr free ↦ elim (Option-cases (get_tx t.schedule (peek_next t.schedule time))) [
      | inl nothing ↦
          (t, none, rw (free, nothing, offer) refl, record { schedule = refl; current_tx = refl })
      | inr (tx, found) ↦
          let (t', out, e, o) =
            after_write-Outcome t time v tx free found
              (write t.bus_state tx.packet tx.expect_response maple_response_timeout_us
                tx.rx_byte_order)
              refl in
          (t', out, rw (free, found, offer) e, o)
    ]
  ]
