-- ===== src/MapleBus/Timeouts.antt =====
-- src/hal/MapleBus/MapleBus.cpp: when a write or a read is given up.
use dream_pico_port.Prelude.{
  ℕ, ◌+◌, ◌*◌, ◌^◌, ◌<◌, ◌≤◌, ◌≡◌, refl, ap, ◌∙◌, All, subst, sym, subst₂, Bool, true, u64, List,
  [], ◌∷◌, length, arith, ◌⊎◌, inl, inr,
}
use dream_pico_port.Frame.{ByteOrder}
use dream_pico_port.Packet.{MaplePacket, num_total_bits, tx_time_ns, packet_tx_time_ns}
use dream_pico_port.Timeliner.{Phase, write_failed, write_in_progress, read_in_progress}
use dream_pico_port.MapleBus.{MapleBus, timeout, reset_sms}
use dream_pico_port.MapleBus.Writing.{WriteInputs, write, write_kill_offset}
use dream_pico_port.MapleBus.Events.{Look, transfer_count, read_in_progress_events, process_events}

-- For a packet with at most 255 payload words, the time after which a write is given up is at least
-- 1 ms more than the time that its bits take, and at most 5732 us.
write_kill_offset_bounds :
    (p : MaplePacket)
    → length p.payload < 256
    → (packet_tx_time_ns p + 1000 * 1000 ≤ write_kill_offset p * 1000)
      × (write_kill_offset p ≤ 5732)
unfolding write_kill_offset packet_tx_time_ns tx_time_ns num_total_bits
write_kill_offset_bounds p h = ground arith

-- The first look at a write that is as late as its kill time.
late_write :
    (bus : MapleBus) (p : MaplePacket) (r : Bool) (t : ℕ) (o : ByteOrder) (inputs : WriteInputs)
    (time : ℕ) (look : Look)
    → length p.payload < 256
    → inputs.started + 6000 < 2 ^ 64
    → inputs.started + write_kill_offset p ≤ time
    → (write bus p r t o inputs).1 ≡ true
    → let e = process_events (write bus p r t o inputs).0 time look in
      (e.1.status.phase ≡ write_failed)
      × (e.1.failure_reason ≡ timeout)
      × (e.0.current_phase ≡ Phase.idle)
unfolding write process_events reset_sms
late_write bus p r t o inputs time look small early late accepted =
    ground (arith, write_kill_offset_bounds p small)

-- The bus after looks at it, each with its time.
unfoldable pub look_all : MapleBus → List (ℕ × Look) → MapleBus
look_all bus [] = bus
look_all bus ((time, look) ∷ looks) = look_all (process_events bus time look).0 looks

-- Looks before a time.
abbrev pub AllBefore : ℕ → List (ℕ × Look) → Type 0
AllBefore limit looks = All (λ (x : ℕ × Look). x.0 < limit) looks

still_writing :
    (bus : MapleBus) (time : ℕ) (look : Look)
    → bus.current_phase ≡ write_in_progress
    → time < u64 (bus.proc_start_time + bus.proc_kill_offset_us)
    → (process_events bus time look).0 ≡ bus
unfolding process_events
still_writing bus time look phase before = ground arith

waits :
    (bus : MapleBus) (looks : List (ℕ × Look))
    → bus.current_phase ≡ write_in_progress
    → AllBefore (u64 (bus.proc_start_time + bus.proc_kill_offset_us)) looks
    → look_all bus looks ≡ bus
unfolding look_all
waits bus [] phase before = refl
waits bus ((time, look) ∷ looks) phase before =
    let still : (process_events bus time look).0 ≡ bus =
      still_writing bus time look phase before.0 in
    ap (λ b. look_all b looks) still ∙ waits bus looks phase before.1

started_write :
    (bus : MapleBus) (p : MaplePacket) (r : Bool) (t : ℕ) (o : ByteOrder) (inputs : WriteInputs)
    → length p.payload < 256
    → inputs.started + 6000 < 2 ^ 64
    → (write bus p r t o inputs).1 ≡ true
    → let b = (write bus p r t o inputs).0 in
      (b.current_phase ≡ write_in_progress)
      × (u64 (b.proc_start_time + b.proc_kill_offset_us) ≡ inputs.started + write_kill_offset p)
unfolding write
started_write bus p r t o inputs small early accepted =
    ground (arith, write_kill_offset_bounds p small)

-- A write of at most 255 payload words that the bus accepted has a time after which it is given up:
-- at least 1 ms more than its bits take, and at most 5732 us. If no interrupt completes it, any looks
-- at the bus before that time leave the bus as it is, and the next look, at that time or later, reports
-- a failure by a timeout and leaves the bus idle. The write starts no nearer than 6 ms to the end of
-- the clock.
pub process_events_late_write :
    (bus : MapleBus) (p : MaplePacket) (r : Bool) (t : ℕ) (o : ByteOrder) (inputs : WriteInputs)
    (looks : List (ℕ × Look)) (time : ℕ) (look : Look)
    → length p.payload < 256
    → inputs.started + 6000 < 2 ^ 64
    → (write bus p r t o inputs).1 ≡ true
    → AllBefore (inputs.started + write_kill_offset p) looks
    → inputs.started + write_kill_offset p ≤ time
    → let waiting = look_all (write bus p r t o inputs).0 looks in
      let e = process_events waiting time look in
      (packet_tx_time_ns p + 1000 * 1000 ≤ write_kill_offset p * 1000)
      × (write_kill_offset p ≤ 5732)
      × (waiting ≡ (write bus p r t o inputs).0)
      × (e.1.status.phase ≡ write_failed)
      × (e.1.failure_reason ≡ timeout)
      × (e.0.current_phase ≡ Phase.idle)
process_events_late_write bus p r t o inputs looks time look small early accepted before late =
    let (least, most) = write_kill_offset_bounds p small in
    let (phase, kill) = started_write bus p r t o inputs small early accepted in
    let w = (write bus p r t o inputs).0 in
    let waiting = waits w looks phase (subst (λ k. AllBefore k looks) (sym kill) before) in
    let Ends = λ (b : MapleBus).
      let e = process_events b time look in
      (e.1.status.phase ≡ write_failed)
      × (e.1.failure_reason ≡ timeout)
      × (e.0.current_phase ≡ Phase.idle) in
    let ended =
      subst Ends (sym waiting)
        (late_write bus p r t o inputs time look small early late accepted) in
    (least, most, waiting, ended.0, ended.1, ended.2)

-- Looks that are 300 us or more apart, the first as long after `last`, all within 2^32 us of the
-- start of the transfer, while the transfer count, from `count` on, never rises.
abbrev pub IsSpaced : ℕ → ℕ → ℕ → List (ℕ × Look) → Type 0
IsSpaced start last count [] = Unit
IsSpaced start last count ((time, look) ∷ looks) =
    (last + 300 ≤ time)
    × (time < start + 2 ^ 32)
    × (transfer_count look ≤ count)
    × IsSpaced start time (transfer_count look) looks

idle_stays :
    (bus : MapleBus) (looks : List (ℕ × Look))
    → bus.current_phase ≡ Phase.idle
    → (look_all bus looks).current_phase ≡ Phase.idle
unfolding look_all process_events
idle_stays bus [] e = e
idle_stays bus ((time, look) ∷ looks) e =
    idle_stays (process_events bus time look).0 looks (ground arith)

-- A reading bus is looked at: it is idle, or the count has fallen and the time of it is noted.
read_step :
    (bus : MapleBus) (time : ℕ) (look : Look)
    → bus.current_phase ≡ read_in_progress
    → bus.proc_start_time + 2 ^ 32 < 2 ^ 64
    → u64 (bus.proc_start_time + bus.last_received_word_offset_us) + 300 ≤ time
    → bus.proc_start_time ≤ time
    → time < bus.proc_start_time + 2 ^ 32
    → transfer_count look ≤ bus.last_read_transfer_count
    → let b = (process_events bus time look).0 in
      (b.current_phase ≡ Phase.idle)
      ⊎ ((b.current_phase ≡ read_in_progress)
          × (b.proc_start_time ≡ bus.proc_start_time)
          × (u64 (b.proc_start_time + b.last_received_word_offset_us) ≡ time)
          × (b.last_read_transfer_count ≡ transfer_count look)
          × (transfer_count look < bus.last_read_transfer_count))
unfolding process_events read_in_progress_events
read_step bus time look phase far late later soon falls = ground arith

reads_end_from :
    (looks : List (ℕ × Look)) (bus : MapleBus) (last : ℕ)
    → bus.current_phase ≡ read_in_progress
    → bus.proc_start_time + 2 ^ 32 < 2 ^ 64
    → u64 (bus.proc_start_time + bus.last_received_word_offset_us) ≡ last
    → bus.proc_start_time ≤ last
    → IsSpaced bus.proc_start_time last bus.last_read_transfer_count looks
    → bus.last_read_transfer_count < length looks
    → (look_all bus looks).current_phase ≡ Phase.idle
unfolding look_all
reads_end_from [] bus last phase far noted since spaced enough = absurd (omega arith)
reads_end_from ((time, look) ∷ looks) bus last phase far noted since spaced enough =
    elim (read_step bus time look phase far (omega (arith, noted, spaced.0))
      (omega (arith, spaced.0)) spaced.1 spaced.2) [
        | inl idle ↦ idle_stays (process_events bus time look).0 looks idle
        | inr (going, start, time_noted, count, fell) ↦
            reads_end_from looks (process_events bus time look).0 time going (omega (arith, start))
              time_noted (omega (arith, start, spaced.0))
              (subst₂ (λ s c. IsSpaced s time c looks) (sym start) (sym count) spaced.3)
              (omega (arith, count, fell))
      ]

-- A read that is in progress ends, whatever the DMA does and with no interrupt at all: if the bus
-- is looked at more often than there were words left to transfer, each time 300 us or more after
-- the look (or the word) before and within 2^32 us of the start, and the transfer count never
-- rises, then the bus is idle afterwards. The start is no nearer than that to the end of the clock.
pub look_all_ends :
    (bus : MapleBus) (looks : List (ℕ × Look))
    → bus.current_phase ≡ read_in_progress
    → bus.proc_start_time + 2 ^ 32 < 2 ^ 64
    → bus.last_received_word_offset_us < 2 ^ 32
    → IsSpaced bus.proc_start_time
        (bus.proc_start_time + bus.last_received_word_offset_us)
        bus.last_read_transfer_count
        looks
    → bus.last_read_transfer_count < length looks
    → (look_all bus looks).current_phase ≡ Phase.idle
look_all_ends bus looks phase far short spaced enough =
    reads_end_from looks bus (bus.proc_start_time + bus.last_received_word_offset_us) phase far
      (omega arith) (omega arith) spaced enough
