-- ===== src/Memory/History.antt =====
-- src/hal/System/NonVolatilePicoSystemMemory.cpp: the copy in flash over any history of the two
-- cores, and how it comes to hold everything.
use dream_pico_port.Prelude.{
  ℕ, ◌+◌, ◌-◌, ◌*◌, ◌^◌, ◌≤◌, ◌<◌, ◌≡◌, refl, ap, sym, ◌∙◌, false, u32, List, [], ◌∷◌, length,
  arith,
}
use dream_pico_port.Memory.{volatile_read}
use dream_pico_port.Memory.NonVolatile.{
  sector_size, Flash, ProgrammingState, waiting_for_job, sector_erasing, delaying_write,
  NonVolatileMemory, read, write, process, start_job, finish_job, program_sector,
  sector_to_flash_byte, has, write_delay_us,
}
use dream_pico_port.Memory.Backup.{ram_sector, IsBackedUp, process-IsBackedUp}
use dream_pico_port.Memory.Writes.{write-IsBackedUp}

-- Calls with the time of each.
pub data Call : Type 0 where
  reads : ℕ → ℕ → ℕ → Call
  writes : ℕ → ℕ → List ℕ → Call
  processes : ℕ → Call

has-nil : (s : ℕ) → has s [] ≡ false
unfolding has
has-nil s = refl

module _ (flash : Flash) where
  open flash use {State, sector}

  unfoldable pub call : NonVolatileMemory × State → Call → NonVolatileMemory × State
  call (m, f) (reads now offset size) = ((read m now offset size).0, f)
  call (m, f) (writes now offset bytes) = ((write m now offset bytes).0, f)
  call (m, f) (processes now) = process flash m f now

  unfoldable pub call_all : NonVolatileMemory × State → List Call → NonVolatileMemory × State
  unfolding call
  call_all s [] = s
  call_all s (c ∷ calls) = call_all (call s c) calls

  call-IsBackedUp :
      (sectors : ℕ) (s : NonVolatileMemory × State) (c : Call)
      → IsBackedUp flash sectors s.0 s.1
      → IsBackedUp flash sectors (call s c).0 (call s c).1
  unfolding call read volatile_read
  call-IsBackedUp sectors (m, f) (reads now offset size) v = record {
    laid_out = v.laid_out;
    queued = v.queued;
    stored = v.stored;
    started = v.started;
  }
  call-IsBackedUp sectors (m, f) (writes now offset bytes) v =
      write-IsBackedUp flash sectors m f v now offset bytes
  call-IsBackedUp sectors (m, f) (processes now) v = process-IsBackedUp flash sectors m f now v

  -- However reads, writes and processing of the two cores interleave, every sector that is not in
  -- the queue stays the same in flash and in RAM, a sector being processed stays at the head of the
  -- queue and is erased, and the queue has only sectors of the memory, if this holds at the start.
  pub call_all-IsBackedUp :
      (sectors : ℕ) (s : NonVolatileMemory × State) (calls : List Call)
      → IsBackedUp flash sectors s.0 s.1
      → IsBackedUp flash sectors (call_all s calls).0 (call_all s calls).1
  unfolding call_all
  call_all-IsBackedUp sectors s [] v = v
  call_all-IsBackedUp sectors s (c ∷ calls) v =
      call_all-IsBackedUp sectors (call s c) calls (call-IsBackedUp sectors s c v)

  unfoldable pub process_all : NonVolatileMemory × State → List ℕ → NonVolatileMemory × State
  process_all s [] = s
  process_all s (now ∷ times) = process_all (process flash s.0 s.1 now) times

  -- Times 200 ms or more apart, the first no earlier than `due`, and below the end of the clock.
  abbrev pub IsPaced : ℕ → List ℕ → Type 0
  IsPaced due [] = Unit
  IsPaced due (now ∷ times) =
      (due ≤ now) × (now + write_delay_us < 2 ^ 64) × IsPaced (now + write_delay_us) times

  -- The calls of `process` that a state needs: two for each sector, one for a job that has started.
  abbrev pub calls_left : NonVolatileMemory → ℕ
  calls_left m = elim m.programming_state [
    | waiting_for_job ↦ 2 * length m.sector_queue
    | _ ↦ 2 * length m.sector_queue - 1
  ]

  -- One call of `process`, once the delay is over: RAM stays, and one call less is left.
  process_step :
      (m : NonVolatileMemory) (f : State) (now : ℕ)
      → m.delayed_write_time ≤ now
      → now + write_delay_us < 2 ^ 64
      → let r = process flash m f now in
        (calls_left r.0 ≡ calls_left m - 1)
        × (r.0.delayed_write_time ≤ now + write_delay_us)
        × (r.0.local_mem.memory ≡ m.local_mem.memory)
        × (r.0.offset ≡ m.offset)
  unfolding process start_job finish_job program_sector volatile_read
  process_step m f now due late = ground (arith)

  none_left :
      (p : ProgrammingState) (queue : List ℕ)
      → elim p [ waiting_for_job ↦ 2 * length queue | _ ↦ 2 * length queue - 1 ] ≡ 0
      → queue ≡ []
  none_left p [] h = refl
  none_left waiting_for_job (s ∷ queue) h = absurd (omega arith)
  none_left sector_erasing (s ∷ queue) h = absurd (omega arith)
  none_left delaying_write (s ∷ queue) h = absurd (omega arith)

  sooner : (due due' : ℕ) (times : List ℕ) → due ≤ due' → IsPaced due' times → IsPaced due times
  sooner due due' [] h paced = tt
  sooner due due' (now ∷ times) h paced = (omega (arith, paced.0), paced.1, paced.2)

  process_all_steps :
      (times : List ℕ) (m : NonVolatileMemory) (f : State)
      → IsPaced m.delayed_write_time times
      → calls_left m ≤ length times
      → let r = process_all (m, f) times in
        (calls_left r.0 ≡ 0) × (r.0.local_mem.memory ≡ m.local_mem.memory) × (r.0.offset ≡ m.offset)
  unfolding process_all
  process_all_steps [] m f paced enough = (omega arith, refl, refl)
  process_all_steps (now ∷ times) m f paced enough =
      let step = process_step m f now paced.0 paced.1 in
      let rest =
        process_all_steps times (process flash m f now).0 (process flash m f now).1
          (sooner (process flash m f now).0.delayed_write_time (now + write_delay_us) times step.1
            paced.2)
          (omega (arith, step.0)) in
      (rest.0, rest.1 ∙ step.2, rest.2 ∙ step.3)

  process_all-IsBackedUp :
      (sectors : ℕ) (times : List ℕ) (s : NonVolatileMemory × State)
      → IsBackedUp flash sectors s.0 s.1
      → IsBackedUp flash sectors (process_all s times).0 (process_all s times).1
  unfolding process_all
  process_all-IsBackedUp sectors [] s v = v
  process_all-IsBackedUp sectors (now ∷ times) s v =
      process_all-IsBackedUp sectors times (process flash s.0 s.1 now)
        (process-IsBackedUp flash sectors s.0 s.1 now v)

  -- With no more writes, `process` called twice for each sector in the queue (once less if a job has
  -- started), 200 ms or more apart and first after the delay that is set, empties the queue, and
  -- every sector of the flash is then what RAM held at the start.
  pub process_all_drains :
      (sectors : ℕ) (times : List ℕ) (m : NonVolatileMemory) (f : State)
      → IsBackedUp flash sectors m f
      → IsPaced m.delayed_write_time times
      → calls_left m ≤ length times
      → let r = process_all (m, f) times in
        (r.0.sector_queue ≡ [])
        × ((s : ℕ)
            → s < sectors
            → sector r.1 (sector_to_flash_byte m s) ≡ ram_sector m.local_mem.memory s)
  process_all_drains sectors times m f v paced enough =
      let (none, memory, offset) = process_all_steps times m f paced enough in
      let w = process_all-IsBackedUp sectors times (m, f) v in
      let r = process_all (m, f) times in
      let empty : (process_all (m, f) times).0.sector_queue ≡ [] =
        none_left (process_all (m, f) times).0.programming_state
          (process_all (m, f) times).0.sector_queue none in
      (
        empty,
        λ s hs.
            ap (λ o. sector (process_all (m, f) times).1 (u32 (o + s * sector_size))) (sym offset)
            ∙ w.stored s hs (ap (has s) empty ∙ has-nil s)
            ∙ ap (λ bytes. ram_sector bytes s) memory,
      )
