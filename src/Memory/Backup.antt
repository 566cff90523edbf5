-- ===== src/Memory/Backup.antt =====
-- src/hal/System/NonVolatilePicoSystemMemory.cpp: the copy in flash of what is in RAM.
use dream_pico_port.Prelude.{
  ℕ, ◌+◌, ◌-◌, ◌*◌, ◌%◌, ◌^◌, ◌≤◌, ◌<◌, ◌≡◌, ◌≢◌, refl, ap, sym, subst, ◌∙◌, ◌⊎◌, inl, inr, true,
  false, ◌==◌, leb, List, [], ◌∷◌, length, take, drop, All, length-take, length-drop, some, arith,
  Bool-cases,
}
use dream_pico_port.Memory.{overwrite, volatile_read}
use dream_pico_port.Memory.Bytes.{IsSized, overwrite_before, overwrite_after, volatile_read_keeps}
use dream_pico_port.Memory.NonVolatile.{
  sector_size, erased_sector, Flash, ProgrammingState, waiting_for_job, sector_erasing,
  delaying_write, NonVolatileMemory, has, sector_to_flash_byte, start_job, program_sector,
  finish_job, process, process_in,
}
use dream_pico_port.Memory.Queue.{has_absent, has_elsewhere}

-- The bytes of a sector in RAM.
abbrev pub ram_sector : List ℕ → ℕ → List ℕ
ram_sector memory s = take sector_size (drop (s * sector_size) memory)

-- Whole sectors, which 16 bits count and 32-bit addresses reach, from the start of a sector on.
abbrev pub IsLaidOut : ℕ → NonVolatileMemory → Type 0
IsLaidOut sectors m =
    (m.size ≡ sectors * sector_size)
    × (m.local_mem.size ≡ m.size)
    × IsSized m.local_mem
    × (m.offset % sector_size ≡ 0)
    × (m.offset + sectors * sector_size < 2 ^ 32)
    × (sectors < 2 ^ 16)

-- Outside a sector's range, RAM stays as it is.
pub ram_sector-overwrite :
    (memory : List ℕ) (offset : ℕ) (bytes : List ℕ) (s : ℕ)
    → (s * sector_size + sector_size ≤ offset) ⊎ (offset + length bytes ≤ s * sector_size)
    → ram_sector (overwrite memory offset bytes) s ≡ ram_sector memory s
ram_sector-overwrite memory offset bytes s (inl before) =
    overwrite_before memory offset bytes (s * sector_size) sector_size before
ram_sector-overwrite memory offset bytes s (inr after) =
    ap (take sector_size) (overwrite_after memory offset bytes (s * sector_size) after)

module _ (flash : Flash) where
  open flash use {
    State, sector, erase, program, erased, erased_elsewhere, programmed, programmed_elsewhere,
  }

  -- A job that has started has erased the sector at the head of the queue.
  abbrev pub IsStarted : ProgrammingState → (ℕ → ℕ) → State → List ℕ → Type 0
  IsStarted waiting_for_job byte_of f queue = Unit
  IsStarted _ byte_of f [] = ⊥
  IsStarted _ byte_of f (s ∷ queue) = sector f (byte_of s) ≡ erased_sector

  -- Every sector that is not in the queue is the same in flash and in RAM.
  pub record IsBackedUp (sectors : ℕ) (m : NonVolatileMemory) (f : State) : Type 0 where
    pub laid_out : IsLaidOut sectors m
    pub queued : All (λ s. s < sectors) m.sector_queue
    pub stored :
        (s : ℕ)
        → s < sectors
        → has s m.sector_queue ≡ false
        → sector f (sector_to_flash_byte m s) ≡ ram_sector m.local_mem.memory s
    pub started : IsStarted m.programming_state (sector_to_flash_byte m) f m.sector_queue

  module _ (sectors : ℕ) (m : NonVolatileMemory) (f : State) (v : IsBackedUp sectors m f) where
    byte_aligned : (s : ℕ) → s < sectors → sector_to_flash_byte m s % sector_size ≡ 0
    byte_aligned s h = omega (arith, v.laid_out)

    byte_apart :
        (s t : ℕ)
        → s < sectors
        → t < sectors
        → s ≢ t
        → sector_to_flash_byte m s ≢ sector_to_flash_byte m t
    byte_apart s t hs ht d e = d (omega (arith, v.laid_out))

    start_job-IsBackedUp :
        (now : ℕ) (queue : List ℕ)
        → m.sector_queue ≡ queue
        → m.programming_state ≡ waiting_for_job
        → let r = start_job flash m f now queue in IsBackedUp sectors r.0 r.1
    unfolding start_job
    start_job-IsBackedUp now [] e waiting = v
    start_job-IsBackedUp now (s ∷ queue) e waiting =
        let small : All (λ t. t < sectors) (s ∷ queue) =
          subst (All (λ t. t < sectors)) e v.queued in
        record {
          laid_out = v.laid_out;
          queued = v.queued;
          stored = λ t ht absent.
              erased_elsewhere f (sector_to_flash_byte m s) (sector_to_flash_byte m t)
                (byte_aligned s small.0) (byte_aligned t ht)
                (byte_apart s t small.0 ht
                  (has_absent t s queue (subst (λ q. has t q ≡ false) e absent)).0)
              ∙ v.stored t ht absent;
          started = rw e (erased f (sector_to_flash_byte m s));
        }

    -- The sector at the head of the queue, read back from RAM.
    head_bytes :
        (s now : ℕ)
        → s < sectors
        → (volatile_read m.local_mem now (s * sector_size) sector_size).1.bytes
          ≡ some (ram_sector m.local_mem.memory s)
    unfolding volatile_read
    head_bytes s now h =
        let inside : leb m.local_mem.size (s * sector_size) ≡ false = ground (arith, v.laid_out) in
        let enough : leb sector_size (m.local_mem.size - s * sector_size) ≡ true =
          ground (arith, v.laid_out) in
        rw (inside, enough) refl

    length-head : (s : ℕ) → s < sectors → length (ram_sector m.local_mem.memory s) ≡ sector_size
    length-head s h = omega (
      arith,
      v.laid_out,
      length-take sector_size (drop (s * sector_size) m.local_mem.memory),
      length-drop (s * sector_size) m.local_mem.memory,
    )

    is_ready :
        (p : ProgrammingState) (s : ℕ) (queue : List ℕ)
        → p ≢ waiting_for_job
        → IsStarted p (sector_to_flash_byte m) f (s ∷ queue)
        → sector f (sector_to_flash_byte m s) ≡ erased_sector
    is_ready waiting_for_job s queue busy h = absurd (busy refl)
    is_ready sector_erasing s queue busy h = h
    is_ready delaying_write s queue busy h = h

    program_sector-IsBackedUp :
        (now : ℕ) (queue : List ℕ)
        → m.sector_queue ≡ queue
        → m.programming_state ≢ waiting_for_job
        → let r = program_sector flash m f now queue in IsBackedUp sectors r.0 r.1
    unfolding program_sector
    program_sector-IsBackedUp now [] e busy = v
    program_sector-IsBackedUp now (s ∷ queue) e busy =
        let small : All (λ t. t < sectors) (s ∷ queue) =
          subst (All (λ t. t < sectors)) e v.queued in
        let ready : sector f (sector_to_flash_byte m s) ≡ erased_sector =
          is_ready m.programming_state s queue busy
            (subst (IsStarted m.programming_state (sector_to_flash_byte m) f) e v.started) in
        let bytes = ram_sector m.local_mem.memory s in
        rw
          (
            head_bytes s now small.0,
            volatile_read_keeps m.local_mem now (s * sector_size) sector_size,
          )
          (record {
            laid_out = v.laid_out;
            queued = small.1;
            stored = λ t ht absent. elim (Bool-cases (s == t)) [
              | inl same ↦
                  let same' : s ≡ t = ground arith in
                  subst
                    (λ t.
                      sector (program f (sector_to_flash_byte m s) bytes) (sector_to_flash_byte m t)
                      ≡ ram_sector m.local_mem.memory t)
                    same'
                    (programmed f (sector_to_flash_byte m s) bytes (length-head s small.0) ready)
              | inr other ↦
                  programmed_elsewhere f (sector_to_flash_byte m s) (sector_to_flash_byte m t) bytes
                    (byte_aligned s small.0) (byte_aligned t ht)
                    (byte_apart s t small.0 ht (ground arith))
                  ∙ v.stored t ht (rw e (has_elsewhere t s queue other absent))
            ];
            started = tt;
          })

  active-IsStarted :
      (p : ProgrammingState) (byte_of : ℕ → ℕ) (f : State) (queue : List ℕ)
      → p ≢ waiting_for_job
      → IsStarted p byte_of f queue
      → IsStarted delaying_write byte_of f queue
  active-IsStarted waiting_for_job byte_of f queue busy h = absurd (busy refl)
  active-IsStarted sector_erasing byte_of f [] busy h = h
  active-IsStarted sector_erasing byte_of f (s ∷ queue) busy h = h
  active-IsStarted delaying_write byte_of f [] busy h = h
  active-IsStarted delaying_write byte_of f (s ∷ queue) busy h = h

  finish_job-IsBackedUp :
      (sectors : ℕ) (m : NonVolatileMemory) (f : State) (now : ℕ)
      → IsBackedUp sectors m f
      → m.programming_state ≢ waiting_for_job
      → let r = finish_job flash m f now in IsBackedUp sectors r.0 r.1
  unfolding finish_job
  finish_job-IsBackedUp sectors m f now v busy =
      let active : NonVolatileMemory = record m {
        last_activity_time = now;
        programming_state = delaying_write;
      } in
      let going : IsBackedUp sectors active f = record {
        laid_out = v.laid_out;
        queued = v.queued;
        stored = v.stored;
        started =
            active-IsStarted m.programming_state (sector_to_flash_byte m) f m.sector_queue busy
              v.started;
      } in
      elim (Bool-cases (leb m.delayed_write_time now)) [
        | inl due ↦
            rw due
              (program_sector-IsBackedUp sectors active f going now m.sector_queue refl (λ e. cc e))
        | inr early ↦ rw early going
      ]

  pub process-IsBackedUp :
      (sectors : ℕ) (m : NonVolatileMemory) (f : State) (now : ℕ)
      → IsBackedUp sectors m f
      → let r = process flash m f now in IsBackedUp sectors r.0 r.1
  unfolding process
  process-IsBackedUp sectors m f now v = in_state m.programming_state refl
    where
      in_state :
          (p : ProgrammingState)
          → m.programming_state ≡ p
          → let r = process_in flash p m f now in IsBackedUp sectors r.0 r.1
      in_state waiting_for_job e = start_job-IsBackedUp sectors m f v now m.sector_queue refl e
      in_state sector_erasing e =
          finish_job-IsBackedUp sectors m f now v (λ w. absurd (cc (sym e ∙ w)))
      in_state delaying_write e =
          finish_job-IsBackedUp sectors m f now v (λ w. absurd (cc (sym e ∙ w)))
