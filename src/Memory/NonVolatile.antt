-- ===== src/Memory/NonVolatile.antt =====
-- src/hal/System/NonVolatilePicoSystemMemory.cpp and .hpp: memory that one core reads and writes in
-- RAM while the other writes its sectors to flash. The mutex makes `write` and the locked part of
-- `process` one step each; the erase that follows the locked part reads nothing that `write` changes,
-- so it belongs to the same step. The flash chip is a parameter, and so is the clock.
use dream_pico_port.Prelude.{
  ℕ, zero, suc, ◌+◌, ◌-◌, ◌*◌, ◌/◌, ◌%◌, ◌≡◌, ◌≢◌, Bool, true, false, ◌==◌, leb, u16, u32, u64,
  if◌then◌else◌, List, [], ◌∷◌, ◌++◌, length, replicate, Option, none, some,
}
use dream_pico_port.Memory.{
  VolatileMemory, make_volatile, ReadResult, WriteResult, volatile_read, volatile_write,
}

abbrev pub sector_size : ℕ
sector_size = 4096

abbrev pub write_delay_us : ℕ
write_delay_us = 200000

-- A sector with all its bits set.
unfoldable pub erased_sector : List ℕ
erased_sector = replicate sector_size 0xFF

-- A flash chip, by what its documentation (in the header) says of a sector, at a byte address that
-- is a multiple of the sector's size: erasing sets its bits, and programming it then stores data;
-- both leave other sectors alone.
pub record Flash : Type 1 where
  pub State : Type 0
  pub sector : State → ℕ → List ℕ
  pub erase : State → ℕ → State
  pub program : State → ℕ → List ℕ → State
  pub erased : (f : State) (b : ℕ) → sector (erase f b) b ≡ erased_sector
  pub erased_elsewhere :
      (f : State) (b c : ℕ)
      → b % sector_size ≡ 0
      → c % sector_size ≡ 0
      → b ≢ c
      → sector (erase f b) c ≡ sector f c
  pub programmed :
      (f : State) (b : ℕ) (bytes : List ℕ)
      → length bytes ≡ sector_size
      → sector f b ≡ erased_sector
      → sector (program f b bytes) b ≡ bytes
  pub programmed_elsewhere :
      (f : State) (b c : ℕ) (bytes : List ℕ)
      → b % sector_size ≡ 0
      → c % sector_size ≡ 0
      → b ≢ c
      → sector (program f b bytes) c ≡ sector f c

pub data ProgrammingState : Type 0 where
  waiting_for_job sector_erasing delaying_write : ProgrammingState

pub record NonVolatileMemory : Type 0 where
  pub offset : ℕ
  pub size : ℕ
  pub local_mem : VolatileMemory
  pub programming_state : ProgrammingState
  pub sector_queue : List ℕ
  pub delayed_write_time : ℕ
  pub last_activity_time : ℕ

-- The constructor, with the bytes of the flash from the offset on. An offset inside a sector is a
-- failed assertion.
abbrev pub made : ℕ → ℕ → List ℕ → ℕ → NonVolatileMemory
made flash_offset size read_flash now = record {
  offset = flash_offset;
  size = size;
  local_mem = (volatile_write (make_volatile size) now 0 read_flash).0;
  programming_state = waiting_for_job;
  sector_queue = [];
  delayed_write_time = 0;
  last_activity_time = 0;
}

unfoldable pub make : ℕ → ℕ → List ℕ → ℕ → Option NonVolatileMemory
make flash_offset size read_flash now =
    if flash_offset % sector_size == 0 then some (made flash_offset size read_flash now) else none

unfoldable pub read : NonVolatileMemory → ℕ → ℕ → ℕ → NonVolatileMemory × ReadResult
read m now offset size =
    let r = volatile_read m.local_mem now offset size in
    (record m { last_activity_time = now; local_mem = r.0 }, r.1)

-- The queue, and the two flags of the loop in `write`.
pub record Queueing : Type 0 where
  pub queue : List ℕ
  pub delay_write : Bool
  pub item_added : Bool

unfoldable pub has : ℕ → List ℕ → Bool
has s [] = false
has s (x ∷ xs) = if x == s then true else has s xs

abbrev pub is_head : ℕ → List ℕ → Bool
is_head s [] = false
is_head s (x ∷ xs) = x == s

unfoldable pub queue_sector : ℕ → Queueing → Queueing
queue_sector s q =
    if has s q.queue
    then (if is_head s q.queue then record q { delay_write = true } else q)
    else record q { queue = q.queue ++ s ∷ []; item_added = true }

-- The rounds of the loop, from a sector on.
unfoldable pub queue_sectors : ℕ → ℕ → Queueing → Queueing
queue_sectors zero s q = q
queue_sectors (suc rounds) s q = queue_sectors rounds (suc s) (queue_sector s q)

abbrev pub first_sector : ℕ → ℕ
first_sector offset = u16 (offset / sector_size)

abbrev pub last_sector : ℕ → ℕ → ℕ
last_sector offset size = u16 ((offset + size - 1) / sector_size)

abbrev pub queued : NonVolatileMemory → ℕ → ℕ → Queueing
queued m offset size =
    queue_sectors (suc (last_sector offset size) - first_sector offset) (first_sector offset)
      (record { queue = m.sector_queue; delay_write = false; item_added = false })

-- setWriteDelay
abbrev pub write_delay : ℕ → ℕ
write_delay now = u64 (now + write_delay_us)

unfoldable pub write : NonVolatileMemory → ℕ → ℕ → List ℕ → NonVolatileMemory × WriteResult
write m now offset data_bytes =
    let w = volatile_write m.local_mem now offset data_bytes in
    let written = record m { last_activity_time = now; local_mem = w.0 } in
    (
      (if w.1.size == 0
          then written
          else let q = queued m offset w.1.size in
            record written {
              sector_queue = q.queue;
              delayed_write_time =
                  if q.item_added
                  then 0
                  else if q.delay_write
                  then write_delay now
                  else m.delayed_write_time;
            }),
      w.1,
    )

abbrev pub sector_to_flash_byte : NonVolatileMemory → ℕ → ℕ
sector_to_flash_byte m sector = u32 (m.offset + sector * sector_size)

module _ (flash : Flash) where
  open flash use {State, erase, program}

  unfoldable pub start_job : NonVolatileMemory → State → ℕ → List ℕ → NonVolatileMemory × State
  start_job m f now [] = (m, f)
  start_job m f now (sector ∷ queue) = (
    record m {
      last_activity_time = now;
      delayed_write_time = write_delay now;
      programming_state = sector_erasing;
    },
    erase f (sector_to_flash_byte m sector),
  )

  -- What is programmed once the delay is over. For an empty queue, of which the code would take the
  -- first sector, nothing is done; where the code's assertion on the copy in RAM fails, no bytes are
  -- programmed. Both are excluded by IsBackedUp.
  unfoldable pub program_sector : NonVolatileMemory → State → ℕ → List ℕ → NonVolatileMemory × State
  program_sector m f now [] = (m, f)
  program_sector m f now (sector ∷ queue) =
      let r = volatile_read m.local_mem now (sector * sector_size) sector_size in
      (
        record m { local_mem = r.0; sector_queue = queue; programming_state = waiting_for_job },
        program f (sector_to_flash_byte m sector)
            (elim r.1.bytes [ none ↦ [] | some bytes ↦ bytes ]),
      )

  unfoldable pub finish_job : NonVolatileMemory → State → ℕ → NonVolatileMemory × State
  finish_job m f now =
      let active = record m { last_activity_time = now; programming_state = delaying_write } in
      if leb m.delayed_write_time now
      then program_sector active f now m.sector_queue
      else (active, f)

  -- process, by the state.
  abbrev pub process_in :
      ProgrammingState → NonVolatileMemory → State → ℕ → NonVolatileMemory × State
  process_in waiting_for_job m f now = start_job m f now m.sector_queue
  process_in sector_erasing m f now = finish_job m f now
  process_in delaying_write m f now = finish_job m f now

  unfoldable pub process : NonVolatileMemory → State → ℕ → NonVolatileMemory × State
  process m f now = process_in m.programming_state m f now
