-- ===== src/Memory/Tests.antt =====
-- Two sectors of memory on a flash that keeps the bytes of each sector.
use dream_pico_port.Prelude.{
  ℕ, ◌+◌, ◌*◌, ◌<◌, ◌≤◌, ◌≡◌, ◌≢◌, refl, false, ◌==◌, ==_refl, if◌then◌else◌, List, [], ◌∷◌, length,
  u32, some, arith, ap,
}
use dream_pico_port.Memory.{volatile_write, make_volatile, VolatileMemory}
use dream_pico_port.Memory.Bytes.{IsSized}
use dream_pico_port.Memory.NonVolatile.{
  sector_size, erased_sector, Flash, NonVolatileMemory, made, make, sector_to_flash_byte, write,
  waiting_for_job, queue_sectors, queue_sector, has,
}
use dream_pico_port.Memory.Writes.{write-IsBackedUp}
use dream_pico_port.Memory.Sectors.{sectors_from, length-replicate}
use dream_pico_port.Memory.Backup.{ram_sector, IsBackedUp}
use dream_pico_port.Memory.History.{
  Call, reads, writes, processes, call_all, call_all-IsBackedUp, process_all, process_all_drains,
  IsPaced, calls_left,
}
use dream_pico_port.Memory.Restart.{made-IsBackedUp, make_drained}

abbrev store : (ℕ → List ℕ) → ℕ → List ℕ → ℕ → List ℕ
store f b bytes c = if b == c then bytes else f c

store_there : (f : ℕ → List ℕ) (b : ℕ) (bytes : List ℕ) → store f b bytes b ≡ bytes
store_there f b bytes = rw (==_refl b) refl

store_elsewhere : (f : ℕ → List ℕ) (b c : ℕ) (bytes : List ℕ) → b ≢ c → store f b bytes c ≡ f c
store_elsewhere f b c bytes d =
    let other : (b == c) ≡ false = ground (arith, d) in ap (λ t. if t then bytes else f c) other

abbrev kept_flash : Flash
kept_flash = record {
  State = ℕ → List ℕ;
  sector = λ f b. f b;
  erase = λ f b. store f b erased_sector;
  program = λ f b bytes. store f b bytes;
  erased = λ f b. store_there f b erased_sector;
  erased_elsewhere = λ f b c _ _ d. store_elsewhere f b c erased_sector d;
  programmed = λ f b bytes _ _. store_there f b bytes;
  programmed_elsewhere = λ f b c bytes _ _ d. store_elsewhere f b c bytes d;
}

abbrev blank : ℕ → List ℕ
blank b = erased_sector

blank_sized : (b : ℕ) → length (blank b) ≡ sector_size
unfolding erased_sector
blank_sized b = length-replicate sector_size 0xFF

abbrev start : NonVolatileMemory
start =
    made 0x1000 (2 * sector_size) (sectors_from (λ s. blank (u32 (0x1000 + s * sector_size))) 2 0) 5

made-IsBackedUp_example : IsBackedUp kept_flash 2 start blank
made-IsBackedUp_example =
    made-IsBackedUp kept_flash 2 0x1000 blank 5 blank_sized (omega arith) (omega arith)
      (omega arith)

abbrev calls : List Call
calls = writes 10 5000 (7 ∷ 8 ∷ []) ∷ processes 20 ∷ writes 30 5002 (9 ∷ []) ∷ reads 40 0 512 ∷ []

call_all-IsBackedUp_example :
    IsBackedUp kept_flash 2
      (call_all kept_flash (start, blank) calls).0
      (call_all kept_flash (start, blank) calls).1
call_all-IsBackedUp_example =
    call_all-IsBackedUp kept_flash 2 (start, blank) calls
      (made-IsBackedUp kept_flash 2 0x1000 blank 5 blank_sized (omega arith) (omega arith)
        (omega arith))

start-IsBackedUp : IsBackedUp kept_flash 2 start blank
start-IsBackedUp =
    made-IsBackedUp kept_flash 2 0x1000 blank 5 blank_sized (omega arith) (omega arith)
      (omega arith)

unfoldable written : NonVolatileMemory
written = (write start 10 5000 (7 ∷ 8 ∷ [])).0

written-IsBackedUp : IsBackedUp kept_flash 2 written blank
unfolding written
written-IsBackedUp = write-IsBackedUp kept_flash 2 start blank start-IsBackedUp 10 5000 (7 ∷ 8 ∷ [])

written_state :
    (written.sector_queue ≡ 1 ∷ [])
    × (written.programming_state ≡ waiting_for_job)
    × (written.delayed_write_time ≡ 0)
unfolding written write queue_sectors queue_sector has volatile_write make_volatile
written_state = (refl, refl, refl)

abbrev times : List ℕ
times = 100 ∷ 200100 ∷ []

written-IsPaced : IsPaced kept_flash written.delayed_write_time times
written-IsPaced = rw (written_state.2) (omega arith)

written_left : calls_left kept_flash written ≤ length times
written_left = rw (written_state.0, written_state.1) (omega arith)

process_all_drains_example :
    let r = process_all kept_flash (written, blank) times in
    (r.0.sector_queue ≡ [])
    × ((s : ℕ)
        → s < 2
        → r.1 (sector_to_flash_byte written s) ≡ ram_sector written.local_mem.memory s)
process_all_drains_example =
    process_all_drains kept_flash 2 times written blank written-IsBackedUp written-IsPaced
      written_left

make_drained_example :
    let stored = (process_all kept_flash (written, blank) times).1 in
    let bytes = sectors_from (λ s. stored (sector_to_flash_byte written s)) 2 0 in
    (after : NonVolatileMemory) × (make written.offset written.size bytes 300 ≡ some after)
    × (after.local_mem.memory ≡ written.local_mem.memory)
make_drained_example =
    make_drained kept_flash 2 times written blank 300 written-IsBackedUp written-IsPaced
      written_left

abbrev ram : VolatileMemory
ram = make_volatile 16

ram-IsSized : IsSized ram
unfolding make_volatile
ram-IsSized = refl

ram_size : 2 + 3 ≤ ram.size
unfolding make_volatile
ram_size = omega arith
