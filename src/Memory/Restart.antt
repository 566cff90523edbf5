-- ===== src/Memory/Restart.antt =====
-- src/hal/System/NonVolatilePicoSystemMemory.cpp: the constructor, after the queue of the object
-- before it was drained.
use dream_pico_port.Prelude.{
  u32, ◌<◌, ◌^◌, ℕ, zero, suc, ◌+◌, ◌-◌, ◌*◌, ◌%◌, ◌≤◌, ◌<◌, ◌≡◌, refl, ap, sym, ◌∙◌, true, false,
  ◌==◌, leb, List, [], ◌∷◌, length, replicate, take-length, arith, some,
}
use dream_pico_port.Memory.{make_volatile, volatile_write}
use dream_pico_port.Memory.Sectors.{
  sectors_from, overwrite_all, length-replicate, pieces, sectors_from_same, length-sectors_from,
  piece_of,
}
use dream_pico_port.Memory.NonVolatile.{
  sector_size, Flash, NonVolatileMemory, make, made, sector_to_flash_byte,
}
use dream_pico_port.Memory.Backup.{ram_sector, IsBackedUp}
use dream_pico_port.Memory.History.{process_all, process_all_drains, IsPaced, calls_left}

overwrite_new :
    (size : ℕ) (bytes : List ℕ) (now : ℕ)
    → length bytes ≡ size
    → (volatile_write (make_volatile size) now 0 bytes).0.memory ≡ bytes
unfolding volatile_write make_volatile
overwrite_new zero [] now e = refl
overwrite_new zero (b ∷ bytes) now e = absurd (omega arith)
overwrite_new (suc size) bytes now e =
    let some : leb (suc size) 0 ≡ false = ground arith in
    let all : leb (length bytes) (suc size - 0) ≡ true = ground (arith, e) in
    rw (some, all, take-length (length bytes) bytes (omega arith))
      (overwrite_all (replicate (suc size) 0xFF) bytes (length-replicate (suc size) 0xFF ∙ sym e))

made_size :
    (size : ℕ) (bytes : List ℕ) (now : ℕ)
    → (volatile_write (make_volatile size) now 0 bytes).0.size ≡ size
unfolding volatile_write make_volatile
made_size size bytes now = refl

-- An object made from a flash that was drained has in RAM what the object before it had.
pub make_drained :
    (flash : Flash) (sectors : ℕ) (times : List ℕ) (m : NonVolatileMemory) (f : flash.State)
    (now : ℕ)
    → IsBackedUp flash sectors m f
    → IsPaced flash m.delayed_write_time times
    → calls_left flash m ≤ length times
    → let stored = (process_all flash (m, f) times).1 in
      let bytes = sectors_from (λ s. flash.sector stored (sector_to_flash_byte m s)) sectors 0 in
      (after : NonVolatileMemory) × (make m.offset m.size bytes now ≡ some after)
      × (after.local_mem.memory ≡ m.local_mem.memory)
unfolding make
make_drained flash sectors times m f now v paced enough =
    let l = v.laid_out in
    let drained = process_all_drains flash sectors times m f v paced enough in
    let whole : sectors_from
          (λ s. flash.sector (process_all flash (m, f) times).1 (sector_to_flash_byte m s)) sectors
          0
        ≡ m.local_mem.memory =
      sectors_from_same
        (λ s. flash.sector (process_all flash (m, f) times).1 (sector_to_flash_byte m s))
        (ram_sector m.local_mem.memory) sectors 0 (λ t h. drained.1 t (omega (arith, h)))
      ∙ pieces m.local_mem.memory sector_size sectors 0
      ∙ take-length (sectors * sector_size) m.local_mem.memory (omega (arith, l)) in
    let bytes =
      sectors_from (λ s. flash.sector (process_all flash (m, f) times).1 (sector_to_flash_byte m s))
        sectors 0 in
    let aligned : (m.offset % sector_size == 0) ≡ true = ground (arith, l) in
    let sized : length m.local_mem.memory ≡ m.size = omega (arith, l) in
    (
      made m.offset m.size bytes now,
      rw aligned refl,
      overwrite_new m.size bytes now (ap length whole ∙ sized) ∙ whole,
    )

none_before : (s : ℕ) → 0 + s ≡ s
none_before s = omega arith

-- An object made from the bytes of a flash, all of whose sectors have their size, at the start of a
-- sector and within 32-bit addresses, starts as a copy of it.
pub made-IsBackedUp :
    (flash : Flash) (sectors offset : ℕ) (f : flash.State) (now : ℕ)
    → ((b : ℕ) → length (flash.sector f b) ≡ sector_size)
    → offset % sector_size ≡ 0
    → offset + sectors * sector_size < 2 ^ 32
    → sectors < 2 ^ 16
    → IsBackedUp flash sectors
        (made offset
          (sectors * sector_size)
          (sectors_from (λ s. flash.sector f (u32 (offset + s * sector_size))) sectors 0)
          now)
        f
made-IsBackedUp flash sectors offset f now sized aligned reached few =
    let bytes = sectors_from (λ s. flash.sector f (u32 (offset + s * sector_size))) sectors 0 in
    let counted =
      length-sectors_from (λ s. flash.sector f (u32 (offset + s * sector_size))) sector_size sectors
        0 (λ t. sized (u32 (offset + t * sector_size))) in
    let same = overwrite_new (sectors * sector_size) bytes now counted in
    record {
      laid_out = (
        refl,
        made_size (sectors * sector_size) bytes now,
        ap length same ∙ counted ∙ sym (made_size (sectors * sector_size) bytes now),
        aligned,
        reached,
        few,
      );
      queued = tt;
      stored = λ s hs absent. sym (
          ap (λ memory. ram_sector memory s) same
          ∙ piece_of (λ s. flash.sector f (u32 (offset + s * sector_size))) sector_size sectors 0 s
              (λ t. sized (u32 (offset + t * sector_size))) hs
          ∙ ap (λ t. flash.sector f (u32 (offset + t * sector_size))) (none_before s));
      started = tt;
    }
