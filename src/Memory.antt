-- ===== src/Memory.antt =====
-- inc/hal/System/SystemMemory.hpp and src/hal/System/VolatileSystemMemory.cpp and .hpp: memory in
-- RAM, a list of bytes. The clock is an argument. What `read` points to is the list of the bytes
-- that may be read there.
pub mod Bytes
pub mod NonVolatile
pub mod Sectors
pub mod Tests
pub mod Restart
pub mod History
pub mod Writes
pub mod Backup
pub mod Queue
use dream_pico_port.Prelude.{
  ℕ, zero, suc, ◌+◌, ◌-◌, Bool, true, false, leb, if◌then◌else◌, List, [], ◌∷◌, length, take, drop,
  replicate, Option, none, some,
}

pub record VolatileMemory : Type 0 where
  pub size : ℕ
  pub memory : List ℕ
  pub last_activity_time : ℕ

unfoldable pub make_volatile : ℕ → VolatileMemory
make_volatile size = record { size = size; memory = replicate size 0xFF; last_activity_time = 0 }

-- What was read, and how many bytes.
pub record ReadResult : Type 0 where
  pub bytes : Option (List ℕ)
  pub size : ℕ

-- The bytes from an offset on, replaced by the data, within the memory (memcpy).
unfoldable pub overwrite : List ℕ → ℕ → List ℕ → List ℕ
overwrite [] offset ds = []
overwrite (x ∷ xs) (suc offset) ds = x ∷ overwrite xs offset ds
overwrite (x ∷ xs) zero [] = x ∷ xs
overwrite (x ∷ xs) zero (d ∷ ds) = d ∷ overwrite xs zero ds

-- The bytes of a request that are within the memory.
abbrev pub within : VolatileMemory → ℕ → ℕ → ℕ
within m offset size =
    if leb m.size offset then 0 else if leb size (m.size - offset) then size else m.size - offset

unfoldable pub volatile_read : VolatileMemory → ℕ → ℕ → ℕ → VolatileMemory × ReadResult
volatile_read m now offset size = (
  record m { last_activity_time = now },
  record {
    bytes =
        if leb m.size offset
        then none
        else some (take (within m offset size) (drop offset m.memory));
    size = within m offset size;
  },
)

-- The size written, and whether that is all.
pub record WriteResult : Type 0 where
  pub success : Bool
  pub size : ℕ

unfoldable pub volatile_write : VolatileMemory → ℕ → ℕ → List ℕ → VolatileMemory × WriteResult
volatile_write m now offset data_bytes =
    let size = within m offset (length data_bytes) in
    (
      record m {
        last_activity_time = now;
        memory =
            if leb m.size offset
            then m.memory
            else overwrite m.memory offset (take size data_bytes);
      },
      record {
        success = if leb m.size offset then false else leb (length data_bytes) (m.size - offset);
        size = size;
      },
    )
