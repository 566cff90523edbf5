-- ===== src/Storage/Volatile.antt =====
-- src/hal/System/VolatileSystemMemory.cpp as the memory of a storage.
use dream_pico_port.Prelude.{ℕ, ◌+◌, ◌≤◌, ◌≡◌, true, List, length, arith}
use dream_pico_port.Memory.{VolatileMemory, volatile_read, volatile_write}
use dream_pico_port.Memory.Bytes.{IsSized, volatile_read-volatile_write}
use dream_pico_port.Memory.Writes.{volatile_write-IsSized}
use dream_pico_port.Storage.{SystemMemory}

-- The memory with the clock at its calls.
pub record Clocked : Type 0 where
  pub memory : VolatileMemory
  pub sized : IsSized memory
  pub now : ℕ

pub fits :
    (m : VolatileMemory) (now offset : ℕ) (bytes : List ℕ)
    → (volatile_write m now offset bytes).1.success ≡ true
    → offset + length bytes ≤ m.size
unfolding volatile_write
fits m now offset bytes success = ground (arith, success)

pub volatile_read-IsSized :
    (m : VolatileMemory) (now offset size : ℕ)
    → IsSized m
    → IsSized (volatile_read m now offset size).0
unfolding volatile_read
volatile_read-IsSized m now offset size v = v

abbrev pub clocked_memory : SystemMemory
clocked_memory = record {
  State = Clocked;
  read = λ c offset size. (
    record {
      memory = (volatile_read c.memory c.now offset size).0;
      sized = volatile_read-IsSized c.memory c.now offset size c.sized;
      now = c.now + 1;
    },
    (volatile_read c.memory c.now offset size).1,
  );
  write = λ c offset bytes. (
    record {
      memory = (volatile_write c.memory c.now offset bytes).0;
      sized = volatile_write-IsSized c.memory c.now offset bytes c.sized;
      now = c.now + 1;
    },
    (volatile_write c.memory c.now offset bytes).1,
  );
  write_reads = λ c offset bytes some_bytes success.
      (volatile_read-volatile_write c.memory c.now (c.now + 1) offset bytes c.sized some_bytes
        (fits c.memory c.now offset bytes success)).1;
}
