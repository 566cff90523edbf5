-- ===== src/Memory/Bytes.antt =====
-- src/hal/System/VolatileSystemMemory.cpp: which bytes a write replaces, and what is read back.
use dream_pico_port.Prelude.{
  ℕ, zero, suc, ◌+◌, ◌-◌, ◌≤◌, ◌<◌, ◌≡◌, refl, ap, true, false, List, [], ◌∷◌, length, take, drop,
  arith, leb, some, take-length,
}
use dream_pico_port.Memory.{VolatileMemory, overwrite, volatile_read, volatile_write}

pub length-overwrite :
    (m : List ℕ) (offset : ℕ) (ds : List ℕ) → length (overwrite m offset ds) ≡ length m
unfolding overwrite
length-overwrite [] offset ds = refl
length-overwrite (x ∷ xs) (suc offset) ds = ap suc (length-overwrite xs offset ds)
length-overwrite (x ∷ xs) zero [] = refl
length-overwrite (x ∷ xs) zero (d ∷ ds) = ap suc (length-overwrite xs zero ds)

-- Bytes in front of a write stay.
pub overwrite_before :
    (m : List ℕ) (offset : ℕ) (ds : List ℕ) (k n : ℕ)
    → k + n ≤ offset
    → take n (drop k (overwrite m offset ds)) ≡ take n (drop k m)
unfolding overwrite
overwrite_before [] offset ds k n h = refl
overwrite_before (x ∷ xs) zero ds zero zero h = refl
overwrite_before (x ∷ xs) zero ds zero (suc n) h = absurd (omega arith)
overwrite_before (x ∷ xs) zero ds (suc k) n h = absurd (omega arith)
overwrite_before (x ∷ xs) (suc offset) ds zero zero h = refl
overwrite_before (x ∷ xs) (suc offset) ds zero (suc n) h =
    ap (◌∷◌ x) (overwrite_before xs offset ds zero n (omega arith))
overwrite_before (x ∷ xs) (suc offset) ds (suc k) n h =
    overwrite_before xs offset ds k n (omega arith)

-- Bytes behind a write stay.
pub overwrite_after :
    (m : List ℕ) (offset : ℕ) (ds : List ℕ) (k : ℕ)
    → offset + length ds ≤ k
    → drop k (overwrite m offset ds) ≡ drop k m
unfolding overwrite
overwrite_after [] offset ds k h = refl
overwrite_after (x ∷ xs) zero [] k h = refl
overwrite_after (x ∷ xs) zero (d ∷ ds) zero h = absurd (omega arith)
overwrite_after (x ∷ xs) zero (d ∷ ds) (suc k) h = overwrite_after xs zero ds k (omega arith)
overwrite_after (x ∷ xs) (suc offset) ds zero h = absurd (omega arith)
overwrite_after (x ∷ xs) (suc offset) ds (suc k) h = overwrite_after xs offset ds k (omega arith)

-- The bytes written are there.
pub overwrite_there :
    (m : List ℕ) (offset : ℕ) (ds : List ℕ)
    → offset + length ds ≤ length m
    → take (length ds) (drop offset (overwrite m offset ds)) ≡ ds
unfolding overwrite
overwrite_there [] zero [] h = refl
overwrite_there [] zero (d ∷ ds) h = absurd (omega arith)
overwrite_there [] (suc offset) ds h = absurd (omega arith)
overwrite_there (x ∷ xs) zero [] h = refl
overwrite_there (x ∷ xs) zero (d ∷ ds) h = ap (◌∷◌ d) (overwrite_there xs zero ds (omega arith))
overwrite_there (x ∷ xs) (suc offset) ds h = overwrite_there xs offset ds (omega arith)

pub volatile_read_keeps :
    (m : VolatileMemory) (now offset size : ℕ)
    → (volatile_read m now offset size).0 ≡ record m { last_activity_time = now }
unfolding volatile_read
volatile_read_keeps m now offset size = refl

-- As many bytes as the object says.
abbrev pub IsSized : VolatileMemory → Type 0
IsSized m = length m.memory ≡ m.size

-- A write of bytes that all fit succeeds, and a read of as many bytes at the same offset finds them.
pub volatile_read-volatile_write :
    (m : VolatileMemory) (now later offset : ℕ) (bytes : List ℕ)
    → IsSized m
    → 0 < length bytes
    → offset + length bytes ≤ m.size
    → let w = volatile_write m now offset bytes in
      (w.1 ≡ record { success = true; size = length bytes })
      × ((volatile_read w.0 later offset (length bytes)).1
          ≡ record { bytes = some bytes; size = length bytes })
unfolding volatile_read volatile_write
volatile_read-volatile_write m now later offset bytes v some_bytes fits =
    let inside : leb m.size offset ≡ false = ground arith in
    let enough : leb (length bytes) (m.size - offset) ≡ true = ground arith in
    rw
      (
        inside,
        enough,
        take-length (length bytes) bytes (omega arith),
        overwrite_there m.memory offset bytes (omega (arith, v)),
      )
      (refl, refl)
