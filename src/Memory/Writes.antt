-- ===== src/Memory/Writes.antt =====
-- src/hal/System/NonVolatilePicoSystemMemory.cpp, `write`: what it leaves of the copy in flash.
use dream_pico_port.Prelude.{
  ℕ, zero, suc, ◌+◌, ◌-◌, ◌*◌, ◌≤◌, ◌<◌, ◌≡◌, ◌≢◌, refl, ap, sym, subst, ◌∙◌, ◌⊎◌, inl, inr, false,
  ◌==◌, ltb, leb, if◌then◌else◌, List, [], ◌∷◌, ◌++◌, length, take, All, All-append, length-take,
  arith, Bool-cases,
}
use dream_pico_port.Memory.{VolatileMemory, overwrite, volatile_write, within}
use dream_pico_port.Memory.Bytes.{IsSized, length-overwrite}
use dream_pico_port.Memory.NonVolatile.{
  sector_size, Flash, ProgrammingState, waiting_for_job, sector_erasing, delaying_write,
  NonVolatileMemory, has, write, queued, first_sector, last_sector, write_delay,
  sector_to_flash_byte,
}
use dream_pico_port.Memory.Queue.{has-append_left, queue_sectors-IsQueued}
use dream_pico_port.Memory.Backup.{
  ram_sector, ram_sector-overwrite, IsLaidOut, IsStarted, IsBackedUp,
}

overwrite-nil : (m : List ℕ) (offset : ℕ) → overwrite m offset [] ≡ m
unfolding overwrite
overwrite-nil [] offset = refl
overwrite-nil (x ∷ xs) zero = refl
overwrite-nil (x ∷ xs) (suc offset) = ap (◌∷◌ x) (overwrite-nil xs offset)

pub volatile_write-IsSized :
    (m : VolatileMemory) (now offset : ℕ) (bytes : List ℕ)
    → IsSized m
    → IsSized (volatile_write m now offset bytes).0
unfolding volatile_write
volatile_write-IsSized m now offset bytes v =
    ground
      (arith, v, length-overwrite m.memory offset (take (within m offset (length bytes)) bytes))

-- A write of no byte leaves RAM as it is.
nothing_written :
    (m : VolatileMemory) (now offset : ℕ) (bytes : List ℕ)
    → within m offset (length bytes) ≡ 0
    → (volatile_write m now offset bytes).0.memory ≡ m.memory
unfolding volatile_write
nothing_written m now offset bytes e = elim (Bool-cases (leb m.size offset)) [
  | inl outside ↦ rw outside refl
  | inr inside ↦
      rw
        (
          inside,
          subst (λ n. n ≡ 0)
              (ap
                (λ b.
                  if b
                  then 0
                  else if leb (length bytes) (m.size - offset)
                  then length bytes
                  else m.size - offset)
                inside)
              e,
        )
        (overwrite-nil m.memory offset)
]

written_elsewhere :
    (m : VolatileMemory) (now offset : ℕ) (bytes : List ℕ) (s : ℕ)
    → (s * sector_size + sector_size ≤ offset)
      ⊎ (offset + within m offset (length bytes) ≤ s * sector_size)
    → ram_sector (volatile_write m now offset bytes).0.memory s ≡ ram_sector m.memory s
unfolding volatile_write
written_elsewhere m now offset bytes s apart =
    let size = within m offset (length bytes) in
    let counted : length (take size bytes) ≡ size = ground (arith, length-take size bytes) in
    elim (Bool-cases (leb m.size offset)) [
      | inl outside ↦ rw outside refl
      | inr inside ↦
          ap
            (λ b.
              ram_sector (if b then m.memory else overwrite m.memory offset (take size bytes)) s)
            inside
          ∙ ram_sector-overwrite m.memory offset (take size bytes) s (elim apart [
            | inl before ↦ inl before
            | inr after ↦ inr (omega (arith, counted, after))
          ])
    ]

starts-append :
    (flash : Flash) (p : ProgrammingState) (byte_of : ℕ → ℕ) (f : flash.State)
    (queue extra : List ℕ)
    → IsStarted flash p byte_of f queue
    → IsStarted flash p byte_of f (queue ++ extra)
starts-append flash waiting_for_job byte_of f queue extra h = tt
starts-append flash sector_erasing byte_of f [] extra h = absurd h
starts-append flash sector_erasing byte_of f (s ∷ queue) extra h = h
starts-append flash delaying_write byte_of f [] extra h = absurd h
starts-append flash delaying_write byte_of f (s ∷ queue) extra h = h

-- The object after a write of some bytes.
abbrev queued_write : NonVolatileMemory → ℕ → ℕ → List ℕ → NonVolatileMemory
queued_write m now offset bytes =
    let w = volatile_write m.local_mem now offset bytes in
    let q = queued m offset w.1.size in
    record m {
      last_activity_time = now;
      local_mem = w.0;
      sector_queue = q.queue;
      delayed_write_time =
          if q.item_added
          then 0
          else if q.delay_write
          then write_delay now
          else m.delayed_write_time;
    }

module _ (flash : Flash) (sectors : ℕ) (m : NonVolatileMemory) (f : flash.State)
    (v : IsBackedUp flash sectors m f) (now offset : ℕ) (bytes : List ℕ) where
  abbrev size : ℕ
  size = within m.local_mem offset (length bytes)

  volatile_write-IsLaidOut :
      IsLaidOut sectors (record m { local_mem = (volatile_write m.local_mem now offset bytes).0 })
  unfolding volatile_write
  volatile_write-IsLaidOut =
      let l = v.laid_out in
      (l.0, l.1, volatile_write-IsSized m.local_mem now offset bytes l.2, l.3, l.4, l.5)

  -- A sector that a write does not reach lies before it or behind it.
  apart :
      (s : ℕ)
      → (first_sector offset ≤ s → s ≤ last_sector offset size → ⊥)
      → offset + size ≤ sectors * sector_size
      → 0 < size
      → (s * sector_size + sector_size ≤ offset) ⊎ (offset + size ≤ s * sector_size)
  apart s missed inside some = elim (Bool-cases (ltb s (first_sector offset))) [
    | inl before ↦ inl (ground (arith, v.laid_out, inside, some, before))
    | inr not_before ↦ elim (Bool-cases (leb s (last_sector offset size))) [
      | inl reached ↦ absurd (missed (ground (arith, not_before)) (ground (arith, reached)))
      | inr behind ↦ inr (ground (arith, v.laid_out, inside, some, behind))
    ]
  ]

  some_written : size ≢ 0 → IsBackedUp flash sectors (queued_write m now offset bytes) f
  unfolding volatile_write
  some_written some =
      let l = v.laid_out in
      let inside : offset + size ≤ sectors * sector_size = ground (arith, l) in
      let first = first_sector offset in
      let last = last_sector offset size in
      let grown =
        queue_sectors-IsQueued (suc last - first) first sectors
          (record { queue = m.sector_queue; delay_write = false; item_added = false })
          (omega (arith, l, inside)) in
      record {
        laid_out = volatile_write-IsLaidOut;
        queued =
            subst (All (λ s. s < sectors)) (sym grown.appended)
              (All-append (λ s. s < sectors) m.sector_queue grown.extra v.queued grown.small);
        stored = λ s hs absent.
            v.stored s hs (
              has-append_left s m.sector_queue grown.extra
                (subst (λ q. has s q ≡ false) grown.appended absent))
            ∙ sym (
                written_elsewhere m.local_mem now offset bytes s (
                  apart s (λ low high. absurd (cc (sym absent ∙ grown.there s low (omega arith))))
                    inside (omega (arith, some))));
        started =
            subst (IsStarted flash m.programming_state (sector_to_flash_byte m) f)
              (sym grown.appended)
              (starts-append flash m.programming_state (sector_to_flash_byte m) f m.sector_queue
                grown.extra v.started);
      }

  pub write-IsBackedUp : IsBackedUp flash sectors (write m now offset bytes).0 f
  unfolding write volatile_write
  write-IsBackedUp = elim (Bool-cases (size == 0)) [
    | inl none_written ↦ rw none_written (record {
      laid_out = volatile_write-IsLaidOut;
      queued = v.queued;
      stored = λ s hs absent.
          v.stored s hs absent
          ∙ sym (
              ap (λ memory. ram_sector memory s)
                (nothing_written m.local_mem now offset bytes (ground (arith, none_written))));
      started = v.started;
    })
    | inr some ↦ rw some (some_written (ground (arith, some)))
  ]
