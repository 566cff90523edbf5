-- ===== src/WebUsb/Reception.antt =====
-- WebUsbProcessorBase::tryReadPacketHeader and the machine that takes one byte at a time.
use dream_pico_port.Prelude.{
  ℕ, zero, suc, ◌+◌, ◌≤◌, ◌<◌, ◌≡◌, refl, ap, ◌∙◌, Bool, true, false, ltb, List, [], length,
  Bool-cases, inl, inr, ltb→lt, Option, some, arith,
}
use dream_pico_port.WebUsb.{
  WebUsbProcessor, reset, parse_magic, read_header_bytes, check_sizes, size_field,
  try_read_packet_header,
}
use dream_pico_port.WebUsb.Automaton.{feed}
use dream_pico_port.WebUsb.Magic.{parse_magic-IsSearched, read_header_bytes-IsSized}

-- Behind a header: the size is one of a packet, and the bytes of a packet that is not complete are
-- in the buffer.
pub record IsReceiving (s : WebUsbProcessor) : Type 0 where
  pub least : 8 ≤ s.rcv_idx → 4 ≤ s.rcv_size
  pub stored : 8 ≤ s.rcv_idx → length s.buffer + 8 ≡ s.rcv_idx
  pub partial : 8 ≤ s.rcv_idx → length s.buffer < s.rcv_size

pub IsReceiving-low : (s : WebUsbProcessor) → s.rcv_idx < 8 → IsReceiving s
IsReceiving-low s h = record {
  least = λ k. absurd (omega arith);
  stored = λ k. absurd (omega arith);
  partial = λ k. absurd (omega arith);
}

-- What a check of the sizes leaves.
pub record IsChecked (s : WebUsbProcessor) (c : WebUsbProcessor × Bool) : Type 0 where
  pub good : c.1 ≡ true → (c.0.rcv_idx ≡ s.rcv_idx) × (c.0.buffer ≡ []) × (4 ≤ c.0.rcv_size)
  pub bad : c.1 ≡ false → c.0.rcv_idx ≤ 4

again_bound : (s : WebUsbProcessor) (bs : List ℕ) → (parse_magic (reset s) bs).0.rcv_idx ≤ 4
again_bound s bs = (parse_magic-IsSearched (reset s) bs (unfold reset in omega arith)).bound

pub check_sizes-IsChecked : (s : WebUsbProcessor) → IsChecked s (check_sizes s)
unfolding check_sizes
check_sizes-IsChecked s = record {
  good = ground arith;
  bad = λ e. ground (arith, again_bound (record s { rcv_size = size_field s }) s.size_bytes);
}

-- What the reading of a header comes to.
pub data Outcome (s : WebUsbProcessor) (bs : List ℕ)
    : Option (WebUsbProcessor × List ℕ × Bool) → Type 0 where
  waiting :
      (t : WebUsbProcessor)
      → feed s bs ≡ (t, [])
      → t.rcv_idx < 8
      → Outcome s bs (some (t, [], false))
  headed :
      (t : WebUsbProcessor) (left : List ℕ)
      → feed s bs ≡ feed t left
      → IsReceiving t
      → 8 ≤ t.rcv_idx
      → length left ≤ length bs
      → (s.rcv_idx < 8 → length left < length bs)
      → Outcome s bs (some (t, left, true))

module _ (fuel : ℕ) (s : WebUsbProcessor) (bs : List ℕ) where
  header-done : 8 ≤ s.rcv_idx → try_read_packet_header (suc fuel) s bs ≡ some (s, bs, true)
  unfolding try_read_packet_header
  header-done h = ground arith

  header-wait :
      s.rcv_idx < 8
      → (read_header_bytes s bs).0.rcv_idx < 8
      → try_read_packet_header (suc fuel) s bs
        ≡ some ((read_header_bytes s bs).0, (read_header_bytes s bs).1, false)
  unfolding try_read_packet_header
  header-wait h k = ground arith

  header-good :
      s.rcv_idx < 8
      → 8 ≤ (read_header_bytes s bs).0.rcv_idx
      → (check_sizes (read_header_bytes s bs).0).1 ≡ true
      → try_read_packet_header (suc fuel) s bs
        ≡ some ((check_sizes (read_header_bytes s bs).0).0, (read_header_bytes s bs).1, true)
  unfolding try_read_packet_header
  header-good h k e = ground arith

  header-again :
      s.rcv_idx < 8
      → 8 ≤ (read_header_bytes s bs).0.rcv_idx
      → (check_sizes (read_header_bytes s bs).0).1 ≡ false
      → try_read_packet_header (suc fuel) s bs
        ≡ try_read_packet_header fuel
            (check_sizes (read_header_bytes s bs).0).0
            (read_header_bytes s bs).1
  unfolding try_read_packet_header
  header-again h k e = ground arith

-- An outcome after some of the bytes is one of them all.
Outcome-before :
    (s t : WebUsbProcessor) (bs cs : List ℕ) (o : Option (WebUsbProcessor × List ℕ × Bool))
    → feed s bs ≡ feed t cs
    → length cs < length bs
    → Outcome t cs o
    → Outcome s bs o
Outcome-before s t bs cs o e h (waiting u f k) = waiting u (e ∙ f) k
Outcome-before s t bs cs o e h (headed u left f w k l m) =
    headed u left (e ∙ f) w k (omega arith) (λ n. omega arith)

pub try_read_packet_header-Outcome :
    (fuel : ℕ) (s : WebUsbProcessor) (bs : List ℕ)
    → length bs < fuel
    → IsReceiving s
    → Outcome s bs (try_read_packet_header fuel s bs)
try_read_packet_header-Outcome zero s bs h w = absurd (omega arith)
try_read_packet_header-Outcome (suc fuel) s bs h w = elim (Bool-cases (ltb s.rcv_idx 8)) [
  | inr k ↦
      rw (header-done fuel s bs (ground arith))
        (headed s bs refl w (ground arith) (omega arith) (λ l. absurd (ground arith)))
  | inl k ↦
      let low : s.rcv_idx < 8 = ltb→lt s.rcv_idx 8 k in
      let r = read_header_bytes s bs in
      let sized = read_header_bytes-IsSized s bs low in
      let checked = check_sizes-IsChecked r.0 in
      elim (Bool-cases (ltb r.0.rcv_idx 8)) [
        | inl early ↦
            let e = sized.early (ltb→lt r.0.rcv_idx 8 early) in
            rw (header-wait fuel s bs low (ltb→lt r.0.rcv_idx 8 early), e.1)
              (waiting r.0 e.0 (ltb→lt r.0.rcv_idx 8 early))
        | inr full ↦
            let done : 8 ≤ r.0.rcv_idx = ground arith in
            let c = check_sizes r.0 in
            elim (Bool-cases c.1) [
              | inl e ↦
                  let g = checked.good e in
                  let kept : IsReceiving c.0 = record {
                    least = λ l. g.2;
                    stored = λ l. omega (arith, g.0, ap length g.1, sized.bound);
                    partial = λ l. omega (arith, g.2, ap length g.1);
                  } in
                  rw (header-good fuel s bs low done e) (
                    headed c.0 r.1 (sized.full done) kept (omega (arith, g.0))
                      (omega (arith, sized.shrinks done)) (λ l. sized.shrinks done))
              | inr e ↦ rw (header-again fuel s bs low done e) (
                  Outcome-before s c.0 bs r.1 (try_read_packet_header fuel c.0 r.1)
                    (sized.full done) (sized.shrinks done)
                    (try_read_packet_header-Outcome fuel c.0 r.1 (omega (arith, sized.shrinks done))
                      (IsReceiving-low c.0 (omega (arith, checked.bad e)))))
            ]
      ]
]
