-- ===== src/Scheduler/Cadence.antt =====
-- PrioritizedTxScheduler::computeNextTimeCadence: the next time on a cadence.
use native.Mathlib.Nat.{
  div-mul-le_self, lt-div-mul-add, mul_comm, le_of_mul-le-mul_right, lt_of_mul-lt-mul_right,
  div-lt_iff_lt-mul, mul-div_cancel,
}
use dream_pico_port.Prelude.{
  ℕ, zero, suc, ◌+◌, ◌-◌, ◌*◌, ◌/◌, ◌≤◌, ◌<◌, ◌^◌, ◌≡◌, ap, ◌==◌, ltb, u32, u64, if◌then◌else◌,
  arith,
}

-- The whole periods from the start up to now, rounded up, at least one. All in uint64_t but the
-- count itself, which is a uint32_t.
unfoldable pub periods_past : ℕ → ℕ → ℕ
periods_past elapsed period =
    let n = u32 (u64 (u64 (elapsed + period) + 2 ^ 64 - 1) / period) in if n == 0 then 1 else n

unfoldable pub compute_next_time_cadence : ℕ → ℕ → ℕ → ℕ
compute_next_time_cadence current_time period offset =
    if ltb current_time offset
    then offset
    else if offset == 0
    then u64 (current_time + period)
    else u64 (offset + u64 (period * periods_past (current_time - offset) period))

module _ (d p : ℕ) (pos : 0 < p) (fits : d + p < 2 ^ 64) (few : d / p + 1 < 2 ^ 32) where
  rounded_up : ((d + p - 1) / p * p ≤ d + p - 1) × (d + p - 1 < (d + p - 1) / p * p + p)
  rounded_up = (div-mul-le_self (d + p - 1) p, lt-div-mul-add pos)

  round_up_le : (d + p - 1) / p ≤ d / p + 1
  round_up_le =
      let below : (d + p - 1) / p < d / p + 2 =
        (div-lt_iff_lt-mul pos).1 (omega (arith, lt-div-mul-add {a = d} pos)) in
      omega arith

  periods_past_bounds :
      (0 < periods_past d p)
      × (d ≤ periods_past d p * p)
      × (periods_past d p * p ≤ d + p)
      × (0 < d → periods_past d p * p < d + p)
  unfolding periods_past
  periods_past_bounds = rw (wide, narrow) (bounds ((d + p - 1) / p) rounded_up.0 rounded_up.1)
    where
      wide : u64 (u64 (d + p) + 2 ^ 64 - 1) ≡ d + p - 1
      wide = omega arith

      narrow : u32 ((d + p - 1) / p) ≡ (d + p - 1) / p
      narrow = omega (arith, round_up_le)

      bounds :
          (n : ℕ)
          → n * p ≤ d + p - 1
          → d + p - 1 < n * p + p
          → let m = if n == 0 then 1 else n in
            (0 < m) × (d ≤ m * p) × (m * p ≤ d + p) × (0 < d → m * p < d + p)
      bounds zero lo hi = (omega arith, omega arith, omega arith, λ d_pos. absurd (omega arith))
      bounds (suc n) lo hi = (ground arith, ground arith, ground arith, λ d_pos. ground arith)

-- With a start no later than now and a positive period, and where neither the count of periods nor
-- the time overflows, the next time is a whole number of periods, at least one, after the start;
-- it is not before now; and it is later than now by at most a period.
cadence_bounds :
    (now period start : ℕ)
    → 0 < start
    → start ≤ now
    → 0 < period
    → now + period < 2 ^ 64
    → (now - start) / period + 1 < 2 ^ 32
    → (n : ℕ) × (compute_next_time_cadence now period start ≡ start + n * period)
      × (0 < n)
      × (now ≤ compute_next_time_cadence now period start)
      × (compute_next_time_cadence now period start ≤ now + period)
unfolding compute_next_time_cadence
cadence_bounds now period start h1 h2 h3 h4 h5 =
    let n = periods_past (now - start) period in
    let b = periods_past_bounds (now - start) period h3 (omega arith) h5 in
    let e : period * n ≡ n * period = mul_comm period n in
    (n, ground arith, b.0, ground arith, ground arith)

-- The next time need not lie in the future: at a time that is a whole number of periods, at least
-- one, after the start, with start and period positive and nothing overflowing, it is that same
-- time.
cadence_on_beat :
    (period start n : ℕ)
    → 0 < start
    → 0 < period
    → 0 < n
    → n + 1 < 2 ^ 32
    → start + n * period + period < 2 ^ 64
    → compute_next_time_cadence (start + n * period) period start ≡ start + n * period
cadence_on_beat period start n h1 h2 h3 h4 h5 = rw (fires, exact) (omega (arith, mul_comm period n))
  where
    d : ℕ
    d = n * period

    d_pos : 0 < d
    d_pos = grind arith

    bounds :
        (0 < periods_past d period)
        × (d ≤ periods_past d period * period)
        × (periods_past d period * period ≤ d + period)
        × (0 < d → periods_past d period * period < d + period)
    bounds = periods_past_bounds d period h2 (omega arith) (rw (mul-div_cancel n h2) h4)

    exact : periods_past d period ≡ n
    exact =
        let lo : n ≤ periods_past d period = le_of_mul-le-mul_right {k = period} bounds.1 h2 in
        let hi : periods_past d period < suc n =
          lt_of_mul-lt-mul_right period (omega (arith, bounds.3 d_pos)) in
        omega arith

    elapsed : start + d - start ≡ d
    elapsed = omega arith

    fires :
        compute_next_time_cadence (start + d) period start
        ≡ u64 (start + u64 (period * periods_past d period))
    fires =
        unfold compute_next_time_cadence in
        ground (arith, ap (λ (t : ℕ). periods_past t period) elapsed)
