-- ===== src/Memory/Queue.antt =====
-- src/hal/System/NonVolatilePicoSystemMemory.cpp, `write`: what its loop adds to the queue of sectors.
use dream_pico_port.Prelude.{
  ℕ, zero, suc, ◌+◌, ◌≤◌, ◌<◌, ◌≡◌, ◌≢◌, refl, ap, subst, sym, ◌∙◌, true, false, ◌==◌, List, [],
  ◌∷◌, ◌++◌, All, All-append, append_assoc, append-nil, arith, Bool-cases, inl, inr,
}
use dream_pico_port.Memory.NonVolatile.{Queueing, has, queue_sector, queue_sectors}

pub has-append_left : (s : ℕ) (xs ys : List ℕ) → has s (xs ++ ys) ≡ false → has s xs ≡ false
unfolding has
has-append_left s [] ys h = refl
has-append_left s (x ∷ xs) ys h = ground (arith, has-append_left s xs ys)

pub has_absent :
    (t s : ℕ) (queue : List ℕ) → has t (s ∷ queue) ≡ false → (s ≢ t) × (has t queue ≡ false)
unfolding has
has_absent t s queue h = ground arith

pub has_elsewhere :
    (t s : ℕ) (queue : List ℕ) → (s == t) ≡ false → has t queue ≡ false → has t (s ∷ queue) ≡ false
unfolding has
has_elsewhere t s queue other absent = ground arith

has-append_true : (s : ℕ) (xs ys : List ℕ) → has s xs ≡ true → has s (xs ++ ys) ≡ true
unfolding has
has-append_true s [] ys h = absurd (cc h)
has-append_true s (x ∷ xs) ys h = ground (arith, has-append_true s xs ys)

has_last : (s : ℕ) (xs : List ℕ) → has s (xs ++ s ∷ []) ≡ true
unfolding has
has_last s [] = ground arith
has_last s (x ∷ xs) = ground (arith, has_last s xs)

-- The loop over sectors below `n` leaves the queue as it was and adds sectors below `n` behind it,
-- after which every sector of its range is in the queue.
pub record IsQueued (from rounds n : ℕ) (before after : List ℕ) : Type 0 where
  pub extra : List ℕ
  pub appended : after ≡ before ++ extra
  pub small : All (λ s. s < n) extra
  pub there : (s : ℕ) → from ≤ s → s < from + rounds → has s after ≡ true

queue_sector_once :
    (from n : ℕ) (q : Queueing) → from < n → IsQueued from 1 n q.queue (queue_sector from q).queue
unfolding queue_sector
queue_sector_once from n q h = elim (Bool-cases (has from q.queue)) [
  | inl already ↦ record {
    extra = [];
    appended = ground (arith, already, append-nil q.queue);
    small = tt;
    there = λ s low high.
        let same : s ≡ from = omega arith in ground (arith, already, ap (λ t. has t q.queue) same);
  }
  | inr missing ↦ record {
    extra = from ∷ [];
    appended = rw missing refl;
    small = (h, tt);
    there = λ s low high.
        let same : s ≡ from = omega arith in rw (same, missing) (has_last from q.queue);
  }
]

pub queue_sectors-IsQueued :
    (rounds from n : ℕ) (q : Queueing)
    → from + rounds ≤ n
    → IsQueued from rounds n q.queue (queue_sectors rounds from q).queue
unfolding queue_sectors
queue_sectors-IsQueued zero from n q h = record {
  extra = [];
  appended = sym (append-nil q.queue);
  small = tt;
  there = λ s low high. absurd (omega arith);
}
queue_sectors-IsQueued (suc rounds) from n q h =
    let now = queue_sector_once from n q (omega arith) in
    let rest = queue_sectors-IsQueued rounds (suc from) n (queue_sector from q) (omega arith) in
    record {
      extra = now.extra ++ rest.extra;
      appended =
          rest.appended
          ∙ ap (λ t. t ++ rest.extra) now.appended
          ∙ append_assoc q.queue now.extra rest.extra;
      small = All-append (λ s. s < n) now.extra rest.extra now.small rest.small;
      there = λ s low high. elim (Bool-cases (s == from)) [
        | inl same ↦
            let there : has s (queue_sector from q).queue ≡ true = now.there s low (ground arith) in
            subst (λ t. has s t ≡ true) (sym rest.appended)
              (has-append_true s (queue_sector from q).queue rest.extra there)
        | inr other ↦ rest.there s (ground arith) (omega arith)
      ];
    }
