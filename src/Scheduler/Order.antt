-- ===== src/Scheduler/Order.antt =====
-- One list of PrioritizedTxScheduler's mSchedule: its order in time, under inserting, erasing and
-- filtering.
use dream_pico_port.Prelude.{
  ℕ, zero, suc, ◌+◌, ◌≤◌, ◌<◌, ◌≡◌, subst, Bool, false, if◌then◌else◌, List, [], ◌∷◌, length,
  get_elem?, get_or, set, keep_if, All, some, arith,
}
use dream_pico_port.Transmission.{Transmission}
use dream_pico_port.Scheduler.{insert_by_time, erase_at, count_if, count_lists}

-- No entry is later than one behind it.
abbrev pub IsSorted : List Transmission → Type 0
IsSorted [] = Unit {0}
IsSorted (x ∷ xs) = All (λ y. x.next_tx_time_us ≤ y.next_tx_time_us) xs × IsSorted xs

module _ {κ} (P : Transmission → Type κ) where
  pub All-insert_by_time :
      (tx : Transmission) (l : List Transmission) → P tx → All P l → All P (insert_by_time tx l)
  unfolding insert_by_time
  All-insert_by_time tx [] p h = (p, tt)
  All-insert_by_time tx (x ∷ xs) p h = ground (arith, All-insert_by_time tx xs p h.1)

  pub All-erase_at : (i : ℕ) (l : List Transmission) → All P l → All P (erase_at i l)
  unfolding erase_at
  All-erase_at i [] h = tt
  All-erase_at zero (x ∷ xs) h = h.1
  All-erase_at (suc i) (x ∷ xs) h = (h.0, All-erase_at i xs h.1)

  pub All-keep_if :
      (p : Transmission → Bool) (l : List Transmission) → All P l → All P (keep_if p l)
  All-keep_if p [] h = tt
  All-keep_if p (x ∷ xs) h = ground (arith, All-keep_if p xs h.1)

  pub All-get_elem? :
      (l : List Transmission) (i : ℕ) (tx : Transmission) → All P l → get_elem? l i ≡ some tx → P tx
  All-get_elem? [] i tx h e = cc
  All-get_elem? (x ∷ xs) zero tx h e = let same : x ≡ tx = cc in subst P same h.0
  All-get_elem? (x ∷ xs) (suc i) tx h e = All-get_elem? xs i tx h.1 e

All-mono :
    (a b : ℕ) (l : List Transmission)
    → a ≤ b
    → All (λ y. b ≤ y.next_tx_time_us) l
    → All (λ y. a ≤ y.next_tx_time_us) l
All-mono a b [] h t = tt
All-mono a b (x ∷ xs) h t = (omega arith, All-mono a b xs h t.1)

pub insert_by_time-IsSorted :
    (tx : Transmission) (l : List Transmission) → IsSorted l → IsSorted (insert_by_time tx l)
unfolding insert_by_time
insert_by_time-IsSorted tx [] h = (tt, tt)
insert_by_time-IsSorted tx (x ∷ xs) h = ground (
  arith,
  insert_by_time-IsSorted tx xs h.1,
  All-insert_by_time (λ y. x.next_tx_time_us ≤ y.next_tx_time_us) tx xs,
  All-mono tx.next_tx_time_us x.next_tx_time_us xs,
)

pub erase_at-IsSorted : (i : ℕ) (l : List Transmission) → IsSorted l → IsSorted (erase_at i l)
unfolding erase_at
erase_at-IsSorted i [] h = tt
erase_at-IsSorted zero (x ∷ xs) h = h.1
erase_at-IsSorted (suc i) (x ∷ xs) h = (All-erase_at _ i xs h.0, erase_at-IsSorted i xs h.1)

pub keep_if-IsSorted :
    (p : Transmission → Bool) (l : List Transmission) → IsSorted l → IsSorted (keep_if p l)
keep_if-IsSorted p [] h = tt
keep_if-IsSorted p (x ∷ xs) h = ground (
  arith,
  keep_if-IsSorted p xs h.1,
  All-keep_if (λ y. x.next_tx_time_us ≤ y.next_tx_time_us) p xs h.0,
)

-- How often a test holds says which transmissions a list has, and how often.
module _ (p : Transmission → Bool) where
  unfoldable pub one_if : Transmission → ℕ
  one_if tx = if p tx then 1 else 0

  pub one_if-le : (tx : Transmission) → one_if tx ≤ 1
  unfolding one_if
  one_if-le tx = ground arith

  pub one_if-zero : (tx : Transmission) → p tx ≡ false → one_if tx ≡ 0
  unfolding one_if
  one_if-zero tx h = ground arith

  pub count_if-insert_by_time :
      (tx : Transmission) (l : List Transmission)
      → count_if p (insert_by_time tx l) ≡ count_if p l + one_if tx
  unfolding insert_by_time count_if one_if
  count_if-insert_by_time tx [] = ground arith
  count_if-insert_by_time tx (x ∷ xs) = ground (arith, count_if-insert_by_time tx xs)

  pub count_if-erase_at :
      (l : List Transmission) (i : ℕ) (tx : Transmission)
      → get_elem? l i ≡ some tx
      → count_if p (erase_at i l) + one_if tx ≡ count_if p l
  unfolding erase_at count_if one_if
  count_if-erase_at [] i tx e = cc
  count_if-erase_at (x ∷ xs) zero tx e = ground arith
  count_if-erase_at (x ∷ xs) (suc i) tx e = ground (arith, count_if-erase_at xs i tx e)

  -- Replacing one list of the schedule changes the count by what that list loses and gains.
  pub count_lists-set :
      (ls : List (List Transmission)) (i : ℕ) (l : List Transmission)
      → i < length ls
      → count_lists p (set ls i l) + count_if p (get_or ls i []) ≡ count_lists p ls + count_if p l
  unfolding count_lists
  count_lists-set [] i l h = absurd (omega arith)
  count_lists-set (x ∷ xs) zero l h = omega arith
  count_lists-set (x ∷ xs) (suc i) l h = omega (arith, count_lists-set xs i l (omega arith))
