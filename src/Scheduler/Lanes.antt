-- ===== src/Scheduler/Lanes.antt =====
-- The invariant of PrioritizedTxScheduler's mSchedule: each list in time order, each entry under
-- its priority with an ID of its own.
use dream_pico_port.Prelude.{
  ℕ, zero, suc, ◌+◌, ◌≤◌, ◌<◌, ◌^◌, ◌≡◌, refl, Bool, ◌==◌, if◌then◌else◌, List, [], ◌∷◌, length,
  get_or, set, keep_if, All, arith, replicate,
}
use dream_pico_port.Transmission.{Transmission}
use dream_pico_port.Scheduler.{Scheduler, count_if, count_lists, clear_all}
use dream_pico_port.Scheduler.Order.{IsSorted, All-keep_if, keep_if-IsSorted}

-- IDs are given from 1 up; once the counter has wrapped to 0, `add` fails its assertion.
abbrev pub id_limit : ℕ → ℕ
id_limit n = if n == 0 then 2 ^ 32 else n

-- An entry of the list with index `i`: its priority is the list's, its ID was given before, and its
-- packet goes out under the scheduler's address.
pub record IsEntry (addr limit i : ℕ) (tx : Transmission) : Type 0 where
  pub in_place : tx.priority ≡ i
  pub given : tx.transmission_id < limit
  pub positive : 0 < tx.transmission_id
  pub sender : tx.packet.frame.sender_addr ≡ addr

abbrev pub IsLane : ℕ → ℕ → ℕ → List Transmission → Type 0
IsLane addr limit i l = IsSorted l × All (IsEntry addr limit i) l

abbrev pub AreLanes : ℕ → ℕ → ℕ → List (List Transmission) → Type 0
AreLanes addr limit i [] = Unit {0}
AreLanes addr limit i (l ∷ ls) = IsLane addr limit i l × AreLanes addr limit (suc i) ls

abbrev pub has_id : ℕ → Transmission → Bool
has_id id tx = tx.transmission_id == id

pub record IsScheduled (s : Scheduler) : Type 0 where
  pub lanes : AreLanes s.sender_address (id_limit s.next_id) 0 s.schedule
  pub unique : (id : ℕ) → count_lists (has_id id) s.schedule ≤ 1
  pub counter : s.next_id < 2 ^ 32

-- The entries of the schedule that a test holds of, list by list.
abbrev pub selected : (Transmission → Bool) → List (List Transmission) → List (List Transmission)
selected p [] = []
selected p (l ∷ ls) = keep_if p l ∷ selected p ls

module _ (addr limit : ℕ) where
  pub AreLanes-get_or :
      (ls : List (List Transmission)) (i k : ℕ)
      → k < length ls
      → AreLanes addr limit i ls
      → IsLane addr limit (i + k) (get_or ls k [])
  AreLanes-get_or [] i k h a = absurd (omega arith)
  AreLanes-get_or (l ∷ ls) i zero h a = let e : i + 0 ≡ i = omega arith in rw e a.0
  AreLanes-get_or (l ∷ ls) i (suc k) h a =
      let e : i + suc k ≡ suc i + k = omega arith in
      rw e (AreLanes-get_or ls (suc i) k (omega arith) a.1)

  pub AreLanes-set :
      (ls : List (List Transmission)) (i k : ℕ) (l : List Transmission)
      → IsLane addr limit (i + k) l
      → AreLanes addr limit i ls
      → AreLanes addr limit i (set ls k l)
  AreLanes-set [] i k l h a = tt
  AreLanes-set (x ∷ xs) i zero l h a = let e : i + 0 ≡ i = omega arith in (rw e at h, a.1)
  AreLanes-set (x ∷ xs) i (suc k) l h a =
      let e : i + suc k ≡ suc i + k = omega arith in
      (a.0, AreLanes-set xs (suc i) k l (rw e at h) a.1)

  pub AreLanes-selected :
      (p : Transmission → Bool) (ls : List (List Transmission)) (i : ℕ)
      → AreLanes addr limit i ls
      → AreLanes addr limit i (selected p ls)
  AreLanes-selected p [] i a = tt
  AreLanes-selected p (l ∷ ls) i a =
      ((keep_if-IsSorted _ l a.0.0, All-keep_if _ _ l a.0.1), AreLanes-selected p ls (suc i) a.1)

  pub AreLanes-clear_all :
      (ls : List (List Transmission)) (i : ℕ) → AreLanes addr limit i (clear_all ls).0
  unfolding clear_all
  AreLanes-clear_all [] i = tt
  AreLanes-clear_all (l ∷ ls) i = ((tt, tt), AreLanes-clear_all ls (suc i))

-- A schedule of empty lists.
pub AreLanes-replicate : (addr limit i n : ℕ) → AreLanes addr limit i (replicate n [])
AreLanes-replicate addr limit i zero = tt
AreLanes-replicate addr limit i (suc n) = ((tt, tt), AreLanes-replicate addr limit (suc i) n)

module _ (addr small large : ℕ) (grows : small ≤ large) where
  All-IsEntry_mono :
      (i : ℕ) (l : List Transmission) → All (IsEntry addr small i) l → All (IsEntry addr large i) l
  All-IsEntry_mono i [] h = tt
  All-IsEntry_mono i (tx ∷ l) h = (
    record {
      in_place = h.0.in_place;
      given = omega arith;
      positive = h.0.positive;
      sender = h.0.sender;
    },
    All-IsEntry_mono i l h.1,
  )

  pub AreLanes-mono :
      (ls : List (List Transmission)) (i : ℕ) → AreLanes addr small i ls → AreLanes addr large i ls
  AreLanes-mono [] i a = tt
  AreLanes-mono (l ∷ ls) i a = ((a.0.0, All-IsEntry_mono i l a.0.1), AreLanes-mono ls (suc i) a.1)

-- No entry has an ID that was not given yet.
module _ (addr limit id : ℕ) (fresh : limit ≤ id) where
  count_if-fresh :
      (i : ℕ) (l : List Transmission) → All (IsEntry addr limit i) l → count_if (has_id id) l ≡ 0
  unfolding count_if
  count_if-fresh i [] h = refl
  count_if-fresh i (tx ∷ l) h = ground (arith, h.0.given, count_if-fresh i l h.1)

  pub count_lists-fresh :
      (ls : List (List Transmission)) (i : ℕ)
      → AreLanes addr limit i ls
      → count_lists (has_id id) ls ≡ 0
  unfolding count_lists
  count_lists-fresh [] i a = refl
  count_lists-fresh (l ∷ ls) i a =
      omega (arith, count_if-fresh i l a.0.1, count_lists-fresh ls (suc i) a.1)

pub count_lists-replicate : (p : Transmission → Bool) (n : ℕ) → count_lists p (replicate n []) ≡ 0
unfolding count_lists count_if
count_lists-replicate p zero = refl
count_lists-replicate p (suc n) = omega (arith, count_lists-replicate p n)

module _ (p q : Transmission → Bool) where
  count_if-keep_if : (l : List Transmission) → count_if p (keep_if q l) ≤ count_if p l
  unfolding count_if
  count_if-keep_if [] = omega arith
  count_if-keep_if (tx ∷ l) = ground (arith, count_if-keep_if l)

pub count_lists-selected :
    (p q : Transmission → Bool) (ls : List (List Transmission))
    → count_lists p (selected q ls) ≤ count_lists p ls
unfolding count_lists
count_lists-selected p q [] = omega arith
count_lists-selected p q (l ∷ ls) =
    omega (arith, count_if-keep_if p q l, count_lists-selected p q ls)

pub count_lists-clear_all :
    (p : Transmission → Bool) (ls : List (List Transmission)) → count_lists p (clear_all ls).0 ≡ 0
unfolding count_lists count_if clear_all
count_lists-clear_all p [] = refl
count_lists-clear_all p (l ∷ ls) = omega (arith, count_lists-clear_all p ls)
