-- ===== src/Scheduler/Invariant.antt =====
-- The constructor and add of PrioritizedTxScheduler, and the invariant.
use dream_pico_port.Prelude.{
  ℕ, ◌+◌, ◌≤◌, ◌<◌, ◌≡◌, ◌≢◌, inl, inr, refl, Bool, ◌==◌, List, [], length, get_or, set, some,
  arith, Bool-cases, ==_iff, u32,
}
use dream_pico_port.Transmission.{Transmission, TransmissionProperties, TransmitterRef}
use dream_pico_port.Scheduler.{
  Scheduler, invalid_tx_id, init, insert_by_time, make_transmission, add, count_lists,
}
use dream_pico_port.Scheduler.Order.{
  All-insert_by_time, insert_by_time-IsSorted, one_if, one_if-le, one_if-zero,
  count_if-insert_by_time, count_lists-set,
}
use dream_pico_port.Scheduler.Lanes.{
  id_limit, IsEntry, AreLanes, has_id, IsScheduled, AreLanes-get_or, AreLanes-set,
  AreLanes-replicate, AreLanes-mono, count_lists-fresh, count_lists-replicate,
}

-- A constructed scheduler.
pub init-IsScheduled : (addr max : ℕ) → IsScheduled (init addr max)
unfolding init
init-IsScheduled addr max = record {
  lanes = AreLanes-replicate addr 1 0 (max + 1);
  unique = λ id. omega (arith, count_lists-replicate (has_id id) (max + 1));
  counter = omega arith;
}

-- Putting an entry into its list.
abbrev pub inserted : List (List Transmission) → Transmission → List (List Transmission)
inserted ls tx = set ls tx.priority (insert_by_time tx (get_or ls tx.priority []))

pub AreLanes-inserted :
    (addr limit : ℕ) (ls : List (List Transmission)) (tx : Transmission)
    → IsEntry addr limit tx.priority tx
    → tx.priority < length ls
    → AreLanes addr limit 0 ls
    → AreLanes addr limit 0 (inserted ls tx)
AreLanes-inserted addr limit ls tx e h a =
    let lane = AreLanes-get_or addr limit ls 0 tx.priority h a in
    let here : 0 + tx.priority ≡ tx.priority = omega arith in
    AreLanes-set addr limit ls 0 tx.priority _
      (rw here
        (insert_by_time-IsSorted tx _ lane.0, All-insert_by_time _ tx _ e (rw here at lane.1)))
      a

pub count_lists-inserted :
    (p : Transmission → Bool) (ls : List (List Transmission)) (tx : Transmission)
    → tx.priority < length ls
    → count_lists p (inserted ls tx) ≡ count_lists p ls + one_if p tx
count_lists-inserted p ls tx h = omega (
  arith,
  count_lists-set p ls tx.priority (insert_by_time tx (get_or ls tx.priority [])) h,
  count_if-insert_by_time p tx (get_or ls tx.priority []),
)

-- What a successful `add` did.
pub record Added (s s' : Scheduler) (p : TransmissionProperties) (t : TransmitterRef) : Type 0 where
  pub ids_left : s.next_id ≢ invalid_tx_id
  pub in_range : p.priority < length s.schedule
  pub result : s' ≡ record s {
    next_id = u32 (s.next_id + 1);
    schedule = inserted s.schedule (make_transmission s p t);
  }

pub add-Added :
    (s s' : Scheduler) (p : TransmissionProperties) (t : TransmitterRef) (id : ℕ)
    → add s p t ≡ some (s', id)
    → Added s s' p t
unfolding add
add-Added s s' p t id e = record {
  ids_left = ground arith;
  in_range = ground arith;
  result = ground arith;
}

-- `add` puts in the transmission under a new ID.
pub add-IsScheduled :
    (s s' : Scheduler) (p : TransmissionProperties) (t : TransmitterRef) (id : ℕ)
    → IsScheduled s
    → add s p t ≡ some (s', id)
    → IsScheduled s'
unfolding make_transmission
add-IsScheduled s s' p t id v e = rw a.result (record {
  lanes = rw limit (
      AreLanes-inserted s.sender_address (s.next_id + 1) s.schedule tx entry a.in_range (
        AreLanes-mono s.sender_address s.next_id (s.next_id + 1) (omega arith) s.schedule 0
          (rw old_limit at v.lanes)));
  unique = λ k. once k;
  counter = omega arith;
})
  where
    a : Added s s' p t
    a = add-Added s s' p t id e

    tx : Transmission
    tx = make_transmission s p t

    positive : 0 < s.next_id
    positive = omega (arith, a.ids_left)

    old_limit : id_limit s.next_id ≡ s.next_id
    old_limit = ground (arith, positive)

    limit : id_limit (u32 (s.next_id + 1)) ≡ s.next_id + 1
    limit = ground (arith, v.counter)

    entry : IsEntry s.sender_address (s.next_id + 1) tx.priority tx
    entry = record { in_place = refl; given = omega arith; positive = positive; sender = refl }

    once : (k : ℕ) → count_lists (has_id k) (inserted s.schedule tx) ≤ 1
    once k = elim (Bool-cases (s.next_id == k)) [
      | inl hit ↦
          let same : s.next_id ≡ k = (==_iff _ _).0 hit in
          omega (
            arith,
            count_lists-inserted (has_id k) s.schedule tx a.in_range,
            one_if-le (has_id k) tx,
            count_lists-fresh s.sender_address s.next_id k (omega arith) s.schedule 0
                (rw old_limit at v.lanes),
          )
      | inr miss ↦ omega (
        arith,
        count_lists-inserted (has_id k) s.schedule tx a.in_range,
        one_if-zero (has_id k) tx miss,
        v.unique k,
      )
    ]
