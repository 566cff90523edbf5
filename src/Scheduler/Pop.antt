-- ===== src/Scheduler/Pop.antt =====
-- PrioritizedTxScheduler::popItem: an entry taken off, and put back where it repeats.
use dream_pico_port.Prelude.{
  ℕ, zero, suc, ◌+◌, ◌<◌, ◌≡◌, inl, inr, refl, Bool, false, if◌then◌else◌, List, [], ◌∷◌, length,
  get_elem?, get_or, some, arith, Bool-cases, length-set, lt→ltb,
}
use dream_pico_port.Transmission.{Transmission}
use dream_pico_port.Scheduler.{
  Scheduler, ScheduleItem, add_tx, get_tx, erase_at, erase_item, repeats, rescheduled, pop_item,
  count_lists,
}
use dream_pico_port.Scheduler.Order.{
  All-erase_at, All-get_elem?, erase_at-IsSorted, one_if, count_if-erase_at, count_lists-set,
}
use dream_pico_port.Scheduler.Lanes.{
  id_limit, IsEntry, IsLane, has_id, IsScheduled, AreLanes-get_or, AreLanes-set,
}
use dream_pico_port.Scheduler.Invariant.{inserted, AreLanes-inserted, count_lists-inserted}

-- An item that names an entry of the schedule.
pub record Names (s : Scheduler) (item : ScheduleItem) (tx : Transmission) : Type 0 where
  pub in_range : item.schedule_index < length s.schedule
  pub entry : get_elem? (get_or s.schedule item.schedule_index []) item.item_index ≡ some tx

in_range_of_some :
    (ls : List (List Transmission)) (i k : ℕ) (tx : Transmission)
    → get_elem? (get_or ls i []) k ≡ some tx
    → i < length ls
in_range_of_some [] i k tx e = cc
in_range_of_some (l ∷ ls) zero k tx e = omega arith
in_range_of_some (l ∷ ls) (suc i) k tx e = omega (arith, in_range_of_some ls i k tx e)

pub get_tx-Names :
    (s : Scheduler) (item : ScheduleItem) (tx : Transmission)
    → get_tx s item ≡ some tx
    → Names s item tx
unfolding get_tx
get_tx-Names s item tx e =
    let entry : get_elem? (get_or s.schedule item.schedule_index []) item.item_index ≡ some tx =
      ground arith in
    record {
      in_range = in_range_of_some s.schedule item.schedule_index item.item_index tx entry;
      entry = entry;
    }

module _ (s : Scheduler) (item : ScheduleItem) (tx : Transmission) (v : IsScheduled s)
    (found : get_tx s item ≡ some tx) where
  names : Names s item tx
  names = get_tx-Names s item tx found

  abbrev lane : List Transmission
  lane = get_or s.schedule item.schedule_index []

  lane-IsLane : IsLane s.sender_address (id_limit s.next_id) (0 + item.schedule_index) lane
  lane-IsLane =
      AreLanes-get_or s.sender_address _ s.schedule 0 item.schedule_index names.in_range v.lanes

  -- The entry lies in the list of its priority.
  pub Names-IsEntry : IsEntry s.sender_address (id_limit s.next_id) item.schedule_index tx
  Names-IsEntry =
      let here : 0 + item.schedule_index ≡ item.schedule_index = omega arith in
      rw here at (All-get_elem? _ lane item.item_index tx lane-IsLane.1 names.entry)

  -- Erasing an entry takes it, and it alone, off the schedule.
  pub count_lists-erase_item :
      (p : Transmission → Bool)
      → count_lists p (erase_item s item).schedule + one_if p tx ≡ count_lists p s.schedule
  unfolding erase_item
  count_lists-erase_item p = omega (
    arith,
    count_lists-set p s.schedule item.schedule_index (erase_at item.item_index lane) names.in_range,
    count_if-erase_at p lane item.item_index tx names.entry,
  )

  pub erase_item-IsScheduled : IsScheduled (erase_item s item)
  erase_item-IsScheduled = record {
    lanes =
        unfold erase_item in
        AreLanes-set s.sender_address (id_limit s.next_id) s.schedule 0 item.schedule_index _
          (
            erase_at-IsSorted item.item_index lane lane-IsLane.0,
            All-erase_at _ item.item_index lane lane-IsLane.1,
          )
          v.lanes;
    unique = λ id. omega (arith, v.unique id, count_lists-erase_item (has_id id));
    counter = unfold erase_item in v.counter;
  }

  -- The scheduler after the pop: without the entry, and with it put back at its next time if it
  -- repeats.
  abbrev pub popped_scheduler : Scheduler
  popped_scheduler =
      if repeats tx item.time
      then record (erase_item s item) {
        schedule = inserted (erase_item s item).schedule (rescheduled tx item.time);
      }
      else erase_item s item

  same_length : length (erase_item s item).schedule ≡ length s.schedule
  unfolding erase_item
  same_length = length-set s.schedule item.schedule_index _

  in_range : (rescheduled tx item.time).priority < length (erase_item s item).schedule
  unfolding rescheduled
  in_range = omega (arith, same_length, names.in_range, Names-IsEntry.in_place)

  put_back :
      add_tx (erase_item s item) (rescheduled tx item.time)
      ≡ some (
        record (erase_item s item) {
          schedule = inserted (erase_item s item).schedule (rescheduled tx item.time);
        },
        (rescheduled tx item.time).transmission_id,
      )
  unfolding add_tx
  put_back = rw (lt→ltb _ _ in_range)

  -- Popping an item that was found never fails its assertion; it hands out the entry, which has its
  -- next time already if it repeats, and invalidates the item.
  pub pop_item_lem :
      pop_item s item
      ≡ some (record {
        scheduler = popped_scheduler;
        item = record item { is_valid = false };
        tx = some (if repeats tx item.time then rescheduled tx item.time else tx);
      })
  unfolding pop_item
  pop_item_lem = elim (Bool-cases (repeats tx item.time)) [
    | inl again ↦ rw (found, pop_item, again, put_back) refl
    | inr once ↦ rw (found, pop_item, once) refl
  ]

  abbrev repeated : Transmission
  repeated = rescheduled tx item.time

  repeated-IsEntry : IsEntry s.sender_address (id_limit s.next_id) repeated.priority repeated
  unfolding rescheduled
  repeated-IsEntry = record {
    in_place = refl;
    given = Names-IsEntry.given;
    positive = Names-IsEntry.positive;
    sender = Names-IsEntry.sender;
  }

  -- A repeated entry counts as it did before.
  one_if_same : (id : ℕ) → one_if (has_id id) repeated ≡ one_if (has_id id) tx
  unfolding one_if rescheduled
  one_if_same id = refl

  put_back-IsScheduled :
      IsScheduled
        (record (erase_item s item) { schedule = inserted (erase_item s item).schedule repeated })
  put_back-IsScheduled = record {
    lanes =
        AreLanes-inserted (erase_item s item).sender_address (id_limit (erase_item s item).next_id)
          (erase_item s item).schedule repeated (unfold erase_item in repeated-IsEntry) in_range
          erase_item-IsScheduled.lanes;
    unique = λ id. omega (
      arith,
      v.unique id,
      count_lists-erase_item (has_id id),
      one_if_same id,
      count_lists-inserted (has_id id) (erase_item s item).schedule repeated in_range,
    );
    counter = erase_item-IsScheduled.counter;
  }

  pub popped_scheduler-IsScheduled : IsScheduled popped_scheduler
  popped_scheduler-IsScheduled = elim (Bool-cases (repeats tx item.time)) [
    | inl again ↦ rw again put_back-IsScheduled
    | inr once ↦ rw once erase_item-IsScheduled
  ]
