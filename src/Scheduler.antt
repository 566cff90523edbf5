-- ===== src/Scheduler.antt =====
-- src/hostLib/PrioritizedTxScheduler.cpp and .hpp: the schedule of packets for one Maple bus, a
-- time-ordered list for each priority, 0 the highest. A shared_ptr to a Transmission is the
-- transmission itself, and a ScheduleItem's iterators are positions: an item is popped from the
-- schedule that it was peeked from. `none` is a failed assertion. Locking is left out.
pub mod Cadence
pub mod Order
pub mod Lanes
pub mod Peek
pub mod Picks
pub mod Invariant
pub mod Pop
pub mod History
pub mod Cancel
pub mod Tests
use dream_pico_port.Prelude.{
  ℕ, zero, suc, ◌+◌, ◌-◌, ◌*◌, ◌/◌, ◌%◌, ◌<◌, ◌^◌, Bool, true, false, not, ◌&&◌, ◌||◌, ◌==◌, ltb,
  leb, u32, u64, if◌then◌else◌, List, [], ◌∷◌, ◌++◌, length, get_elem?, get_or, set, take,
  replicate, keep_if, Option, none, some,
}
use dream_pico_port.Packet.{MaplePacket}
use dream_pico_port.Transmission.{
  Transmission, TransmissionProperties, TransmitterRef, recipient_of, raw_of, shared_of,
  next_completion_time, packet_duration_us,
}
use Cadence.{compute_next_time_cadence}

pub record Scheduler : Type 0 where
  pub sender_address : ℕ
  pub next_id : ℕ
  pub schedule : List (List Transmission)

pub record ScheduleItem : Type 0 where
  pub is_valid : Bool
  pub schedule_index : ℕ
  pub item_index : ℕ
  pub time : ℕ

abbrev pub no_item : ScheduleItem
no_item = record { is_valid = false; schedule_index = 0; item_index = 0; time = 0 }

abbrev pub invalid_tx_id : ℕ
invalid_tx_id = 0

unfoldable pub init : ℕ → ℕ → Scheduler
init sender_address max = record {
  sender_address = sender_address;
  next_id = 1;
  schedule = replicate (max + 1) [];
}

-- The iterator stops before the first entry that is later than `tx`.
unfoldable pub insert_by_time : Transmission → List Transmission → List Transmission
insert_by_time tx [] = tx ∷ []
insert_by_time tx (x ∷ xs) =
    if leb x.next_tx_time_us tx.next_tx_time_us then x ∷ insert_by_time tx xs else tx ∷ x ∷ xs

-- add(std::shared_ptr<Transmission>)
unfoldable pub add_tx : Scheduler → Transmission → Option (Scheduler × ℕ)
add_tx s tx =
    if ltb tx.priority (length s.schedule)
    then some (
      record s {
        schedule =
            set s.schedule tx.priority (insert_by_time tx (get_or s.schedule tx.priority []));
      },
      tx.transmission_id,
    )
    else none

abbrev with_sender : ℕ → MaplePacket → MaplePacket
with_sender addr p = record p { frame = record (p.frame) { sender_addr = addr } }

unfoldable pub make_transmission :
    Scheduler → TransmissionProperties → TransmitterRef → Transmission
unfolding packet_duration_us
make_transmission s p t = record {
  transmission_id = s.next_id;
  priority = p.priority;
  expect_response = p.expect_response;
  tx_duration_us = packet_duration_us p;
  auto_repeat_us = p.auto_repeat_us;
  auto_repeat_end_time_us = p.auto_repeat_end_time_us;
  next_tx_time_us = p.tx_time;
  packet = with_sender s.sender_address p.packet;
  rx_byte_order = p.rx_byte_order;
  transmitter = raw_of t;
  sp_transmitter = shared_of t;
}

unfoldable pub add : Scheduler → TransmissionProperties → TransmitterRef → Option (Scheduler × ℕ)
unfolding make_transmission add_tx
add s p t =
    if s.next_id == invalid_tx_id
    then none
    else add_tx (record s { next_id = u32 (s.next_id + 1) }) (make_transmission s p t)

-- Is the head of the list due before, or at, a time?
abbrev pub head_before : ℕ → List Transmission → Bool
head_before time [] = false
head_before time (x ∷ xs) = ltb x.next_tx_time_us time

abbrev pub head_due : ℕ → List Transmission → Bool
head_due time [] = false
head_due time (x ∷ xs) = leb x.next_tx_time_us time

-- The first loop of `peekNext`: the lists above the first one with a due head, and that list.
unfoldable pub find_ready :
    ℕ → List (List Transmission) → Option (List (List Transmission) × List Transmission)
find_ready time [] = none
find_ready time (l ∷ ls) =
    let rest = find_ready time ls in
    if head_due time l
    then some ([], l)
    else elim rest [ none ↦ none | some (above, found) ↦ some (l ∷ above, found) ]

-- The innermost loop: something of a higher priority starts before the completion.
unfoldable pub is_blocked : ℕ → List (List Transmission) → Bool
is_blocked completion [] = false
is_blocked completion (l ∷ ls) = is_blocked completion ls || head_before completion l

unfoldable pub contains : ℕ → List ℕ → Bool
contains a [] = false
contains a (x ∷ xs) = a == x || contains a xs

-- The middle loop, at position `pos`; its test holds of the first entry, which is due.
unfoldable pub scan : ℕ → List (List Transmission) → List ℕ → ℕ → List Transmission → Option ℕ
unfolding is_blocked contains next_completion_time
scan time above recipients pos [] = none
scan time above recipients pos (tx ∷ rest) =
    let next = scan time above (recipients ++ recipient_of tx ∷ []) (pos + 1) rest in
    if leb tx.next_tx_time_us time
    then if not (contains (recipient_of tx) recipients)
        && not (is_blocked (next_completion_time tx time) above)
      then some pos
      else next
    else none

abbrev item_at : ℕ → ℕ → Option ℕ → ScheduleItem
item_at time index none = no_item
item_at time index (some pos) = record {
  is_valid = true;
  schedule_index = index;
  item_index = pos;
  time = time;
}

-- In the highest priority list the head is taken; elsewhere the list is scanned.
unfoldable pub pick : ℕ → List (List Transmission) → List Transmission → Option ℕ
unfolding scan
pick time [] l = some 0
pick time (a ∷ above) l = scan time (a ∷ above) [] 0 l

unfoldable pub peek_next : Scheduler → ℕ → ScheduleItem
unfolding find_ready pick
peek_next s time = elim (find_ready time s.schedule) [
  | none ↦ no_item
  | some (above, l) ↦ item_at time (length above) (pick time above l)
]

-- ScheduleItem::getTx
unfoldable pub get_tx : Scheduler → ScheduleItem → Option Transmission
get_tx s item =
    if item.is_valid
    then get_elem? (get_or s.schedule item.schedule_index []) item.item_index
    else none

unfoldable pub erase_at {ℓ} : {A : Type ℓ} → ℕ → List A → List A
erase_at i [] = []
erase_at zero (x ∷ xs) = xs
erase_at (suc i) (x ∷ xs) = x ∷ erase_at i xs

unfoldable pub erase_item : Scheduler → ScheduleItem → Scheduler
unfolding erase_at
erase_item s item = record s {
  schedule =
      set s.schedule item.schedule_index
        (erase_at item.item_index (get_or s.schedule item.schedule_index []));
}

unfoldable pub repeats : Transmission → ℕ → Bool
repeats tx time =
    ltb 0 tx.auto_repeat_us
    && (tx.auto_repeat_end_time_us == 0 || leb time tx.auto_repeat_end_time_us)

unfoldable pub rescheduled : Transmission → ℕ → Transmission
unfolding compute_next_time_cadence
rescheduled tx time = record tx {
  next_tx_time_us = compute_next_time_cadence time tx.auto_repeat_us tx.next_tx_time_us;
}

pub record Popped : Type 0 where
  pub scheduler : Scheduler
  pub item : ScheduleItem
  pub tx : Option Transmission

-- The transmission that is handed out is the object that was put back, with its new time.
unfoldable pub pop_item : Scheduler → ScheduleItem → Option Popped
pop_item s item =
    let erased = erase_item s item in
    let invalid = record item { is_valid = false } in
    elim (get_tx s item) [
      | none ↦ some (record { scheduler = s; item = item; tx = none })
      | some tx ↦
          if repeats tx item.time
          then elim (add_tx erased (rescheduled tx item.time)) [
            | none ↦ none
            | some (s', _) ↦
                some
                  (record { scheduler = s'; item = invalid; tx = some (rescheduled tx item.time) })
          ]
          else some (record { scheduler = erased; item = invalid; tx = some tx })
    ]

unfoldable pub count_if {ℓ} : {A : Type ℓ} → (A → Bool) → List A → ℕ
count_if p [] = 0
count_if p (x ∷ xs) = if p x then suc (count_if p xs) else count_if p xs

-- The loop of a cancel over one list: the entries before the iterator, those from it on, and the
-- count. An entry that the test holds of is erased, and the iterator stays.
unfoldable pub cancel_loop :
    (Transmission → Bool) → List Transmission → List Transmission → ℕ → List Transmission × ℕ
cancel_loop p before [] n = (before, n)
cancel_loop p before (tx ∷ rest) n = elim (p tx) [
  | true ↦ cancel_loop p before rest (n + 1)
  | false ↦ cancel_loop p (before ++ tx ∷ []) rest n
]

-- The loop over the lists.
unfoldable pub cancel_lists :
    (Transmission → Bool) → List (List Transmission) → ℕ → List (List Transmission) × ℕ
unfolding cancel_loop
cancel_lists p [] n = ([], n)
cancel_lists p (l ∷ ls) n =
    let list = cancel_loop p [] l n in
    let lists = cancel_lists p ls list.1 in (list.0 ∷ lists.0, lists.1)

unfoldable pub cancel_by_id : Scheduler → ℕ → Scheduler × ℕ
unfolding cancel_lists
cancel_by_id s id =
    let (rest, n) = cancel_lists (λ tx. tx.transmission_id == id) s.schedule 0 in
    (record s { schedule = rest }, n)

unfoldable pub cancel_by_recipient : Scheduler → ℕ → Scheduler × ℕ
unfolding cancel_lists
cancel_by_recipient s addr =
    let (rest, n) = cancel_lists (λ tx. recipient_of tx == addr) s.schedule 0 in
    (record s { schedule = rest }, n)

unfoldable pub count_lists : (Transmission → Bool) → List (List Transmission) → ℕ
unfolding count_if
count_lists p [] = 0
count_lists p (l ∷ ls) = count_if p l + count_lists p ls

unfoldable pub count_recipients : Scheduler → ℕ → ℕ
unfolding count_lists
count_recipients s addr = count_lists (λ tx. recipient_of tx == addr) s.schedule

unfoldable pub clear_all : List (List Transmission) → List (List Transmission) × ℕ
clear_all [] = ([], 0)
clear_all (l ∷ ls) = let (rest, n) = clear_all ls in ([] ∷ rest, length l + n)

unfoldable pub cancel_all : Scheduler → Scheduler × ℕ
unfolding clear_all
cancel_all s = let (rest, n) = clear_all s.schedule in (record s { schedule = rest }, n)
