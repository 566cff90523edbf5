-- ===== src/Scheduler/Picks.antt =====
-- PrioritizedTxScheduler::peekNext: what it finds, and when it finds nothing.
use dream_pico_port.Prelude.{
  ℕ, zero, suc, ◌≤◌, ◌<◌, ◌≡◌, ◌≢◌, ◌⊎◌, inl, inr, refl, sym, ◌∙◌, false, List, [], ◌∷◌, length,
  get_elem?, get_or, take, All, Option, none, some, Option-cases, some_inj,
}
use dream_pico_port.Transmission.{Transmission, recipient_of, next_completion_time}
use dream_pico_port.Scheduler.{
  Scheduler, ScheduleItem, head_due, find_ready, pick, item_at, no_item, peek_next, get_tx,
}
use dream_pico_port.Scheduler.Order.{IsSorted}
use dream_pico_port.Scheduler.Lanes.{AreLanes, IsScheduled}
use dream_pico_port.Scheduler.Peek.{
  NotBefore, head_due-NotBefore, is_blocked-NotBefore, Ready, find_ready-Ready, find_ready-none,
  Usable, pick-Usable, pick-none, is_blocked-blocker,
}

AreLanes-take :
    (addr limit i n : ℕ) (ls : List (List Transmission))
    → AreLanes addr limit i ls
    → All IsSorted (take n ls)
AreLanes-take addr limit i zero ls a = tt
AreLanes-take addr limit i (suc n) [] a = tt
AreLanes-take addr limit i (suc n) (l ∷ ls) a = (a.0.0, AreLanes-take addr limit (suc i) n ls a.1)

All-head_due :
    (time : ℕ) (ls : List (List Transmission))
    → All IsSorted ls
    → All (λ m. head_due time m ≡ false) ls
    → All (NotBefore (suc time)) ls
All-head_due time [] s h = tt
All-head_due time (l ∷ ls) s h = (head_due-NotBefore time l s.0 h.0, All-head_due time ls s.1 h.1)

-- What makes an entry the one to send at a time: it is due, nothing of a higher priority is due or
-- is scheduled before its expected completion, and no entry for its recipient stands before it in
-- its list.
pub record MayGo (s : Scheduler) (time : ℕ) (item : ScheduleItem) (tx : Transmission) : Type 0 where
  pub due : tx.next_tx_time_us ≤ time
  pub above_idle : All (NotBefore (suc time)) (take item.schedule_index s.schedule)
  pub above_clear :
      All (NotBefore (next_completion_time tx time)) (take item.schedule_index s.schedule)
  pub first_for_recipient :
      All
        (λ x. recipient_of x ≢ recipient_of tx)
        (take item.item_index (get_or s.schedule item.schedule_index []))

get_tx-no_item : (s : Scheduler) (tx : Transmission) → get_tx s no_item ≡ some tx → ⊥
unfolding get_tx
get_tx-no_item s tx e = cc e

module _ (s : Scheduler) (time : ℕ) (v : IsScheduled s) (above : List (List Transmission))
    (l : List Transmission) (r : Ready time s.schedule above l) where
  IsSorted-above : All IsSorted above
  IsSorted-above =
      rw r.prefix at (AreLanes-take s.sender_address _ 0 (length above) s.schedule v.lanes)

  Usable-MayGo :
      (k : ℕ) (tx : Transmission)
      → Usable time above [] l k
      → get_tx s (item_at time (length above) (some k)) ≡ some tx
      → MayGo s time (item_at time (length above) (some k)) tx
  unfolding get_tx
  Usable-MayGo k tx u e =
      let same : u.entry ≡ tx = some_inj (sym u.at ∙ rw r.found at e) in
      rw (← same) (record {
        due = u.due;
        above_idle = rw r.prefix (All-head_due time above IsSorted-above r.earlier);
        above_clear = rw r.prefix (is_blocked-NotBefore _ above IsSorted-above u.free);
        first_for_recipient = rw r.found u.first;
      })

  item_at-MayGo :
      (o : Option ℕ) (tx : Transmission)
      → pick time above l ≡ o
      → get_tx s (item_at time (length above) o) ≡ some tx
      → MayGo s time (item_at time (length above) o) tx
  item_at-MayGo none tx e h = absurd (get_tx-no_item s tx h)
  item_at-MayGo (some k) tx e h = Usable-MayGo k tx (pick-Usable time above l k r.due e) h

peek_next-stop :
    (s : Scheduler) (time : ℕ) → find_ready time s.schedule ≡ none → peek_next s time ≡ no_item
unfolding peek_next
peek_next-stop s time e = rw (e, peek_next)

peek_next-go :
    (s : Scheduler) (time : ℕ) (above : List (List Transmission)) (l : List Transmission)
    → find_ready time s.schedule ≡ some (above, l)
    → peek_next s time ≡ item_at time (length above) (pick time above l)
unfolding peek_next
peek_next-go s time above l e = rw (e, peek_next)

-- Whatever `peekNext` finds at a time may go out at that time: it is due, nothing of a higher
-- priority is due or is scheduled before its expected completion, and no entry for its recipient
-- stands before it in its list.
pub peek_next-MayGo :
    (s : Scheduler) (time : ℕ) (tx : Transmission)
    → IsScheduled s
    → get_tx s (peek_next s time) ≡ some tx
    → MayGo s time (peek_next s time) tx
peek_next-MayGo s time tx v e = elim (Option-cases (find_ready time s.schedule)) [
  | inl stop ↦ absurd (get_tx-no_item s tx (rw (peek_next-stop s time stop) at e))
  | inr ((above, l), go) ↦
      let same = peek_next-go s time above l go in
      rw same (
        item_at-MayGo s time v above l (find_ready-Ready time s.schedule above l go)
          (pick time above l) tx refl (rw same at e))
]

-- A list whose head is due and may not go out.
pub record IsHeld (s : Scheduler) (time : ℕ) (k : ℕ) : Type 0 where
  pub head : Transmission
  pub rest : List Transmission
  pub lane : get_or s.schedule k [] ≡ head ∷ rest
  pub due : head.next_tx_time_us ≤ time
  pub above_idle : All (NotBefore (suc time)) (take k s.schedule)
  pub blocker :
      (j : ℕ) × (x : Transmission) × (xs : List Transmission) × (get_or (take k s.schedule) j []
        ≡ x ∷ xs)
      × (x.next_tx_time_us < next_completion_time head time)

pub AreLanes-IsSorted :
    (addr limit i : ℕ) (ls : List (List Transmission)) → AreLanes addr limit i ls → All IsSorted ls
AreLanes-IsSorted addr limit i [] a = tt
AreLanes-IsSorted addr limit i (l ∷ ls) a = (a.0.0, AreLanes-IsSorted addr limit (suc i) ls a.1)

module _ (s : Scheduler) (time : ℕ) (v : IsScheduled s) (above : List (List Transmission))
    (l : List Transmission) (r : Ready time s.schedule above l) where
  found_some :
      (k : ℕ) → Usable time above [] l k → get_tx s (item_at time (length above) (some k)) ≢ none
  unfolding get_tx
  found_some k u e = let there : get_elem? l k ≡ none = rw r.found at e in cc u.at

  held :
      (o : Option ℕ)
      → pick time above l ≡ o
      → get_tx s (item_at time (length above) o) ≡ none
      → IsHeld s time (length above)
  held (some k) p e = absurd (found_some k (pick-Usable time above l k r.due p) e)
  held none p e =
      let (head, rest, lane, due, blocked) = pick-none time above l r.due p in
      record {
        head = head;
        rest = rest;
        lane = r.found ∙ lane;
        due = due;
        above_idle =
            rw r.prefix (All-head_due time above (IsSorted-above s time v above l r) r.earlier);
        blocker = rw r.prefix (is_blocked-blocker _ above blocked);
      }

-- `peekNext` finds nothing only if nothing at all is due, or if the head of the highest priority
-- list with a due entry is held back by an entry of a higher priority, scheduled later than now and
-- before the expected completion of that head.
pub peek_next-none :
    (s : Scheduler) (time : ℕ)
    → IsScheduled s
    → get_tx s (peek_next s time) ≡ none
    → All (NotBefore (suc time)) s.schedule ⊎ ((k : ℕ) × IsHeld s time k)
peek_next-none s time v e = elim (Option-cases (find_ready time s.schedule)) [
  | inl stop ↦ inl (
      All-head_due time s.schedule (AreLanes-IsSorted s.sender_address _ 0 s.schedule v.lanes)
        (find_ready-none time s.schedule stop))
  | inr ((above, l), go) ↦ inr (
    length above,
    held s time v above l (find_ready-Ready time s.schedule above l go) (pick time above l) refl
        (rw (peek_next-go s time above l go) at e),
  )
]
