-- ===== src/Scheduler/History.antt =====
-- Histories of calls on one PrioritizedTxScheduler, and its invariant.
use dream_pico_port.Prelude.{
  ℕ, ◌≡◌, refl, List, [], ◌∷◌, Option, none, some, Option-cases, some_inj, inl, inr, ap, subst,
}
use dream_pico_port.Transmission.{TransmissionProperties, TransmitterRef}
use dream_pico_port.Scheduler.{
  Scheduler, Popped, init, add, peek_next, get_tx, pop_item, cancel_by_id, cancel_by_recipient,
  cancel_all,
}
use dream_pico_port.Scheduler.Lanes.{IsScheduled}
use dream_pico_port.Scheduler.Invariant.{init-IsScheduled, add-IsScheduled}
use dream_pico_port.Scheduler.Pop.{pop_item_lem, popped_scheduler, popped_scheduler-IsScheduled}
use dream_pico_port.Scheduler.Cancel.{
  cancel_by_id-IsScheduled, cancel_by_recipient-IsScheduled, cancel_all-IsScheduled,
}

-- A call on the scheduler; `pops` is a peek at a time, and a pop of what it found.
pub data Call : Type 0 where
  adds : TransmissionProperties → TransmitterRef → Call
  pops cancels_id cancels_recipient : ℕ → Call
  cancels_all : Call

abbrev added : Option (Scheduler × ℕ) → Option Scheduler
added none = none
added (some (s, id)) = some s

abbrev popped : Option Popped → Option Scheduler
popped none = none
popped (some r) = some r.scheduler

-- `none` is a failed assertion, at which the program ends.
unfoldable pub step : Scheduler → Call → Option Scheduler
step s (adds p t) = added (add s p t)
step s (pops time) = popped (pop_item s (peek_next s time))
step s (cancels_id id) = some (cancel_by_id s id).0
step s (cancels_recipient addr) = some (cancel_by_recipient s addr).0
step s cancels_all = some (cancel_all s).0

unfoldable pub run : Scheduler → List Call → Option Scheduler
unfolding step
run s [] = some s
run s (c ∷ cs) = elim (step s c) [ none ↦ none | some s' ↦ run s' cs ]

pop_none :
    (s : Scheduler) (time : ℕ) → get_tx s (peek_next s time) ≡ none → step s (pops time) ≡ some s
unfolding step pop_item
pop_none s time e = rw (e, pop_item)

-- On a schedule that keeps the invariant, a peek at any time and a pop of what it found fail no
-- assertion, and keep the invariant.
pub step-pops :
    (s : Scheduler) (time : ℕ)
    → IsScheduled s
    → (s' : Scheduler) × (step s (pops time) ≡ some s') × IsScheduled s'
step-pops s time v = elim (Option-cases (get_tx s (peek_next s time))) [
  | inl e ↦ (s, pop_none s time e, v)
  | inr (tx, e) ↦ (
    popped_scheduler s (peek_next s time) tx v e,
    unfold step in ap popped (pop_item_lem s (peek_next s time) tx v e),
    popped_scheduler-IsScheduled s (peek_next s time) tx v e,
  )
]

added-IsScheduled :
    (s s' : Scheduler) (p : TransmissionProperties) (t : TransmitterRef)
    (r : Option (Scheduler × ℕ))
    → add s p t ≡ r
    → added r ≡ some s'
    → IsScheduled s
    → IsScheduled s'
added-IsScheduled s s' p t none e h v = cc
added-IsScheduled s s' p t (some (s₁, id)) e h v =
    let same : s₁ ≡ s' = cc in subst IsScheduled same (add-IsScheduled s s₁ p t id v e)

pub step-IsScheduled :
    (s s' : Scheduler) (c : Call) → step s c ≡ some s' → IsScheduled s → IsScheduled s'
unfolding step
step-IsScheduled s s' (adds p t) e v = added-IsScheduled s s' p t (add s p t) refl e v
step-IsScheduled s s' (pops time) e v =
    let (s₁, e₁, v₁) = step-pops s time v in let same : s₁ ≡ s' = cc in subst IsScheduled same v₁
step-IsScheduled s s' (cancels_id id) e v =
    subst IsScheduled (some_inj e) (cancel_by_id-IsScheduled s id v)
step-IsScheduled s s' (cancels_recipient addr) e v =
    subst IsScheduled (some_inj e) (cancel_by_recipient-IsScheduled s addr v)
step-IsScheduled s s' cancels_all e v = subst IsScheduled (some_inj e) (cancel_all-IsScheduled s v)

run-IsScheduled :
    (s s' : Scheduler) (cs : List Call) → run s cs ≡ some s' → IsScheduled s → IsScheduled s'
unfolding run
run-IsScheduled s s' [] e v = subst IsScheduled (some_inj e) v
run-IsScheduled s s' (c ∷ cs) e v = elim (Option-cases (step s c)) [
  | inl fails ↦ let never : none ≡ some s' = rw (fails, run) at e in cc never
  | inr (s₁, goes) ↦ run-IsScheduled s₁ s' cs (rw (goes, run) at e) (step-IsScheduled s s₁ c goes v)
]

-- After any history of calls on a constructed scheduler that fails no assertion, every list is in
-- time order, every entry stands in the list of its priority, goes out under the scheduler's
-- address and has an ID given before, and no two entries have the same ID.
pub run-init-IsScheduled :
    (addr max : ℕ) (s : Scheduler) (cs : List Call)
    → run (init addr max) cs ≡ some s
    → IsScheduled s
run-init-IsScheduled addr max s cs e = run-IsScheduled _ s cs e (init-IsScheduled addr max)
