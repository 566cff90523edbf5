-- ===== src/Scheduler/Cancel.antt =====
-- PrioritizedTxScheduler::cancelById, cancelByRecipient and cancelAll: what they take off and
-- count.
use dream_pico_port.Prelude.{
  ℕ, ◌+◌, sym, subst, ◌∙◌, ◌++◌, Bool-cases, true, false, inl, inr, append-nil, append_assoc, ◌≤◌,
  ◌≡◌, refl, Bool, not, ◌==◌, List, [], ◌∷◌, keep_if, arith,
}
use dream_pico_port.Transmission.{Transmission, recipient_of}
use dream_pico_port.Scheduler.{
  Scheduler, count_if, count_lists, cancel_loop, cancel_lists, cancel_by_id, cancel_by_recipient,
  count_recipients, cancel_all,
}
use dream_pico_port.Scheduler.Lanes.{
  IsScheduled, has_id, selected, AreLanes-selected, AreLanes-clear_all, count_lists-selected,
  count_lists-clear_all,
}

add_zero : (n : ℕ) → n + 0 ≡ n
add_zero n = omega arith

add_assoc : (a b c : ℕ) → a + b + c ≡ a + (b + c)
add_assoc a b c = omega arith

module _ (p : Transmission → Bool) (tx : Transmission) (l : List Transmission) where
  erased_step :
      (before : List Transmission) (n : ℕ)
      → p tx ≡ true
      → (cancel_loop p before (tx ∷ l) n ≡ cancel_loop p before l (n + 1))
        × (keep_if (λ x. not (p x)) (tx ∷ l) ≡ keep_if (λ x. not (p x)) l)
        × (n + count_if p (tx ∷ l) ≡ n + 1 + count_if p l)
  unfolding cancel_loop count_if
  erased_step before n on = ground arith

  kept_step :
      (before : List Transmission) (n : ℕ)
      → p tx ≡ false
      → (cancel_loop p before (tx ∷ l) n ≡ cancel_loop p (before ++ tx ∷ []) l n)
        × (keep_if (λ x. not (p x)) (tx ∷ l) ≡ tx ∷ keep_if (λ x. not (p x)) l)
        × (count_if p (tx ∷ l) ≡ count_if p l)
  unfolding cancel_loop count_if
  kept_step before n off = ground arith

cancel_loop_lem :
    (p : Transmission → Bool) (before l : List Transmission) (n : ℕ)
    → cancel_loop p before l n ≡ (before ++ keep_if (λ tx. not (p tx)) l, n + count_if p l)
unfolding cancel_loop count_if
cancel_loop_lem p before [] n = λ i. (sym (append-nil before) i, sym (add_zero n) i)
cancel_loop_lem p before (tx ∷ l) n = elim (Bool-cases (p tx)) [
  | inl on ↦
      let (loop, list, count) = erased_step p tx l before n on in
      loop ∙ cancel_loop_lem p before l (n + 1) ∙ (λ i. (before ++ sym list i, sym count i))
  | inr off ↦
      let (loop, list, count) = kept_step p tx l before n off in
      loop
      ∙ cancel_loop_lem p (before ++ tx ∷ []) l n
      ∙ (λ i. (append_assoc before (tx ∷ []) (keep_if (λ x. not (p x)) l) i, n + sym count i))
      ∙ (λ i. (before ++ sym list i, n + count_if p (tx ∷ l)))
]

cancel_lists_lem :
    (p : Transmission → Bool) (ls : List (List Transmission)) (n : ℕ)
    → cancel_lists p ls n ≡ (selected (λ tx. not (p tx)) ls, n + count_lists p ls)
unfolding cancel_lists count_lists
cancel_lists_lem p [] n = λ i. ([], sym (add_zero n) i)
cancel_lists_lem p (l ∷ ls) n =
    rw (cancel_loop_lem p [] l n, cancel_lists_lem p ls (n + count_if p l))
      (λ i. (
        keep_if (λ tx. not (p tx)) l ∷ selected (λ tx. not (p tx)) ls,
        add_assoc n (count_if p l) (count_lists p ls) i,
      ))

count_if-rejected :
    (p : Transmission → Bool) (l : List Transmission)
    → count_if p (keep_if (λ tx. not (p tx)) l) ≡ 0
unfolding count_if
count_if-rejected p [] = refl
count_if-rejected p (tx ∷ l) = ground (arith, count_if-rejected p l)

count_lists-rejected :
    (p : Transmission → Bool) (ls : List (List Transmission))
    → count_lists p (selected (λ tx. not (p tx)) ls) ≡ 0
unfolding count_lists
count_lists-rejected p [] = refl
count_lists-rejected p (l ∷ ls) = omega (arith, count_if-rejected p l, count_lists-rejected p ls)

-- Cancelling by recipient returns what `countRecipients` counts, leaves nothing for that recipient,
-- and keeps every entry for another recipient, in its list and in its order.
cancel_by_recipient_lem :
    (s : Scheduler) (addr : ℕ)
    → let r = cancel_by_recipient s addr in
      (r.1 ≡ count_recipients s addr)
      × (count_recipients r.0 addr ≡ 0)
      × (r.0 ≡ record s { schedule = selected (λ tx. not (recipient_of tx == addr)) s.schedule })
unfolding cancel_by_recipient count_recipients
cancel_by_recipient_lem s addr = ground (
  arith,
  cancel_lists_lem (λ tx. recipient_of tx == addr) s.schedule 0,
  count_lists-rejected (λ tx. recipient_of tx == addr) s.schedule,
)

-- On a schedule that keeps the invariant, the loops of cancelling by ID return how many entries had
-- the ID, at most one, and leave exactly the entries with another ID, each in its list and in its order.
pub cancel_by_id_lem :
    (s : Scheduler) (id : ℕ)
    → IsScheduled s
    → let r = cancel_by_id s id in
      (r.1 ≡ count_lists (has_id id) s.schedule)
      × (r.1 ≤ 1)
      × (count_lists (has_id id) r.0.schedule ≡ 0)
      × (r.0 ≡ record s { schedule = selected (λ tx. not (has_id id tx)) s.schedule })
unfolding cancel_by_id
cancel_by_id_lem s id v = ground (
  arith,
  v.unique id,
  cancel_lists_lem (has_id id) s.schedule 0,
  count_lists-rejected (has_id id) s.schedule,
)

cancelled-IsScheduled :
    (s : Scheduler) (p : Transmission → Bool)
    → IsScheduled s
    → IsScheduled (record s { schedule = (cancel_lists p s.schedule 0).0 })
cancelled-IsScheduled s p v =
    let kept : IsScheduled (record s { schedule = selected (λ tx. not (p tx)) s.schedule }) =
      record {
        lanes = AreLanes-selected _ _ (λ tx. not (p tx)) s.schedule 0 v.lanes;
        unique = λ id.
            omega
              (arith, v.unique id, count_lists-selected (has_id id) (λ tx. not (p tx)) s.schedule);
        counter = v.counter;
      } in
    subst (λ (r : List (List Transmission) × ℕ). IsScheduled (record s { schedule = r.0 }))
      (sym (cancel_lists_lem p s.schedule 0)) kept

pub cancel_by_id-IsScheduled :
    (s : Scheduler) (id : ℕ) → IsScheduled s → IsScheduled (cancel_by_id s id).0
unfolding cancel_by_id
cancel_by_id-IsScheduled s id v = cancelled-IsScheduled s (has_id id) v

pub cancel_by_recipient-IsScheduled :
    (s : Scheduler) (addr : ℕ) → IsScheduled s → IsScheduled (cancel_by_recipient s addr).0
unfolding cancel_by_recipient
cancel_by_recipient-IsScheduled s addr v = cancelled-IsScheduled s (λ tx. recipient_of tx == addr) v

pub cancel_all-IsScheduled : (s : Scheduler) → IsScheduled s → IsScheduled (cancel_all s).0
unfolding cancel_all
cancel_all-IsScheduled s v = record {
  lanes = AreLanes-clear_all s.sender_address _ s.schedule 0;
  unique = λ id. omega (arith, count_lists-clear_all (has_id id) s.schedule);
  counter = v.counter;
}
