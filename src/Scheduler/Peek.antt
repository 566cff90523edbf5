-- ===== src/Scheduler/Peek.antt =====
-- The loops of `peekNext`: which list it stops at, and which entry of that list it takes.
use dream_pico_port.Prelude.{
  ℕ, suc, ◌+◌, ◌≤◌, ◌<◌, ◌≡◌, ◌≢◌, inl, inr, refl, ap, subst, subst₂, true, false, not, ◌&&◌, ltb,
  List, [], ◌∷◌, ◌++◌, length, get_elem?, get_or, take, All, none, some, arith, Bool-cases, ltb→lt,
  Option-cases, some_inj,
}
use dream_pico_port.Transmission.{Transmission, recipient_of, next_completion_time}
use dream_pico_port.Scheduler.{head_before, head_due, find_ready, is_blocked, contains, scan, pick}
use dream_pico_port.Scheduler.Order.{IsSorted}

-- No entry of a list is scheduled before a time.
abbrev pub NotBefore : ℕ → List Transmission → Type 0
NotBefore time = All (λ tx. time ≤ tx.next_tx_time_us)

NotBefore-sorted :
    (time : ℕ) (x : Transmission) (l : List Transmission)
    → time ≤ x.next_tx_time_us
    → All (λ y. x.next_tx_time_us ≤ y.next_tx_time_us) l
    → NotBefore time l
NotBefore-sorted time x [] h a = tt
NotBefore-sorted time x (y ∷ l) h a = (omega arith, NotBefore-sorted time x l h a.1)

-- In a list in time order the head speaks for all.
head_before-NotBefore :
    (time : ℕ) (l : List Transmission) → IsSorted l → head_before time l ≡ false → NotBefore time l
head_before-NotBefore time [] s h = tt
head_before-NotBefore time (x ∷ l) s h =
    let first : time ≤ x.next_tx_time_us = ground arith in
    (first, NotBefore-sorted time x l first s.0)

pub head_due-NotBefore :
    (time : ℕ) (l : List Transmission)
    → IsSorted l
    → head_due time l ≡ false
    → NotBefore (suc time) l
head_due-NotBefore time [] s h = tt
head_due-NotBefore time (x ∷ l) s h =
    let first : suc time ≤ x.next_tx_time_us = ground arith in
    (first, NotBefore-sorted (suc time) x l first s.0)

pub is_blocked-NotBefore :
    (time : ℕ) (above : List (List Transmission))
    → All IsSorted above
    → is_blocked time above ≡ false
    → All (NotBefore time) above
unfolding is_blocked
is_blocked-NotBefore time [] s h = tt
is_blocked-NotBefore time (l ∷ ls) s h = (
  head_before-NotBefore time l s.0 (ground arith),
  is_blocked-NotBefore time ls s.1 (ground arith),
)

-- The first loop stops at the first list with a due head.
pub record Ready (time : ℕ) (ls above : List (List Transmission)) (l : List Transmission)
    : Type 0 where
  pub prefix : take (length above) ls ≡ above
  pub found : get_or ls (length above) [] ≡ l
  pub due : head_due time l ≡ true
  pub earlier : All (λ m. head_due time m ≡ false) above

Ready-here :
    (time : ℕ) (m : List Transmission) (ls : List (List Transmission))
    → head_due time m ≡ true
    → Ready time (m ∷ ls) [] m
Ready-here time m ls h = record { prefix = refl; found = refl; due = h; earlier = tt }

Ready-there :
    (time : ℕ) (m l : List Transmission) (ls above : List (List Transmission))
    → head_due time m ≡ false
    → Ready time ls above l
    → Ready time (m ∷ ls) (m ∷ above) l
Ready-there time m l ls above h r = record {
  prefix = ap (◌∷◌ m) r.prefix;
  found = r.found;
  due = r.due;
  earlier = (h, r.earlier);
}

pub find_ready-Ready :
    (time : ℕ) (ls above : List (List Transmission)) (l : List Transmission)
    → find_ready time ls ≡ some (above, l)
    → Ready time ls above l
unfolding find_ready
find_ready-Ready time [] above l e = cc
find_ready-Ready time (m ∷ ls) above l e = elim (Bool-cases (head_due time m)) [
  | inl hit ↦
      let a : [] ≡ above = ground arith in
      let b : m ≡ l = ground arith in
      subst₂ (λ a l. Ready time (m ∷ ls) a l) a b (Ready-here time m ls hit)
  | inr miss ↦ elim (Option-cases (find_ready time ls)) [
    | inl stop ↦ absurd (ground arith)
    | inr ((above', l'), go) ↦
        let a : m ∷ above' ≡ above = ground arith in
        let b : l' ≡ l = ground arith in
        subst₂ (λ a l. Ready time (m ∷ ls) a l) a b
          (Ready-there time m l' ls above' miss (find_ready-Ready time ls above' l' go))
  ]
]

pub find_ready-none :
    (time : ℕ) (ls : List (List Transmission))
    → find_ready time ls ≡ none
    → All (λ m. head_due time m ≡ false) ls
unfolding find_ready
find_ready-none time [] e = tt
find_ready-none time (m ∷ ls) e =
    let rest : find_ready time ls ≡ none = ground arith in
    (ground arith, find_ready-none time ls rest)

-- An entry of the scanned list that may go out: due, free of anything above it, and the first for
-- its recipient.
pub record Usable (time : ℕ) (above : List (List Transmission)) (recipients : List ℕ)
    (l : List Transmission) (i : ℕ) : Type 0 where
  pub entry : Transmission
  pub at : get_elem? l i ≡ some entry
  pub due : entry.next_tx_time_us ≤ time
  pub free : is_blocked (next_completion_time entry time) above ≡ false
  pub seen : contains (recipient_of entry) recipients ≡ false
  pub first : All (λ x. recipient_of x ≢ recipient_of entry) (take i l)

contains_last :
    (a b : ℕ) (xs : List ℕ) → contains a (xs ++ b ∷ []) ≡ false → (contains a xs ≡ false) × (b ≢ a)
unfolding contains
contains_last a b [] h = ground arith
contains_last a b (x ∷ xs) h = ground (arith, contains_last a b xs)

Usable-later :
    (time : ℕ) (above : List (List Transmission)) (recipients : List ℕ) (pos k : ℕ)
    (tx : Transmission) (l : List Transmission)
    → (i : ℕ) × (k ≡ pos + 1 + i) × Usable time above (recipients ++ recipient_of tx ∷ []) l i
    → (i : ℕ) × (k ≡ pos + i) × Usable time above recipients (tx ∷ l) i
Usable-later time above recipients pos k tx l (i, e, u) =
    let new = contains_last (recipient_of u.entry) (recipient_of tx) recipients u.seen in
    (
      suc i,
      omega arith,
      record {
        entry = u.entry;
        at = u.at;
        due = u.due;
        free = u.free;
        seen = new.0;
        first = (new.1, u.first);
      },
    )

scan-Usable :
    (time : ℕ) (above : List (List Transmission)) (recipients : List ℕ) (pos k : ℕ)
    (l : List Transmission)
    → scan time above recipients pos l ≡ some k
    → (i : ℕ) × (k ≡ pos + i) × Usable time above recipients l i
unfolding scan
scan-Usable time above recipients pos k [] e = cc
scan-Usable time above recipients pos k (tx ∷ l) e =
    elim (Bool-cases (
      not (contains (recipient_of tx) recipients)
      && not (is_blocked (next_completion_time tx time) above))) [
        | inl fits ↦ (
          0,
          ground arith,
          record {
            entry = tx;
            at = refl;
            due = ground arith;
            free = ground arith;
            seen = ground arith;
            first = tt;
          },
        )
        | inr skip ↦
            let next : scan time above (recipients ++ recipient_of tx ∷ []) (pos + 1) l ≡ some k =
              ground arith in
            Usable-later time above recipients pos k tx l
              (scan-Usable time above (recipients ++ recipient_of tx ∷ []) (pos + 1) k l next)
      ]

pub pick-Usable :
    (time : ℕ) (above : List (List Transmission)) (l : List Transmission) (k : ℕ)
    → head_due time l ≡ true
    → pick time above l ≡ some k
    → Usable time above [] l k
unfolding pick is_blocked contains
pick-Usable time [] [] k h e = absurd (cc h)
pick-Usable time [] (x ∷ l) k h e =
    let zeroth : 0 ≡ k = some_inj e in
    subst (Usable time [] [] (x ∷ l)) zeroth
      (record { entry = x; at = refl; due = ground arith; free = refl; seen = refl; first = tt })
pick-Usable time (a ∷ above) l k h e =
    let (i, same, u) = scan-Usable time (a ∷ above) [] 0 k l e in
    let here : i ≡ k = omega arith in subst (Usable time (a ∷ above) [] l) here u

-- With a due head, only something that blocks the head keeps all entries back.
pub pick-none :
    (time : ℕ) (above : List (List Transmission)) (l : List Transmission)
    → head_due time l ≡ true
    → pick time above l ≡ none
    → (head : Transmission) × (rest : List Transmission) × (l ≡ head ∷ rest)
      × (head.next_tx_time_us ≤ time)
      × (is_blocked (next_completion_time head time) above ≡ true)
unfolding pick contains
pick-none time [] l h e = absurd (cc e)
pick-none time (a ∷ above) [] h e = absurd (cc h)
pick-none time (a ∷ above) (x ∷ l) h e = (x, l, refl, ground arith, head_blocked)
  where
    head_blocked : is_blocked (next_completion_time x time) (a ∷ above) ≡ true
    head_blocked = ground arith

-- A blocked entry has a head before its completion in some list above.
pub is_blocked-blocker :
    (t : ℕ) (ls : List (List Transmission))
    → is_blocked t ls ≡ true
    → (j : ℕ) × (x : Transmission) × (xs : List Transmission) × (get_or ls j [] ≡ x ∷ xs)
      × (x.next_tx_time_us < t)
unfolding is_blocked
is_blocked-blocker t [] e = absurd (cc e)
is_blocked-blocker t ([] ∷ ls) e =
    let (j, x, xs, at, before) = is_blocked-blocker t ls (ground arith) in
    (suc j, x, xs, at, before)
is_blocked-blocker t ((y ∷ ys) ∷ ls) e = elim (Bool-cases (ltb y.next_tx_time_us t)) [
  | inl here ↦ (0, y, ys, refl, ltb→lt _ _ here)
  | inr not_here ↦
      let (j, x, xs, at, before) = is_blocked-blocker t ls (ground arith) in
      (suc j, x, xs, at, before)
]
