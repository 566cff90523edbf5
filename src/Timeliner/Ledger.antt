-- ===== src/Timeliner/Ledger.antt =====
-- TransmissionTimeliner's readTask and writeTask: what is sent and what is reported back, over a
-- history of the two.
use dream_pico_port.Prelude.{
  ℕ, ◌≡◌, ◌⊎◌, inl, inr, refl, sym, ap, subst, ◌∙◌, Bool, true, false, List, [], ◌∷◌, ◌++◌, Option,
  none, some, arith, append_assoc, append-nil, if◌then◌else◌, Bool-cases, Option-cases, some_inj,
}
use dream_pico_port.Transmission.{Transmission}
use dream_pico_port.Scheduler.{ScheduleItem, peek_next, pop_item}
use dream_pico_port.Timeliner.{
  Bus, BusStatus, ends, Timeliner, read_status, read_task, after_write, offer, write_task,
}

pub data Task : Type 0 where
  reads writes : ℕ → Task

abbrev pub entries : Option Transmission → List Transmission
entries none = []
entries (some tx) = tx ∷ []

module _ (bus : Bus) where
  open bus use {State, process_events, is_busy, write, accepted_is_busy, stays_busy}

  pub record Entry : Type 0 where
    pub timeliner : Timeliner bus
    pub sent : List Transmission
    pub reported : List Transmission

  abbrev write_entry : Option (Timeliner bus × Option Transmission) → Option Entry
  write_entry none = none
  write_entry (some (t, tx)) = some (record { timeliner = t; sent = entries tx; reported = [] })

  unfoldable pub perform : Timeliner bus → Task → Option Entry
  perform t (reads time) =
      let (t', st) = read_task bus t time in
      some (record { timeliner = t'; sent = []; reported = entries st.transmission })
  perform t (writes time) = write_entry (write_task bus t time)

  -- The logs of a history; `none` is a failed assertion.
  unfoldable pub perform_all : Timeliner bus → List Task → Option Entry
  unfolding perform
  perform_all t [] = some (record { timeliner = t; sent = []; reported = [] })
  perform_all t (task ∷ tasks) = elim (perform t task) [
    | none ↦ none
    | some e ↦ elim (perform_all e.timeliner tasks) [
      | none ↦ none
      | some f ↦ some (record {
        timeliner = f.timeliner;
        sent = e.sent ++ f.sent;
        reported = e.reported ++ f.reported;
      })
    ]
  ]

  abbrev pub pending : Timeliner bus → List Transmission
  pending t = entries t.current_tx

  -- While a transmission is out, the bus is busy.
  abbrev pub IsWatched : Timeliner bus → Type 0
  IsWatched t = (t.current_tx ≡ none) ⊎ (is_busy t.bus_state ≡ true)

  -- One task keeps the account.
  abbrev Balanced : Timeliner bus → Entry → Type 0
  Balanced t e = (pending t ++ e.sent ≡ e.reported ++ pending e.timeliner) × IsWatched e.timeliner

  read_status-Balanced :
      (t : Timeliner bus) (st : BusStatus)
      → ((ends st.phase ≡ false) → IsWatched t)
      → let r = read_status bus t st in
        Balanced t (record { timeliner = r.0; sent = []; reported = entries r.1.transmission })
  unfolding read_status
  read_status-Balanced t st w = ground (arith, w, append-nil (pending t))

  reads-Balanced :
      (t : Timeliner bus) (time : ℕ) (e : Entry)
      → IsWatched t
      → perform t (reads time) ≡ some e
      → Balanced t e
  unfolding perform read_task
  reads-Balanced t time e w h =
      let (b, st) = process_events t.bus_state time in
      let kept : (ends (process_events t.bus_state time).1.phase ≡ false)
          → IsWatched (record t { bus_state = (process_events t.bus_state time).0 }) =
        λ going. elim w [
          | inl nothing ↦ inl nothing
          | inr busy ↦ inr (stays_busy t.bus_state time busy going)
        ] in
      subst (Balanced t) (some_inj h) (
        read_status-Balanced (record t { bus_state = (process_events t.bus_state time).0 })
          (process_events t.bus_state time).1 kept)

  after_write-Balanced :
      (t : Timeliner bus) (item : ScheduleItem) (written : State × Bool) (e : Entry)
      → t.current_tx ≡ none
      → (written.1 ≡ true → is_busy written.0 ≡ true)
      → write_entry (after_write bus t item written) ≡ some e
      → Balanced t e
  unfolding after_write
  after_write-Balanced t item (b, true) e idle busy h =
      elim (Option-cases (pop_item t.schedule item)) [
        | inl fails ↦ let never : none ≡ some e = rw (fails, after_write) at h in absurd (cc never)
        | inr (r, pops) ↦
            subst (Balanced t) (some_inj (rw (pops, after_write) at h))
              (ground (arith, idle, append-nil (entries r.tx)), inr (busy refl))
      ]
  after_write-Balanced t item (b, false) e idle busy h =
      subst (Balanced t) (some_inj h) (append-nil (pending t), inl idle)

  offer-Balanced :
      (t : Timeliner bus) (item : ScheduleItem) (found : Option Transmission) (e : Entry)
      → t.current_tx ≡ none
      → write_entry (offer bus t item found) ≡ some e
      → Balanced t e
  unfolding offer
  offer-Balanced t item none e idle h =
      subst (Balanced t) (some_inj h) (append-nil (pending t), inl idle)
  offer-Balanced t item (some tx) e idle h =
      after_write-Balanced t item _ e idle (accepted_is_busy t.bus_state _ _ _ _) h

  writes-Balanced :
      (t : Timeliner bus) (time : ℕ) (e : Entry)
      → IsWatched t
      → perform t (writes time) ≡ some e
      → Balanced t e
  unfolding perform write_task
  writes-Balanced t time e w h = elim (Bool-cases (is_busy t.bus_state)) [
    | inl busy ↦
        subst (Balanced t) (some_inj (rw (busy, if◌then◌else◌) at h)) (append-nil (pending t), w)
    | inr free ↦
        offer-Balanced t (peek_next t.schedule time) _ e (idle_if_free w free)
          (rw (free, if◌then◌else◌) at h)
  ]
    where
      idle_if_free : IsWatched t → is_busy t.bus_state ≡ false → t.current_tx ≡ none
      idle_if_free (inl idle) free = idle
      idle_if_free (inr busy) free = absurd (cc busy)

  perform-Balanced :
      (t : Timeliner bus) (task : Task) (e : Entry)
      → IsWatched t
      → perform t task ≡ some e
      → Balanced t e
  perform-Balanced t (reads time) e w h = reads-Balanced t time e w h
  perform-Balanced t (writes time) e w h = writes-Balanced t time e w h

  -- Over any history of the two tasks that fails no assertion, what was handed out as sent is
  -- reported back, in order and once each, but for the transmission that is still out; this starts
  -- from a timeliner that has a transmission out only while the bus is busy, and ends in one.
  pub perform_all-Balanced :
      (t : Timeliner bus) (tasks : List Task) (e : Entry)
      → IsWatched t
      → perform_all t tasks ≡ some e
      → (pending t ++ e.sent ≡ e.reported ++ pending e.timeliner) × IsWatched e.timeliner
  unfolding perform_all
  perform_all-Balanced t [] e w h = subst (Balanced t) (some_inj h) (append-nil (pending t), w)
  perform_all-Balanced t (task ∷ tasks) e w h = elim (Option-cases (perform t task)) [
    | inl fails ↦ let never : none ≡ some e = rw (fails, perform_all) at h in absurd (cc never)
    | inr (e₁, goes) ↦ elim (Option-cases (perform_all e₁.timeliner tasks)) [
      | inl fails ↦
          let never : none ≡ some e = rw (goes, fails, perform_all) at h in absurd (cc never)
      | inr (e₂, rest) ↦
          let b = perform-Balanced t task e₁ w goes in
          let c = perform_all-Balanced e₁.timeliner tasks e₂ b.1 rest in
          subst (Balanced t) (some_inj (rw (goes, rest, perform_all) at h))
            (chain (pending t) e₁.sent e₂.sent e₁.reported e₂.reported _ _ b.0 c.0, c.1)
    ]
  ]
    where
      chain :
          (p s₁ s₂ r₁ r₂ m q : List Transmission)
          → p ++ s₁ ≡ r₁ ++ m
          → m ++ s₂ ≡ r₂ ++ q
          → p ++ (s₁ ++ s₂) ≡ (r₁ ++ r₂) ++ q
      chain p s₁ s₂ r₁ r₂ m q e f =
          sym (append_assoc p s₁ s₂)
          ∙ ap (λ l. l ++ s₂) e
          ∙ append_assoc r₁ m s₂
          ∙ ap (λ l. r₁ ++ l) f
          ∙ sym (append_assoc r₁ r₂ q)
