-- ===== src/Settings/Saves.antt =====
-- src/hal/System/DppSettings.cpp: what the calls of both cores write to the flash.
use dream_pico_port.Prelude.{
  ℕ, ◌+◌, ◌-◌, ◌^◌, ◌≡◌, refl, ap, ◌∙◌, Bool, true, false, not, ◌||◌, ltb, u32, if◌then◌else◌, List,
  [], ◌∷◌, ◌++◌, Option, none, some, Bool-cases, inl, inr, arith,
}
use dream_pico_port.Settings.{DppSettings}
use dream_pico_port.Settings.Layout.{to_memory}
use dream_pico_port.Settings.Requests.{
  Requests, Written, request_save, request_clear, process_save_requests, elapsed, write_settings,
}

-- A call of one of the cores, at a time in microseconds.
pub data Call : Type 0 where
  saves : DppSettings → ℕ → ℕ → Call
  clears : ℕ → ℕ → Call
  processes : ℕ → Call

unfoldable pub do_call : Requests → Call → Requests × List Written
do_call r (saves s delay_ms now) = (request_save r s delay_ms now, [])
do_call r (clears delay_ms now) = (request_clear r delay_ms now, [])
do_call r (processes now) = process_save_requests r now

unfoldable pub do_all : Requests → List Call → Requests × List Written
do_all r [] = (r, [])
do_all r (call ∷ calls) =
    let first = do_call r call in let rest = do_all first.0 calls in (rest.0, first.1 ++ rest.1)

-- Whether settings are processed when at least a delay has passed since a time, in the units of the
-- two, on a clock of 32 bits.
abbrev pub is_due : ℕ → ℕ → Call → Bool
is_due delay start (saves s d now) = false
is_due delay start (clears d now) = false
is_due delay start (processes now) = not (ltb (u32 (now + 2 ^ 32 - start)) delay)

abbrev pub any_due : ℕ → ℕ → List Call → Bool
any_due delay start [] = false
any_due delay start (call ∷ calls) = is_due delay start call || any_due delay start calls

-- One erasure for each call that is due.
abbrev pub erasures : ℕ → ℕ → List Call → List Written
erasures delay start [] = []
erasures delay start (call ∷ calls) =
    let rest = erasures delay start calls in if is_due delay start call then none ∷ rest else rest

abbrev requested : Requests → Bool
requested r = r.save_or_clear_requested

-- A further request changes nothing.
call_ignored :
    (r : Requests) (s : DppSettings) (d now : ℕ) → requested r ≡ true → request_save r s d now ≡ r
unfolding request_save
call_ignored r s d now on = ground arith

clear_ignored : (r : Requests) (d now : ℕ) → requested r ≡ true → request_clear r d now ≡ r
unfolding request_clear
clear_ignored r d now on = ground arith

process_saved : (r : Requests) (now : ℕ) → r.saving ≡ true → process_save_requests r now ≡ (r, [])
unfolding process_save_requests
process_saved r now done = ground arith

process_early :
    (r : Requests) (now : ℕ)
    → ltb (elapsed r now) r.delay_ms ≡ true
    → process_save_requests r now ≡ (r, [])
unfolding process_save_requests
process_early r now early = ground arith

process_due :
    (r : Requests) (now : ℕ) {settings : Option DppSettings}
    → requested r ≡ true
    → r.saving ≡ false
    → ltb (elapsed r now) r.delay_ms ≡ false
    → r.save_requested_settings ≡ settings
    → process_save_requests r now
      ≡ ((write_settings r settings).0, (write_settings r settings).1 ∷ [])
unfolding process_save_requests
process_due r now on ready due same =
    let step : process_save_requests r now ≡ (
      (write_settings r r.save_requested_settings).0,
      (write_settings r r.save_requested_settings).1 ∷ [],
    ) =
      ground (arith, on, ready, due) in
    step ∙ (λ i. ((write_settings r (same i)).0, (write_settings r (same i)).1 ∷ []))

-- Nothing more is written once the settings have been saved.
do_all_saved :
    (r : Requests) (calls : List Call)
    → requested r ≡ true
    → r.saving ≡ true
    → (do_all r calls).1 ≡ []
unfolding do_all do_call
do_all_saved r [] on done = refl
do_all_saved r (saves s d now ∷ calls) on done =
    rw (call_ignored r s d now on) (do_all_saved r calls on done)
do_all_saved r (clears d now ∷ calls) on done =
    rw (clear_ignored r d now on) (do_all_saved r calls on done)
do_all_saved r (processes now ∷ calls) on done =
    rw (process_saved r now done) (do_all_saved r calls on done)

module _ (r : Requests) (on : requested r ≡ true) (ready : r.saving ≡ false) where
  do_all_saving :
      (s : DppSettings) (calls : List Call)
      → r.save_requested_settings ≡ some s
      → (do_all r calls).1
        ≡ (if any_due r.delay_ms r.save_request_time calls then some (to_memory s) ∷ [] else [])
  unfolding do_all do_call write_settings
  do_all_saving s [] settings = refl
  do_all_saving s (saves s' d now ∷ calls) settings =
      rw (call_ignored r s' d now on) (do_all_saving s calls settings)
  do_all_saving s (clears d now ∷ calls) settings =
      rw (clear_ignored r d now on) (do_all_saving s calls settings)
  do_all_saving s (processes now ∷ calls) settings =
      elim (Bool-cases (ltb (elapsed r now) r.delay_ms)) [
        | inl early ↦ rw (process_early r now early, early) (do_all_saving s calls settings)
        | inr due ↦
            let done = do_all_saved (record r { saving = true }) calls on refl in
            rw (process_due r now on ready due settings, due) (ap (◌∷◌ (some (to_memory s))) done)
      ]

  do_all_clearing :
      (calls : List Call)
      → r.save_requested_settings ≡ none
      → (do_all r calls).1 ≡ erasures r.delay_ms r.save_request_time calls
  unfolding do_all do_call write_settings
  do_all_clearing [] settings = refl
  do_all_clearing (saves s' d now ∷ calls) settings =
      rw (call_ignored r s' d now on) (do_all_clearing calls settings)
  do_all_clearing (clears d now ∷ calls) settings =
      rw (clear_ignored r d now on) (do_all_clearing calls settings)
  do_all_clearing (processes now ∷ calls) settings =
      elim (Bool-cases (ltb (elapsed r now) r.delay_ms)) [
        | inl early ↦ rw (process_early r now early, early) (do_all_clearing calls settings)
        | inr due ↦
            rw (process_due r now on ready due settings, due)
              (ap (◌∷◌ none) (do_all_clearing calls settings))
      ]

-- After a request, and while nothing was requested before, what all later calls write to the flash is
-- settled by the request: with settings, they are written once if a call processes requests when the
-- delay has passed since the request, and else nothing is; without settings, the flash is erased once
-- by every such call. Further requests change nothing. The delay and the time are compared as numbers.
pub do_all-request :
    (r : Requests) (s : DppSettings) (delay start : ℕ) (calls : List Call)
    → r.save_or_clear_requested ≡ false
    → r.saving ≡ false
    → ((do_all (request_save r s delay start) calls).1
        ≡ (if any_due delay start calls then some (to_memory s) ∷ [] else []))
      × ((do_all (request_clear r delay start) calls).1 ≡ erasures delay start calls)
unfolding request_save request_clear
do_all-request r s delay start calls off ready =
    let taken = λ (settings : Option DppSettings). record r {
      save_requested_settings = settings;
      delay_ms = delay;
      save_request_time = start;
      save_or_clear_requested = true;
    } in
    (
      rw off (do_all_saving (taken (some s)) refl ready s calls refl),
      rw off (do_all_clearing (taken none) refl ready calls refl),
    )
