-- ===== src/SettingsCommands/Written.antt =====
-- src/hostLib/webusb_parsers/SettingsWebUsbCommandHandler.cpp and src/hal/System/DppSettings.cpp: what is
-- written to the flash where one core processes commands and the other processes requests to save.
use dream_pico_port.Prelude.{
  ℕ, some_inj, get_elem?, ◌||◌, ◌++◌, All-append, subst, sym, zero, suc, ◌^◌, ◌<◌, ◌≡◌, refl, false,
  not, ltb, if_both, List, [], ◌∷◌, All, Option, none, some, Outcome,
}
use dream_pico_port.SettingsCommands.{Handler, make_handler, process}
use dream_pico_port.Settings.{DppSettings}
use dream_pico_port.Settings.Validity.{IsValid}
use dream_pico_port.Settings.Layout.{SettingsMemory, page_of, read_settings}
use dream_pico_port.Settings.RoundTrip.{IsStorable, HasPage, read_settings-to_memory}
use dream_pico_port.Settings.Requests.{
  Requests, no_requests, Written, process_save_requests, write_settings, save, elapsed,
}
use dream_pico_port.SettingsCommands.Saved.{IsSavable, IsSafe, process-IsSafe}

-- A step of one of the cores, at a time in microseconds.
pub data Event : Type 0 where
  receives : List ℕ → ℕ → Event
  saves : ℕ → Event

pub record State : Type 0 where
  pub handler : Handler
  pub requests : Requests
  pub written : List Written

unfoldable pub step : ℕ → Handler → Requests → Event → State
step num h r (receives payload now) =
    let p = process num h r payload now in
    record { handler = p.handler; requests = p.requests; written = [] }
step num h r (saves now) =
    let p = process_save_requests r now in record { handler = h; requests = p.0; written = p.1 }

unfoldable pub run : ℕ → Handler → Requests → List Event → State
unfolding step
run num h r [] = record { handler = h; requests = r; written = [] }
run num h r (event ∷ events) =
    let first = step num h r event in
    let rest = run num first.handler first.requests events in
    record rest { written = first.written ++ rest.written }

All-get_elem? {ℓ κ} :
    {A : Type ℓ} (P : A → Type κ) (xs : List A) (i : ℕ) {x : A}
    → All P xs
    → get_elem? xs i ≡ some x
    → P x
All-get_elem? P [] i all e = absurd (cc e)
All-get_elem? P (x ∷ xs) zero all e = subst P (some_inj e) all.0
All-get_elem? P (x ∷ xs) (suc i) all e = All-get_elem? P xs i all.1 e

module _ (num : ℕ) (small : num < 2 ^ 31) where
  -- What is written to the flash.
  abbrev IsReadable : Written → Type 0
  IsReadable w =
      Outcome
        (λ (m : SettingsMemory).
          (word : ℕ → ℕ)
          → HasPage word (page_of m)
          → (s : DppSettings) × ((read_settings word ≡ some s) × IsValid num false s))
        w

  write_settings-IsReadable :
      (r : Requests) (o : Option DppSettings)
      → r.save_requested_settings ≡ o
      → Outcome (IsSavable num) o
      → Outcome (IsSavable num) (write_settings r o).0.save_requested_settings
        × IsReadable (write_settings r o).1
  unfolding write_settings save
  write_settings-IsReadable r none e ok = (subst (Outcome (IsSavable num)) (sym e) tt, tt)
  write_settings-IsReadable r (some s) e (valid, storable) = (
    subst (Outcome (IsSavable num)) (sym e) (valid, storable),
    λ word held. (s, (read_settings-to_memory s word held storable, valid)),
  )

  process_save_requests-IsReadable :
      (h : Handler) (r : Requests) (now : ℕ)
      → IsSafe num h r
      → IsSafe num h (process_save_requests r now).0
        × All IsReadable (process_save_requests r now).1
  unfolding process_save_requests
  process_save_requests-IsReadable h r now safe =
      let Q : Requests × List Written → Type 0 = λ x. IsSafe num h x.0 × All IsReadable x.1 in
      let w = write_settings-IsReadable r r.save_requested_settings refl safe.1 in
      if_both Q (r.saving || not r.save_or_clear_requested) (safe, tt)
        (if_both Q (ltb (elapsed r now) r.delay_ms) (safe, tt) ((safe.0, w.0), (w.1, tt)))

  step-IsReadable :
      (h : Handler) (r : Requests) (event : Event)
      → IsSafe num h r
      → IsSafe num (step num h r event).handler (step num h r event).requests
        × All IsReadable (step num h r event).written
  unfolding step
  step-IsReadable h r (receives payload now) safe =
      (process-IsSafe num small h r safe payload now, tt)
  step-IsReadable h r (saves now) safe = process_save_requests-IsReadable h r now safe

  run-IsReadable :
      (h : Handler) (r : Requests) (events : List Event)
      → IsSafe num h r
      → All IsReadable (run num h r events).written
  unfolding run
  run-IsReadable h r [] safe = tt
  run-IsReadable h r (event ∷ events) safe =
      let (next, written) = step-IsReadable h r event safe in
      let first = step num h r event in
      All-append IsReadable first.written _ written
        (run-IsReadable first.handler first.requests events next)

  -- Whatever payloads a web page sends, valid or not, and however they fall between the rounds of the
  -- other core: if the loaded settings fit the structure in flash, then each structure that is written
  -- is read back as settings whose pins exist and are used once and whose players with a bus have modes
  -- that exist, on a chip with less than 2^31 pins.
  pub run-make_handler :
      (loaded : DppSettings) (events : List Event) (i : ℕ) (m : SettingsMemory) (word : ℕ → ℕ)
      → IsStorable loaded
      → get_elem? (run num (make_handler loaded) no_requests events).written i ≡ some (some m)
      → HasPage word (page_of m)
      → (s : DppSettings) × ((read_settings word ≡ some s) × IsValid num false s)
  unfolding make_handler
  run-make_handler loaded events i m word storable e held =
      All-get_elem? IsReadable _ i
        (run-IsReadable (make_handler loaded) no_requests events (storable, tt)) e word held
