-- ===== src/SettingsCommands/Saved.antt =====
-- src/hostLib/webusb_parsers/SettingsWebUsbCommandHandler.cpp: what commands have saved.
use dream_pico_port.Prelude.{
  ℕ, ap, subst, sym, zero, suc, ◌^◌, ◌<◌, ◌≡◌, refl, ◌∙◌, Bool, true, false, not, ltb, leb, ◌==◌,
  if◌then◌else◌, if_both, List, [], ◌∷◌, length, All, get_or, set, length-set, Option, none, some,
  Outcome, arith,
}
use dream_pico_port.SettingsCommands.{
  Processed, Handler, Command, get_loaded, get_local, set_cdc, set_msc, set_announce, set_mode,
  set_io, set_usb_led, set_simple_led, set_dpad_type, check_settings, save_settings, get_defaults,
  clear_settings, set_flag, set_player_mode, set_player_io, set_led, set_dpad, validate,
  validate_and_save, perform, perform_byte, process, command_of, entry_or, num_dpad_types,
  save_delay_ms,
}
use dream_pico_port.SettingsCommands.Packing.{read_word}
use dream_pico_port.Settings.{
  DppSettings, Player, is_gpio_valid, num_players, num_player_detection_modes,
}
use dream_pico_port.Settings.Validity.{IsValid}
use dream_pico_port.Settings.Checked.{make_valid-IsValid}
use dream_pico_port.Settings.RoundTrip.{IsPlayer, IsStorable}
use dream_pico_port.Settings.Requests.{Requests, request_write, request_save, request_clear}
use dream_pico_port.SettingsCommands.Storable.{make_valid-IsStorable}

-- What holds of both branches, each under its test.
if_either {ℓ κ} :
    {A : Type ℓ} (Q : A → Type κ) (test : Bool) {this other : A}
    → (test ≡ true → Q this)
    → (test ≡ false → Q other)
    → Q (if test then this else other)
if_either Q true here there = here refl
if_either Q false here there = there refl

All-set :
    (ps : List Player) (i : ℕ) (p : Player)
    → All IsPlayer ps
    → IsPlayer p
    → All IsPlayer (set ps i p)
All-set [] i p hs h = tt
All-set (q ∷ ps) zero p (k, hs) h = (h, hs)
All-set (q ∷ ps) (suc i) p (k, hs) h = (k, All-set ps i p hs h)

entry_or-IsPlayer : (ps : List Player) (i : ℕ) → All IsPlayer ps → IsPlayer (entry_or ps i)
entry_or-IsPlayer [] i hs = omega arith
entry_or-IsPlayer (q ∷ ps) zero (k, hs) = k
entry_or-IsPlayer (q ∷ ps) (suc i) (k, hs) = entry_or-IsPlayer ps i hs

IsStorable-alike :
    (s t : DppSettings)
    → t.players ≡ s.players
    → t.dpad_type ≡ s.dpad_type
    → IsStorable s
    → IsStorable t
IsStorable-alike s t players dpad h = record {
  four = ap length players ∙ h.four;
  fields = subst (All IsPlayer) (sym players) h.fields;
  dpad = subst (λ d. d < 256) (sym dpad) h.dpad;
}

-- What is fit to be saved.
abbrev pub IsSavable : ℕ → DppSettings → Type 0
IsSavable num s = IsValid num false s × IsStorable s

abbrev pub IsSafe : ℕ → Handler → Requests → Type 0
IsSafe num h r = IsStorable h.settings × Outcome (IsSavable num) r.save_requested_settings

abbrev pub IsSafeAfter : ℕ → Processed → Type 0
IsSafeAfter num p = IsSafe num p.handler p.requests

with_player :
    (s : DppSettings) (i : ℕ) (p : Player)
    → IsStorable s
    → IsPlayer p
    → IsStorable (record s { players = set s.players i p })
with_player s i p h small = record {
  four = length-set s.players i p ∙ h.four;
  fields = All-set s.players i p h.fields small;
  dpad = h.dpad;
}

request_write-Outcome :
    (Q : DppSettings → Type 0) (r : Requests) (s : Option DppSettings) (delay now : ℕ)
    → Outcome Q r.save_requested_settings
    → Outcome Q s
    → Outcome Q (request_write r s delay now).save_requested_settings
unfolding request_write
request_write-Outcome Q r s delay now old new =
    if_both (λ (r : Requests). Outcome Q r.save_requested_settings) (not r.save_or_clear_requested)
      new old

module _ (num : ℕ) (small : num < 2 ^ 31) where
  module _ (h : Handler) (r : Requests) (safe : IsSafe num h r) where
    set_flag-IsSafe :
        (with_flag : Bool → DppSettings) (bytes : List ℕ)
        → ((b : Bool) → IsStorable (with_flag b))
        → IsSafeAfter num (set_flag num h r with_flag bytes)
    unfolding set_flag
    set_flag-IsSafe with_flag bytes k =
        if_both (IsSafeAfter num) (ltb (length bytes) 1) safe
          (k (not (get_or bytes 0 0 == 0)), safe.1)

    set_player_mode-IsSafe : (bytes : List ℕ) → IsSafeAfter num (set_player_mode num h r bytes)
    unfolding set_player_mode
    set_player_mode-IsSafe bytes =
        let p = entry_or h.settings.players (get_or bytes 0 0) in
        if_both (IsSafeAfter num) (ltb (length bytes) 2) safe (
          if_both (IsSafeAfter num) (leb num_players (get_or bytes 0 0)) safe (
            if_either (IsSafeAfter num) (leb num_player_detection_modes (get_or bytes 1 0))
              (λ _. safe)
              (λ low.
                let mode : get_or bytes 1 0 < 256 = ground (arith, low) in
                (
                  with_player h.settings (get_or bytes 0 0)
                      (record p { detection_mode = get_or bytes 1 0 }) safe.0 mode,
                  safe.1,
                ))))

    set_player_io-IsSafe : (bytes : List ℕ) → IsSafeAfter num (set_player_io num h r bytes)
    unfolding set_player_io
    set_player_io-IsSafe bytes =
        let i = get_or bytes 0 0 in
        let kept = entry_or-IsPlayer h.settings.players i safe.0.fields in
        let Q = IsSafeAfter num in
        if_both Q (ltb (length bytes) 10) safe (
          if_both Q (leb num_players i) safe (
            if_both Q (not (is_gpio_valid num (read_word bytes 1))) safe (
              if_both Q (not (is_gpio_valid num (read_word bytes 5))) safe
                (with_player h.settings i _ safe.0 kept, safe.1))))

    set_led-IsSafe :
        (with_led : ℕ → DppSettings) (bytes : List ℕ)
        → ((io : ℕ) → IsStorable (with_led io))
        → IsSafeAfter num (set_led num h r with_led bytes)
    unfolding set_led
    set_led-IsSafe with_led bytes k =
        let Q = IsSafeAfter num in
        if_both Q (ltb (length bytes) 4) safe (
          if_both Q (not (is_gpio_valid num (read_word bytes 0))) safe
            (k (read_word bytes 0), safe.1))

    set_dpad-IsSafe : (bytes : List ℕ) → IsSafeAfter num (set_dpad num h r bytes)
    unfolding set_dpad
    set_dpad-IsSafe bytes =
        let s = safe.0 in
        if_both (IsSafeAfter num) (ltb (length bytes) 1) safe (
          if_either (IsSafeAfter num) (leb num_dpad_types (get_or bytes 0 0)) (λ _. safe)
            (λ low.
              (record { four = s.four; fields = s.fields; dpad = ground (arith, low) }, safe.1)))

    perform-IsSafe :
        (c : Command) (bytes : List ℕ) (now : ℕ) → IsSafeAfter num (perform num h r c bytes now)
    unfolding perform validate validate_and_save request_save request_clear
    perform-IsSafe get_loaded bytes now = safe
    perform-IsSafe get_local bytes now = safe
    perform-IsSafe set_cdc bytes now =
        set_flag-IsSafe (λ b. record (h.settings) { cdc_en = b }) bytes
          (λ b. IsStorable-alike h.settings _ refl refl safe.0)
    perform-IsSafe set_msc bytes now =
        set_flag-IsSafe (λ b. record (h.settings) { msc_en = b }) bytes
          (λ b. IsStorable-alike h.settings _ refl refl safe.0)
    perform-IsSafe set_announce bytes now =
        set_flag-IsSafe (λ b. record (h.settings) { web_usb_announce_en = b }) bytes
          (λ b. IsStorable-alike h.settings _ refl refl safe.0)
    perform-IsSafe set_mode bytes now = set_player_mode-IsSafe bytes
    perform-IsSafe set_io bytes now = set_player_io-IsSafe bytes
    perform-IsSafe set_usb_led bytes now =
        set_led-IsSafe (λ io. record (h.settings) { usb_led_gpio = io }) bytes
          (λ io. IsStorable-alike h.settings _ refl refl safe.0)
    perform-IsSafe set_simple_led bytes now =
        set_led-IsSafe (λ io. record (h.settings) { simple_usb_led_gpio = io }) bytes
          (λ io. IsStorable-alike h.settings _ refl refl safe.0)
    perform-IsSafe set_dpad_type bytes now = set_dpad-IsSafe bytes
    perform-IsSafe check_settings bytes now = (make_valid-IsStorable num h.settings safe.0, safe.1)
    perform-IsSafe save_settings bytes now =
        let valid = make_valid-IsStorable num h.settings safe.0 in
        (
          valid,
          request_write-Outcome (IsSavable num) r _ save_delay_ms now safe.1
              (make_valid-IsValid num small false h.settings, valid),
        )
    perform-IsSafe get_defaults bytes now = safe
    perform-IsSafe clear_settings bytes now =
        (safe.0, request_write-Outcome (IsSavable num) r none save_delay_ms now safe.1 tt)

    perform_byte-IsSafe :
        (c : Option Command) (bytes : List ℕ) (now : ℕ)
        → IsSafeAfter num (perform_byte num h r c bytes now)
    unfolding perform_byte
    perform_byte-IsSafe none bytes now = safe
    perform_byte-IsSafe (some c) bytes now = perform-IsSafe c bytes now

    pub process-IsSafe : (bytes : List ℕ) (now : ℕ) → IsSafeAfter num (process num h r bytes now)
    unfolding process
    process-IsSafe [] now = safe
    process-IsSafe (cmd ∷ bytes) now = perform_byte-IsSafe (command_of cmd) bytes now
