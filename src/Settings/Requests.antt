-- ===== src/Settings/Requests.antt =====
-- src/hal/System/DppSettings.cpp: requests to save or clear the settings, and processSaveRequests.
-- One core makes requests and the other processes them; the mutex makes each of them one step. A
-- write to the flash is followed by a restart of the chip; the model goes on all the same.
use dream_pico_port.Prelude.{
  ℕ, ◌+◌, ◌-◌, ◌^◌, Bool, true, false, not, ◌||◌, ltb, u32, if◌then◌else◌, List, [], ◌∷◌, Option,
  none, some,
}
use dream_pico_port.Settings.{DppSettings}
use dream_pico_port.Settings.Layout.{SettingsMemory, to_memory}

-- The static members that requests use.
pub record Requests : Type 0 where
  pub save_or_clear_requested : Bool
  pub delay_ms : ℕ
  pub save_request_time : ℕ
  pub save_requested_settings : Option DppSettings
  pub saving : Bool

abbrev pub no_requests : Requests
no_requests = record {
  save_or_clear_requested = false;
  delay_ms = 0;
  save_request_time = 0;
  save_requested_settings = none;
  saving = false;
}

-- requestSave and requestClear, with the time in microseconds.
unfoldable pub request_write : Requests → Option DppSettings → ℕ → ℕ → Requests
request_write r settings delay_ms now =
    if not r.save_or_clear_requested
    then record r {
      save_requested_settings = settings;
      delay_ms = delay_ms;
      save_request_time = now;
      save_or_clear_requested = true;
    }
    else r

unfoldable pub request_save : Requests → DppSettings → ℕ → ℕ → Requests
unfolding request_write
request_save r settings = request_write r (some settings)

unfoldable pub request_clear : Requests → ℕ → ℕ → Requests
unfolding request_write
request_clear r = request_write r none

-- What save_settings_memory gets to do: erase the sector and program the structure, or erase it only.
abbrev pub Written : Type 0
Written = Option SettingsMemory

unfoldable pub save : Requests → DppSettings → Requests × Written
save r s = (record r { saving = true }, some (to_memory s))

unfoldable pub write_settings : Requests → Option DppSettings → Requests × Written
unfolding save
write_settings r (some s) = save r s
write_settings r none = (r, none)

-- `time_us_32() - sSaveRequestTime` as a uint32_t
abbrev pub elapsed : Requests → ℕ → ℕ
elapsed r now = u32 (now + 2 ^ 32 - r.save_request_time)

unfoldable pub process_save_requests : Requests → ℕ → Requests × List Written
unfolding write_settings
process_save_requests r now =
    if r.saving || not r.save_or_clear_requested
    then (r, [])
    else if ltb (elapsed r now) r.delay_ms
    then (r, [])
    else let w = write_settings r r.save_requested_settings in (w.0, w.1 ∷ [])
