-- ===== src/WebUsb/Stray.antt =====
-- WebUsbProcessorBase's parseMagic: a packet behind the start of a magic value.
use dream_pico_port.Prelude.{ℕ, ◌≤◌, ◌<◌, ◌≡◌, sym, ap, ◌∙◌, List, [], ◌++◌, take, some, arith}
use dream_pico_port.WebUsb.{WebUsbProcessor, reset, webusb_magic_value}
use dream_pico_port.WebUsb.Loop.{process}
use dream_pico_port.WebUsb.Reception.{IsReceiving-low}
use dream_pico_port.WebUsb.Headers.{IsIdle, feed-stray}
use dream_pico_port.WebUsb.Equivalence.{process-feed}

-- Between packets, a stray start of a magic value, of one to three of its bytes, hides the magic value
-- just behind it: `process` does to what follows, a packet's sizes and body, what it does between
-- packets, with no magic value before them.
pub process-stray :
    (s : WebUsbProcessor) (k : ℕ) (rest : List ℕ)
    → IsIdle s
    → 1 ≤ k
    → k < 4
    → process
        (record s { incoming_buffer = take k webusb_magic_value ++ (webusb_magic_value ++ rest) })
      ≡ process (record (reset s) { incoming_buffer = rest })
unfolding reset
process-stray s k rest idle least most =
    let stray = record s {
      incoming_buffer = take k webusb_magic_value ++ (webusb_magic_value ++ rest);
    } in
    let waiting : WebUsbProcessor = record s { incoming_buffer = [] } in
    let plain : WebUsbProcessor = record (reset s) { incoming_buffer = rest } in
    process-feed stray (IsReceiving-low stray (omega (arith, idle.idle_idx)))
    ∙ ap some (
        feed-stray waiting k rest
          (record { idle_idx = idle.idle_idx; four_sizes = idle.four_sizes }) least most)
    ∙ sym (process-feed plain (IsReceiving-low plain (omega arith)))
