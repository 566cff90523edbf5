-- ===== src/WebUsb/Loop.antt =====
-- inc/hal/Usb/WebUsbProcessorBase.hpp: addData and process.
use dream_pico_port.Prelude.{
  ℕ, zero, suc, ◌+◌, ◌-◌, true, false, leb, ltb, if◌then◌else◌, List, [], ◌∷◌, ◌++◌, length, take,
  Option, none, some,
}
use dream_pico_port.WebUsb.{
  WebUsbProcessor, Request, max_buffer_size, try_packet_header_fuel, try_read_packet_header,
  consume_packet_bytes, try_process_completed_packet,
}

-- What does not fit is thrown away.
unfoldable pub add_data : WebUsbProcessor → List ℕ → WebUsbProcessor
add_data s bs =
    let bufsize =
      if ltb max_buffer_size (length s.incoming_buffer + length bs)
      then max_buffer_size - length s.incoming_buffer
      else length bs in
    record s { incoming_buffer = s.incoming_buffer ++ take bufsize bs }

abbrev pub Received : Type 0
Received = WebUsbProcessor × List Request

abbrev pub prepend : List Request → Received → Received
prepend rs r = (r.0, rs ++ r.1)

-- The loop over the bytes that came in, on fuel.
unfoldable pub process_loop : ℕ → WebUsbProcessor → List ℕ → Option Received
process_loop zero s bs = none
process_loop (suc fuel) s [] = some (s, [])
process_loop (suc fuel) s (b ∷ bs) =
    elim (try_read_packet_header (try_packet_header_fuel (b ∷ bs)) s (b ∷ bs)) [
      | none ↦ none
      | some (headed, left, complete) ↦
          let c = consume_packet_bytes headed left in
          let p = try_process_completed_packet c.0 in
          elim complete [
            | false ↦ some (headed, [])
            | true ↦ elim (leb (c.0).rcv_size ((c.0).rcv_idx - 8)) [
              | false ↦ process_loop fuel c.0 c.1
              | true ↦ elim (p.2) [
                | false ↦ some (p.0, p.1)
                | true ↦ elim (process_loop fuel p.0 c.1) [
                  | none ↦ none
                  | some r ↦ some (prepend p.1 r)
                ]
              ]
            ]
          ]
    ]

unfoldable pub process : WebUsbProcessor → Option Received
process s =
    process_loop (suc (length s.incoming_buffer)) (record s { incoming_buffer = [] })
      s.incoming_buffer
