-- ===== src/WebUsb/Tests.antt =====
-- A processor that has just started, and messages that it sends and receives.
use dream_pico_port.Prelude.{
  ◌≡◌, take, refl, List, [], ◌∷◌, ◌++◌, map, replicate, none, some, arith,
}
use dream_pico_port.WebUsb.{WebUsbProcessor, Request, reset, webusb_magic_value}
use dream_pico_port.WebUsb.Loop.{add_data, process}
use dream_pico_port.WebUsb.Sending.{flush_outgoing}
use dream_pico_port.WebUsb.Automaton.{feed}
use dream_pico_port.WebUsb.Equivalence.{process-feed}
use dream_pico_port.WebUsb.Portions.{process_portions}
use dream_pico_port.WebUsb.Decoding.{last, more}
use dream_pico_port.WebUsb.Headers.{IsIdle}
use dream_pico_port.WebUsb.Stray.{process-stray}
use dream_pico_port.WebUsb.Reception.{IsReceiving}
use dream_pico_port.WebUsb.Encoding.{Message, request_of, send_all, bytes_of, exchange_lem}
use dream_pico_port.WebUsb.Queues.{data_added, packet_sent, happen, IsBounded, happen-IsBounded}

abbrev started : WebUsbProcessor
started = record {
  rcv_idx = 0;
  size_bytes = 0 ∷ 0 ∷ 0 ∷ 0 ∷ [];
  rcv_size = 0;
  incoming_buffer = [];
  buffer = [];
  last_send_size = none;
  outgoing_queue = [];
}

abbrev messages : List Message
messages =
    record { to = 0x81 ∷ 0x02 ∷ []; command = 0x30; pieces = (0xDB ∷ 0x8B ∷ []) ∷ (1 ∷ []) ∷ [] }
    ∷ record { to = 5 ∷ []; command = 0; pieces = [] }
    ∷ []

abbrev receiver : WebUsbProcessor
receiver = record started {
  incoming_buffer = bytes_of (flush_outgoing (send_all started messages)).1;
}

exchange_example :
    (t : WebUsbProcessor) × IsIdle t × (process receiver ≡ some (t, map request_of messages))
exchange_example =
    exchange_lem started receiver messages
      (
        record {
          address_ok = more 8 0x81 (2 ∷ []) (omega arith) (omega arith) (last 7 2 (omega arith));
          fits = omega arith;
        },
        (record { address_ok = last 8 5 (omega arith); fits = omega arith }, tt),
      )
      refl (omega arith) (record { idle_idx = refl; four_sizes = refl }) refl

-- A packet that began in an earlier portion.
abbrev halfway : WebUsbProcessor
halfway = record started {
  rcv_idx = 9;
  size_bytes = 0 ∷ 4 ∷ 0xFF ∷ 0xFB ∷ [];
  rcv_size = 4;
  incoming_buffer = 7 ∷ 0 ∷ 0 ∷ 0xDB ∷ [];
  buffer = 5 ∷ [];
}

process-feed_example :
    process halfway ≡ some (feed (record halfway { incoming_buffer = [] }) halfway.incoming_buffer)
process-feed_example =
    process-feed halfway
      (record { least = λ h. omega arith; stored = λ h. refl; partial = λ h. omega arith })

happen-IsBounded_example :
    IsBounded (happen started (data_added (replicate 1200 7) ∷ packet_sent (5 ∷ []) 0 [] ∷ []))
happen-IsBounded_example =
    happen-IsBounded (data_added (replicate 1200 7) ∷ packet_sent (5 ∷ []) 0 [] ∷ []) started
      (record { incoming = omega arith; outgoing = omega arith })

abbrev busy : WebUsbProcessor
busy = record started { last_send_size = some 300; outgoing_queue = (1 ∷ []) ∷ [] }

process-stray_example :
    process (record started {
      incoming_buffer = take 2 webusb_magic_value ++ (webusb_magic_value ++ (0 ∷ 4 ∷ []));
    })
    ≡ process (record (reset started) { incoming_buffer = 0 ∷ 4 ∷ [] })
process-stray_example =
    process-stray started 2 (0 ∷ 4 ∷ []) (record { idle_idx = refl; four_sizes = refl })
      (omega arith) (omega arith)

-- The same, with nothing waiting.
abbrev between : WebUsbProcessor
between = record halfway { incoming_buffer = [] }

process_portions_example :
    (t u : WebUsbProcessor) × (rs qs : List Request) × (process (add_data between (7 ∷ []))
      ≡ some (t, rs))
    × (process (add_data t (0 ∷ 0 ∷ 0xDB ∷ [])) ≡ some (u, qs))
    × (process (add_data (add_data between (7 ∷ [])) (0 ∷ 0 ∷ 0xDB ∷ [])) ≡ some (u, rs ++ qs))
    × IsReceiving u
    × (u.incoming_buffer ≡ [])
process_portions_example =
    process_portions between (7 ∷ []) (0 ∷ 0 ∷ 0xDB ∷ [])
      (record { least = λ h. omega arith; stored = λ h. refl; partial = λ h. omega arith }) refl
      (omega arith)
