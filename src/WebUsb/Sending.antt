-- ===== src/WebUsb/Sending.antt =====
-- inc/hal/Usb/WebUsbProcessorBase.hpp: sendPkt, flushOutgoing, externalReset, connect and disconnect.
-- An address is taken to be short enough that headerSize fits its byte (at most 246 bytes; those that
-- a packet can carry have at most 9), and a piece of a payload to have less than 65536 bytes.
use dream_pico_port.Prelude.{
  ℕ, zero, suc, ◌+◌, ◌-◌, max, min, Bool, true, false, leb, u16, bit_xor, if◌then◌else◌, List, [],
  ◌∷◌, ◌++◌, length, replicate, none, some,
}
use dream_pico_port.NetworkBytes.{uint16_to_bytes, compute_crc16, crc_seed}
use dream_pico_port.WebUsb.{WebUsbProcessor, Write, reset, webusb_magic_value, max_outgoing_size}

unfoldable pub payload_length : ℕ → List (List ℕ) → ℕ
payload_length n [] = n
payload_length n (p ∷ ps) = payload_length (u16 (n + length p)) ps

abbrev pub concat : List (List ℕ) → List ℕ
concat [] = []
concat (p ∷ ps) = p ++ concat ps

unfoldable pub crc_of_pieces : ℕ → List (List ℕ) → ℕ
unfolding compute_crc16
crc_of_pieces crc [] = crc
crc_of_pieces crc (p ∷ ps) = crc_of_pieces (compute_crc16 crc p) ps

unfoldable pub pkt_size : List ℕ → List (List ℕ) → ℕ
unfolding payload_length
pkt_size address payload_list = u16 (length address + 1 + payload_length 0 payload_list + 2)

unfoldable pub build_pkt : List ℕ → ℕ → List (List ℕ) → List ℕ
build_pkt address cmd payload_list =
    let crc = crc_of_pieces (compute_crc16 crc_seed (address ++ cmd ∷ [])) payload_list in
    webusb_magic_value
    ++ (uint16_to_bytes (pkt_size address payload_list)
        ++ (uint16_to_bytes (bit_xor (pkt_size address payload_list) 0xFFFF)
            ++ (address ++ (cmd ∷ (concat payload_list ++ uint16_to_bytes crc)))))

-- A packet that finds the queue full is thrown away.
unfoldable pub send_pkt : WebUsbProcessor → List ℕ → ℕ → List (List ℕ) → WebUsbProcessor
send_pkt s address cmd payload_list =
    if leb max_outgoing_size (length s.outgoing_queue) then s else record s {
      last_send_size = some (pkt_size address payload_list);
      outgoing_queue = s.outgoing_queue ++ build_pkt address cmd payload_list ∷ [];
    }

abbrev pub Written : Type 0
Written = WebUsbProcessor × List Write

unfoldable pub flush_queue : WebUsbProcessor → List (List ℕ) → Written
flush_queue s [] = (record s { outgoing_queue = [] }, [])
flush_queue s (p ∷ ps) =
    let rest = flush_queue (record s { outgoing_queue = ps }) ps in
    (rest.0, record { bytes = p; flush = true; task = true } ∷ rest.1)

unfoldable pub flush_outgoing : WebUsbProcessor → Written
flush_outgoing s = flush_queue s s.outgoing_queue

-- Zeros, at most 512 in a write; as many rounds as zeros are enough.
unfoldable pub zero_writes : ℕ → ℕ → List Write
zero_writes zero write_size = []
zero_writes (suc fuel) zero = []
zero_writes (suc fuel) (suc n) =
    record { bytes = replicate (min 512 (suc n)) 0; flush = false; task = false }
    ∷ zero_writes fuel (suc n - min 512 (suc n))

unfoldable pub cleared : WebUsbProcessor → WebUsbProcessor
unfolding reset
cleared s = record (reset s) { incoming_buffer = []; outgoing_queue = [] }

unfoldable pub purge : WebUsbProcessor → Bool → Written
purge s false = (s, [])
purge s true = elim s.last_send_size [
  | none ↦ (s, [])
  | some n ↦ (
    record s { last_send_size = none },
    zero_writes (max n 256) (max n 256)
        ++ record { bytes = replicate 16 0; flush = true; task = false } ∷ [],
  )
]

unfoldable pub external_reset : WebUsbProcessor → Bool → Bool → Written
external_reset s send_zeros send_null_pkt =
    let w = purge (cleared s) send_zeros in
    (if send_null_pkt then send_pkt w.0 (replicate 9 0xFF) 0 [] else w.0, w.1)

unfoldable pub connect : WebUsbProcessor → Bool → Bool → Written
unfolding external_reset
connect s send_zeros send_null_pkt = external_reset s send_zeros send_null_pkt

unfoldable pub disconnect : WebUsbProcessor → Written
unfolding external_reset
disconnect s = let w = external_reset s false false in (record w.0 { last_send_size = none }, w.1)
