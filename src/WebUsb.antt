-- ===== src/WebUsb.antt =====
-- inc/hal/Usb/WebUsbProcessorBase.hpp: the packets of the WebUSB interface. mRcvIdx, which starts at
-- -4, is rcv_idx less 4. processPkt is pure virtual: its calls are the Requests that are returned, in
-- order; it may call send_pkt between them, which changes nothing that reception reads. vendorWrite is
-- pure virtual: its calls are the Writes that are returned.
pub mod Loop
pub mod Sending
pub mod Decoding
pub mod Headers
pub mod Automaton
pub mod Magic
pub mod Consumption
pub mod Equivalence
pub mod Stray
pub mod Portions
pub mod Reception
pub mod Encoding
pub mod Queues
pub mod Tests
use dream_pico_port.Prelude.{
  ℕ, zero, suc, ◌+◌, ◌-◌, ◌*◌, ◌%◌, ◌^◌, max, min, Bool, true, false, not, ◌&&◌, ◌||◌, ◌==◌, leb,
  ltb, u8, u16, bit_and, bit_xor, if◌then◌else◌, List, [], ◌∷◌, ◌++◌, length, take, drop, set,
  get_or, replicate, Option, none, some,
}
use dream_pico_port.NetworkBytes.{bytes_to_uint16, uint16_to_bytes, compute_crc16, crc_seed}

abbrev pub webusb_magic_value : List ℕ
webusb_magic_value = 0xDB ∷ 0x8B ∷ 0xAF ∷ 0xD5 ∷ []

abbrev pub max_outgoing_size : ℕ
max_outgoing_size = 10

abbrev pub max_buffer_size : ℕ
max_buffer_size = 1100

pub record WebUsbProcessor : Type 0 where
  pub rcv_idx : ℕ
  pub size_bytes : List ℕ
  pub rcv_size : ℕ
  pub incoming_buffer : List ℕ
  pub buffer : List ℕ
  pub last_send_size : Option ℕ
  pub outgoing_queue : List (List ℕ)

unfoldable pub init : WebUsbProcessor
init = record {
  rcv_idx = 0;
  size_bytes = replicate 4 0;
  rcv_size = 0;
  incoming_buffer = [];
  buffer = [];
  last_send_size = none;
  outgoing_queue = [];
}

-- A call of processPkt.
pub record Request : Type 0 where
  pub address : List ℕ
  pub cmd : ℕ
  pub payload : List ℕ

-- A call of vendorWrite.
pub record Write : Type 0 where
  pub bytes : List ℕ
  pub flush : Bool
  pub task : Bool

unfoldable pub reset : WebUsbProcessor → WebUsbProcessor
reset s = record s { rcv_idx = 0; buffer = [] }

-- Reads bytes until the magic value is complete or none is left. A byte that is not the one
-- expected is consumed.
unfoldable pub parse_magic : WebUsbProcessor → List ℕ → WebUsbProcessor × List ℕ
unfolding reset
parse_magic s [] = (s, [])
parse_magic s (b ∷ bs) =
    let next =
      if b == get_or webusb_magic_value s.rcv_idx 0
      then record s { rcv_idx = s.rcv_idx + 1 }
      else reset s in
    elim (ltb s.rcv_idx 4) [ true ↦ parse_magic next bs | false ↦ (s, b ∷ bs) ]

unfoldable pub read_sizes : WebUsbProcessor → List ℕ → WebUsbProcessor × List ℕ
read_sizes s [] = (s, [])
read_sizes s (b ∷ bs) =
    let next = record s {
      size_bytes = set s.size_bytes (s.rcv_idx - 4) b;
      rcv_idx = s.rcv_idx + 1;
    } in
    elim (ltb s.rcv_idx 8) [ true ↦ read_sizes next bs | false ↦ (s, b ∷ bs) ]

unfoldable pub read_header_bytes : WebUsbProcessor → List ℕ → WebUsbProcessor × List ℕ
unfolding parse_magic read_sizes
read_header_bytes s bs = let m = parse_magic s bs in read_sizes m.0 m.1

unfoldable pub size_field : WebUsbProcessor → ℕ
unfolding bytes_to_uint16
size_field s = bytes_to_uint16 (get_or s.size_bytes 0 0) (get_or s.size_bytes 1 0)

unfoldable pub inverse_size_field : WebUsbProcessor → ℕ
unfolding bytes_to_uint16
inverse_size_field s = bytes_to_uint16 (get_or s.size_bytes 2 0) (get_or s.size_bytes 3 0)

-- The size bytes are checked. Bytes that are no size may hold the start of another magic value.
unfoldable pub check_sizes : WebUsbProcessor → WebUsbProcessor × Bool
unfolding size_field inverse_size_field parse_magic reset
check_sizes s =
    let sized = record s { rcv_size = size_field s } in
    if not (bit_xor (size_field s) (inverse_size_field s) == 0xFFFF) || ltb (size_field s) 4
    then ((parse_magic (reset sized) s.size_bytes).0, false)
    else (record sized { buffer = [] }, true)

-- The loop, on fuel; the Bool tells whether a header is complete.
unfoldable pub try_read_packet_header :
    ℕ → WebUsbProcessor → List ℕ → Option (WebUsbProcessor × List ℕ × Bool)
try_read_packet_header zero s bs = none
try_read_packet_header (suc fuel) s bs =
    let r = read_header_bytes s bs in
    let c = check_sizes r.0 in
    let again = try_read_packet_header fuel c.0 r.1 in
    if leb 8 s.rcv_idx
    then some (s, bs, true)
    else if ltb (r.0).rcv_idx 8
    then some (r.0, r.1, false)
    else if c.1
    then some (c.0, r.1, true)
    else again

abbrev pub try_packet_header_fuel : List ℕ → ℕ
try_packet_header_fuel bs = suc (length bs)

unfoldable pub consume_packet_bytes : WebUsbProcessor → List ℕ → WebUsbProcessor × List ℕ
consume_packet_bytes s bs =
    let bytes_to_consume = min (s.rcv_size - (s.rcv_idx - 8)) (length bs) in
    (
      record s {
        buffer = s.buffer ++ take bytes_to_consume bs;
        rcv_idx = s.rcv_idx + bytes_to_consume;
      },
      drop bytes_to_consume bs,
    )

-- Bytes up to one without its high bit, at most `left` of them.
unfoldable pub address_size : ℕ → List ℕ → ℕ
address_size zero bs = 0
address_size (suc left) [] = 0
address_size (suc left) (b ∷ bs) =
    let rest = address_size left bs in if bit_and b 0x80 == 0 then 1 else suc rest

unfoldable pub get_address_size : List ℕ → ℕ
get_address_size packet = address_size 9 packet

unfoldable pub stored_crc : List ℕ → ℕ
stored_crc packet =
    bytes_to_uint16 (get_or packet (length packet - 2) 0) (get_or packet (length packet - 1) 0)

-- What is in a packet, if its CRC and its length are right.
unfoldable pub decode : List ℕ → Option Request
decode packet =
    let n = get_address_size packet in
    if not (compute_crc16 crc_seed (take (length packet - 2) packet) == stored_crc packet)
    then none
    else if ltb (length packet) (n + 1 + 2)
    then none
    else some (record {
      address = take n packet;
      cmd = get_or packet n 0;
      payload = take (length packet - n - 1 - 2) (drop (n + 1) packet);
    })

abbrev pub requests_of : Option Request → List Request
requests_of none = []
requests_of (some r) = r ∷ []

-- The Bool is the result of the code, the list the call of processPkt, if there is one.
unfoldable pub try_process_completed_packet :
    WebUsbProcessor → WebUsbProcessor × List Request × Bool
try_process_completed_packet s =
    if ltb (length s.buffer) 4
    then (s, [], false)
    else (reset s, requests_of (decode s.buffer), true)
