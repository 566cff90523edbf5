-- ===== src/Frame/Words.antt =====
-- MaplePacket::Frame's fromWord and toWord and MaplePacket::flipWordBytes: fields and words in the
-- two byte orders.
use dream_pico_port.Prelude.{ℕ, ◌*◌, ◌/◌, ◌%◌, ◌<◌, ◌^◌, ◌≡◌, ap, bit_and, ◌<<<◌, ◌>>>◌, u32, arith}
use dream_pico_port.Prelude.Bits.{bit_and_low, bit_and_shifted, or_falling, or_rising, join_bytes}
use dream_pico_port.Frame.{
  ByteOrder, host, network, Frame, IsFrame, from_word, to_word, byte_at, flip_word_bytes,
}

byte_at-host : (w p q : ℕ) → byte_at w p q host ≡ w / 2 ^ p % 256
unfolding byte_at
byte_at-host w p q = omega (arith, bit_and_low 8 (w / 2 ^ p))

byte_at-network : (w p q : ℕ) → byte_at w p q network ≡ w / 2 ^ q % 256
unfolding byte_at
byte_at-network w p q = omega (arith, bit_and_low 8 (w / 2 ^ q))

pub to_word-host :
    (f : Frame)
    → IsFrame f
    → to_word f host ≡ join_bytes f.length f.sender_addr f.recipient_addr f.command
unfolding to_word
to_word-host f h =
    ground (arith, or_rising f.length f.sender_addr f.recipient_addr f.command h.3 h.2 h.1 h.0)

pub to_word-network :
    (f : Frame)
    → IsFrame f
    → to_word f network ≡ join_bytes f.command f.recipient_addr f.sender_addr f.length
unfolding to_word
to_word-network f h =
    ground (arith, or_falling f.command f.recipient_addr f.sender_addr f.length h.0 h.1 h.2 h.3)

from_word-host :
    (w : ℕ)
    → from_word w host ≡ record {
      command = w / 2 ^ 24 % 256;
      recipient_addr = w / 2 ^ 16 % 256;
      sender_addr = w / 2 ^ 8 % 256;
      length = w % 256;
    }
unfolding from_word
from_word-host w = ground (
  arith,
  bit_and_low 8 (w / 2 ^ 24),
  bit_and_low 8 (w / 2 ^ 16),
  bit_and_low 8 (w / 2 ^ 8),
  bit_and_low 8 (w / 2 ^ 0),
)

from_word-network :
    (w : ℕ)
    → from_word w network ≡ record {
      command = w % 256;
      recipient_addr = w / 2 ^ 8 % 256;
      sender_addr = w / 2 ^ 16 % 256;
      length = w / 2 ^ 24 % 256;
    }
unfolding from_word
from_word-network w = ground (
  arith,
  bit_and_low 8 (w / 2 ^ 24),
  bit_and_low 8 (w / 2 ^ 16),
  bit_and_low 8 (w / 2 ^ 8),
  bit_and_low 8 (w / 2 ^ 0),
)

pub from_word-IsFrame : (w : ℕ) (order : ByteOrder) → IsFrame (from_word w order)
from_word-IsFrame w host = rw (from_word-host w) (omega arith)
from_word-IsFrame w network = rw (from_word-network w) (omega arith)

-- Reading a frame back from the word that it was written to, in the same byte order, gives every
-- field of it, for a frame whose fields are bytes.
pub from_word-to_word :
    (f : Frame) (order : ByteOrder) → IsFrame f → from_word (to_word f order) order ≡ f
from_word-to_word f host h = ground (arith, to_word-host f h, from_word-host (to_word f host))
from_word-to_word f network h =
    ground (arith, to_word-network f h, from_word-network (to_word f network))

-- A 32-bit word written from the frame that it was read as is that word.
to_word-from_word : (w : ℕ) (order : ByteOrder) → w < 2 ^ 32 → to_word (from_word w order) order ≡ w
to_word-from_word w host h =
    ground (arith, to_word-host (from_word w host) (from_word-IsFrame w host), from_word-host w)
to_word-from_word w network h = ground (
  arith,
  to_word-network (from_word w network) (from_word-IsFrame w network),
  from_word-network w,
)

-- A byte in place under its mask.
byte_masked : (k a : ℕ) → bit_and a (255 * 2 ^ k) ≡ a / 2 ^ k % 256 * 2 ^ k
byte_masked k a =
    omega (arith, bit_and_shifted k 255 a, ap (λ (t : ℕ). t * 2 ^ k) (bit_and_low 8 (a / 2 ^ k)))

pub flip_word_bytes_lem :
    (w : ℕ)
    → w < 2 ^ 32
    → flip_word_bytes w ≡ join_bytes (w / 2 ^ 24) (w / 2 ^ 16 % 256) (w / 2 ^ 8 % 256) (w % 256)
unfolding flip_word_bytes
flip_word_bytes_lem w h = ground (
  arith,
  byte_masked 16 (u32 (w <<< 8)),
  byte_masked 8 (w >>> 8),
  or_falling (w / 2 ^ 24) (w / 2 ^ 16 % 256) (w / 2 ^ 8 % 256) (w % 256) (omega arith) (omega arith)
      (omega arith) (omega arith),
)

-- Reversing the bytes of a 32-bit word twice gives the word.
pub flip_word_bytes_involutive : (w : ℕ) → w < 2 ^ 32 → flip_word_bytes (flip_word_bytes w) ≡ w
flip_word_bytes_involutive w h =
    ground (arith, flip_word_bytes_lem w h, flip_word_bytes_lem (flip_word_bytes w))

-- The frame word in network order is the byte reversal of the frame word in host order, for a
-- frame whose fields are bytes.
flip_word_bytes-to_word :
    (f : Frame) → IsFrame f → flip_word_bytes (to_word f host) ≡ to_word f network
flip_word_bytes-to_word f h =
    ground (arith, to_word-host f h, to_word-network f h, flip_word_bytes_lem (to_word f host))
