-- ===== src/NetworkBytes/Laws.antt =====
-- WebUsbProcessorBase's bytesToUint16, uint16ToBytes and computeCrc16: bytes and sizes,
-- complements, and a buffer in parts.
use dream_pico_port.Prelude.{
  ℕ, zero, suc, ◌+◌, ◌-◌, ◌*◌, ◌/◌, ◌%◌, ◌^◌, ◌≤◌, ◌<◌, ◌≡◌, refl, ap, ap₂, ◌∙◌, bit_xor, u8, u16,
  ◌<<<◌, List, [], ◌∷◌, ◌++◌, arith,
}
use dream_pico_port.Prelude.Bits.{
  bit_or_add, bit_and_low, bit_xor_cancel, bit_xor_complement, bit_xor_digit,
}
use dream_pico_port.NetworkBytes.{
  bytes_to_uint16, uint16_to_bytes, compute_crc16, crc_bits, crc_bit, crc_byte,
}

pub bytes_to_uint16_sum : (hi lo : ℕ) → hi < 256 → lo < 256 → bytes_to_uint16 hi lo ≡ hi * 256 + lo
unfolding bytes_to_uint16
bytes_to_uint16_sum hi lo h l =
    let e : u16 hi ≡ hi = omega arith in
    rw (e, bit_or_add 8 hi (hi * 2 ^ 8) lo refl l) (omega arith)

pub uint16_to_bytes_quotient : (n : ℕ) → n < 2 ^ 16 → uint16_to_bytes n ≡ (n / 256) ∷ (n % 256) ∷ []
unfolding uint16_to_bytes
uint16_to_bytes_quotient n h = ap₂ (λ (a b : ℕ). a ∷ b ∷ []) (omega arith) (bit_and_low 8 n)

-- What is sent as two bytes is read back.
pub bytes_to_uint16-halves : (n : ℕ) → n < 2 ^ 16 → bytes_to_uint16 (n / 256) (n % 256) ≡ n
bytes_to_uint16-halves n h =
    bytes_to_uint16_sum (n / 256) (n % 256) (omega arith) (omega arith) ∙ omega arith

bit_xor_comm_below : (n a b : ℕ) → a ≤ n → b ≤ n → bit_xor a b ≡ bit_xor b a
bit_xor_comm_below zero zero zero ha hb = refl
bit_xor_comm_below zero (suc a) b ha hb = absurd (omega arith)
bit_xor_comm_below zero zero (suc b) ha hb = absurd (omega arith)
bit_xor_comm_below (suc n) a b ha hb = omega (
  arith,
  bit_xor_digit a b,
  bit_xor_digit b a,
  bit_xor_comm_below n (a / 2) (b / 2) (omega arith) (omega arith),
)

pub bit_xor_all_ones : (n : ℕ) → n < 2 ^ 16 → bit_xor n 0xFFFF ≡ 65535 - n
bit_xor_all_ones n h =
    let c : bit_xor (65535 - n) n + 1 ≡ 2 ^ 16 =
      bit_xor_complement 16 (65535 - n) n (omega arith) in
    let d : 65535 ≡ bit_xor (65535 - n) n = omega arith in
    bit_xor_comm_below (n + 65535) n 65535 (omega arith) (omega arith)
    ∙ ap (λ (m : ℕ). bit_xor m n) d
    ∙ bit_xor_cancel (65535 - n) n

-- The CRC of two runs of bytes together is that of the second, seeded with that of the first.
pub compute_crc16-append :
    (crc : ℕ) (xs ys : List ℕ)
    → compute_crc16 crc (xs ++ ys) ≡ compute_crc16 (compute_crc16 crc xs) ys
unfolding compute_crc16
compute_crc16-append crc [] ys = refl
compute_crc16-append crc (x ∷ xs) ys = compute_crc16-append (crc_byte crc x) xs ys

crc_bit_lt : (crc : ℕ) → crc_bit crc < 2 ^ 16
unfolding crc_bit
crc_bit_lt crc = ground arith

crc_bits_lt : (j crc : ℕ) → crc < 2 ^ 16 → crc_bits j crc < 2 ^ 16
unfolding crc_bits
crc_bits_lt zero crc h = h
crc_bits_lt (suc j) crc h = crc_bits_lt j (crc_bit crc) (crc_bit_lt crc)

crc_byte_lt : (crc b : ℕ) → crc_byte crc b < 2 ^ 16
unfolding crc_byte
crc_byte_lt crc b = crc_bits_lt 8 (u16 (bit_xor crc (u8 b <<< 8))) (omega arith)

pub compute_crc16_lt : (bs : List ℕ) (crc : ℕ) → crc < 2 ^ 16 → compute_crc16 crc bs < 2 ^ 16
unfolding compute_crc16
compute_crc16_lt [] crc h = h
compute_crc16_lt (b ∷ bs) crc h = compute_crc16_lt bs (crc_byte crc b) (crc_byte_lt crc b)
