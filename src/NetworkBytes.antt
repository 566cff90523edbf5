-- ===== src/NetworkBytes.antt =====
-- inc/hal/Usb/WebUsbProcessorBase.hpp, its static helpers: two bytes in network order, and the CRC of
-- a run of bytes. A byte is a number below 256.
pub mod Laws
use dream_pico_port.Prelude.{
  ℕ, zero, suc, bit_and, bit_or, bit_xor, u8, u16, ◌<<<◌, ◌>>>◌, ◌*◌, ◌/◌, ◌%◌, ◌^◌, ◌==◌,
  if◌then◌else◌, List, [], ◌∷◌, ◌++◌,
}

unfoldable pub bytes_to_uint16 : ℕ → ℕ → ℕ
bytes_to_uint16 hi lo = u16 (bit_or (u16 hi <<< 8) lo)

unfoldable pub uint16_to_bytes : ℕ → List ℕ
uint16_to_bytes n = u8 (n >>> 8) ∷ bit_and n 0xFF ∷ []

unfoldable pub crc_bit : ℕ → ℕ
crc_bit crc = if bit_and crc 0x8000 == 0 then u16 (crc <<< 1) else u16 (bit_xor (crc <<< 1) 0x1021)

unfoldable pub crc_bits : ℕ → ℕ → ℕ
crc_bits zero crc = crc
crc_bits (suc j) crc = crc_bits j (crc_bit crc)

unfoldable pub crc_byte : ℕ → ℕ → ℕ
crc_byte crc b = crc_bits 8 (u16 (bit_xor crc (u8 b <<< 8)))

-- The CRC of a buffer, from a seed.
unfoldable pub compute_crc16 : ℕ → List ℕ → ℕ
compute_crc16 crc [] = crc
compute_crc16 crc (b ∷ bs) = compute_crc16 (crc_byte crc b) bs

abbrev pub crc_seed : ℕ
crc_seed = 0xFFFF
