-- ===== src/Storage.antt =====
-- src/clientLib/DreamcastStorage.cpp and .hpp: the storage of an emulated memory unit, over the
-- interface inc/hal/System/SystemMemory.hpp. A word in memory is four bytes, lowest first, as the
-- processor has it.
pub mod Commands
pub mod Blocks
pub mod Transfers
pub mod Volatile
pub mod Tests
pub mod Answers
pub mod Format
pub mod RoundTrip
use dream_pico_port.Prelude.{
  ℕ, zero, suc, ◌+◌, ◌-◌, ◌*◌, ◌/◌, ◌%◌, ◌^◌, ◌≡◌, ◌<◌, Bool, true, false, not, ◌&&◌, ◌||◌, ◌==◌,
  ltb, leb, u16, u32, u8, ◌<<<◌, ◌>>>◌, bit_and, bit_or, if◌then◌else◌, List, [], ◌∷◌, ◌++◌, map,
  length, take, drop, get_or, replicate, Option, none, some,
}
use dream_pico_port.Prelude.Bits.{join_bytes}
use dream_pico_port.Frame.{host, network, flip_word_bytes}
use dream_pico_port.Packet.{
  MaplePacket, set_payload, set_payload_word, append_payload, append_payload_word,
}
use dream_pico_port.Memory.{ReadResult, WriteResult, overwrite}

-- A memory as its client sees it: what a write says is all written is what a read then finds.
pub record SystemMemory : Type 1 where
  pub State : Type 0
  pub read : State → ℕ → ℕ → State × ReadResult
  pub write : State → ℕ → List ℕ → State × WriteResult
  pub write_reads :
      (s : State) (offset : ℕ) (bytes : List ℕ)
      → 0 < length bytes
      → (write s offset bytes).1.success ≡ true
      → (read (write s offset bytes).0 offset (length bytes)).1
        ≡ record { bytes = some bytes; size = length bytes }

abbrev pub bytes_per_block : ℕ
bytes_per_block = 512

abbrev pub words_per_block : ℕ
words_per_block = 128

abbrev pub writes_per_block : ℕ
writes_per_block = 4

abbrev pub reads_per_block : ℕ
reads_per_block = 1

abbrev pub bytes_per_write : ℕ
bytes_per_write = 128

abbrev pub num_blocks : ℕ
num_blocks = 256

abbrev pub system_block_no : ℕ
system_block_no = 255

abbrev pub fat_block_no : ℕ
fat_block_no = 254

abbrev pub file_info_block_no : ℕ
file_info_block_no = 253

abbrev pub num_file_info_blocks : ℕ
num_file_info_blocks = 13

abbrev pub save_area_block_no : ℕ
save_area_block_no = 31

abbrev pub num_save_area_blocks : ℕ
num_save_area_blocks = 200

abbrev pub device_fn_storage : ℕ
device_fn_storage = 2

-- Words read from bytes and stored to bytes.
unfoldable pub words_of : List ℕ → List ℕ
words_of (a ∷ b ∷ c ∷ d ∷ bytes) = join_bytes a b c d ∷ words_of bytes
words_of _ = []

unfoldable pub bytes_of : List ℕ → List ℕ
bytes_of [] = []
bytes_of (w ∷ words) = u8 w ∷ u8 (w / 2 ^ 8) ∷ u8 (w / 2 ^ 16) ∷ u8 (w / 2 ^ 24) ∷ bytes_of words

-- U16_TO_UPPER_HALF_WORD and U16_TO_LOWER_HALF_WORD
unfoldable pub u16_to_upper_half_word : ℕ → ℕ
u16_to_upper_half_word val = bit_or (u32 (val <<< 24)) (bit_and (u32 (val <<< 8)) 0x00FF0000)

unfoldable pub u16_to_lower_half_word : ℕ → ℕ
u16_to_lower_half_word val =
    bit_or (bit_and (u32 (val <<< 8)) 0x0000FF00) (bit_and (val >>> 8) 0x000000FF)

unfoldable pub half_words : ℕ → ℕ → ℕ
half_words upper lower = bit_or (u16_to_upper_half_word upper) (u16_to_lower_half_word lower)

-- The table of setDefaultMediaInfo.
unfoldable pub default_media_info : List ℕ
unfolding half_words
default_media_info =
    half_words (num_blocks - 1) 0
    ∷ half_words system_block_no fat_block_no
    ∷ half_words 1 file_info_block_no
    ∷ half_words num_file_info_blocks 0
    ∷ half_words num_save_area_blocks save_area_block_no
    ∷ 0x00008000
    ∷ []

unfoldable pub set_default_media_info : ℕ → ℕ → List ℕ
set_default_media_info info_offset info_len = take info_len (drop info_offset default_media_info)

unfoldable pub set_default_media_info_flipped : ℕ → ℕ → List ℕ
set_default_media_info_flipped info_offset info_len =
    map flip_word_bytes (set_default_media_info info_offset info_len)

-- The save area's word of the system block, set by the memory unit if it is 0.
unfoldable pub with_save_area : ℕ → List ℕ → List ℕ
with_save_area block_num block =
    if block_num == system_block_no
    then (if get_or (words_of block) 20 0 == 0
        then overwrite block 80 (bytes_of (set_default_media_info_flipped 4 1))
        else block)
    else block

abbrev pub storage_function_definition : ℕ
storage_function_definition =
    bit_or
      (bit_or (bit_or (bit_or 0 0) (bit_and reads_per_block 0xF <<< 8))
        (bit_and writes_per_block 0xF <<< 12))
      (bit_or (bit_and (bytes_per_block / 32 - 1) 0xFF <<< 16) (bit_and (1 - 1) 0xFF <<< 24))

-- The parts of a location word.
abbrev pub block_offset : ℕ → ℕ
block_offset location_word = u16 (bit_and location_word 0xFFFF)

abbrev pub location_phase : ℕ → ℕ
location_phase location_word = u8 (bit_and (location_word >>> 16) 0xFF)

abbrev pub with_command : MaplePacket → ℕ → MaplePacket
with_command p command = record p { frame = record (p.frame) { command = command } }

abbrev pub command_response_ack : ℕ
command_response_ack = 7

abbrev pub command_response_data_xfer : ℕ
command_response_data_xfer = 8

abbrev pub command_response_file_error : ℕ
command_response_file_error = 0xFB

unfoldable pub file_error : MaplePacket → ℕ → MaplePacket
file_error out reason = set_payload_word (with_command out command_response_file_error) reason host

-- The packet to send, and whether the packet was handled.
pub record Handled : Type 0 where
  pub out : MaplePacket
  pub handled : Bool

module _ (memory : SystemMemory) where
  open memory use {State, read, write}

  pub record Storage : Type 0 where
    pub system_memory : State
    pub memory_offset : ℕ
    pub data_block : List ℕ

  unfoldable pub make_storage : State → ℕ → Storage
  make_storage system_memory memory_offset = record {
    system_memory = system_memory;
    memory_offset = memory_offset;
    data_block = replicate bytes_per_block 0;
  }

  abbrev pub block_address : Storage → ℕ → ℕ
  block_address s block_num = u32 (s.memory_offset + block_num * bytes_per_block)

  unfoldable pub read_block : Storage → ℕ → Storage × Option (List ℕ)
  read_block s block_num =
      let r = read s.system_memory (block_address s block_num) bytes_per_block in
      (record s { system_memory = r.0 }, if ltb r.1.size bytes_per_block then none else r.1.bytes)

  -- With the block, which it may change.
  unfoldable pub write_block : Storage → ℕ → List ℕ → Storage × List ℕ × Bool
  write_block s block_num block =
      let data_bytes = with_save_area block_num block in
      let w = write s.system_memory (block_address s block_num) data_bytes in
      (record s { system_memory = w.0 }, data_bytes, w.1.success)
