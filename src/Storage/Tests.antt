-- ===== src/Storage/Tests.antt =====
-- A memory unit of 256 blocks in RAM.
use dream_pico_port.Prelude.{
  ℕ, ◌+◌, ◌*◌, ◌^◌, All, ◌<◌, ◌≡◌, ◌⊎◌, refl, true, false, List, [], ◌∷◌, ◌++◌, length, replicate,
  suc, zero, arith,
}
use dream_pico_port.Frame.{host, flip_word_bytes}
use dream_pico_port.Packet.{MaplePacket}
use dream_pico_port.Packet.Contents.{IsWords}
use dream_pico_port.Memory.{make_volatile, volatile_write, overwrite}
use dream_pico_port.Memory.Bytes.{IsSized}
use dream_pico_port.Memory.Sectors.{length-replicate}
use dream_pico_port.Storage.{
  Storage, make_storage, device_fn_storage, command_response_ack, command_response_data_xfer,
  bytes_of, half_words, u16_to_upper_half_word, u16_to_lower_half_word, write_block, with_save_area,
}
use dream_pico_port.Storage.Commands.{
  handle_packet, block_command, located_command, get_last_error, block_write,
}
use dream_pico_port.Storage.Transfers.{request, flatten, IsChunk, send_chunks}
use dream_pico_port.Storage.RoundTrip.{commit, fetch, fetch-commit}
use dream_pico_port.Storage.Answers.{IsHandled, IsAnswered, handle_packet-IsAnswer}
use dream_pico_port.Storage.Format.{fat_words, set_fat_addr, link_file_info}
use dream_pico_port.Storage.Volatile.{Clocked, clocked_memory}

ram-IsSized : (size : ℕ) → IsSized (make_volatile size)
unfolding make_volatile
ram-IsSized size = length-replicate size 0xFF

abbrev ram : Clocked
ram = record { memory = make_volatile 0x20000; sized = ram-IsSized 0x20000; now = 0 }

abbrev unit : Storage clocked_memory
unit = make_storage clocked_memory ram 0

abbrev no_answer : MaplePacket
no_answer = record {
  frame = record { command = 0xFF; recipient_addr = 0; sender_addr = 1; length = 0 };
  payload = [];
  payload_byte_order = host;
}

abbrev chunks : List (List ℕ)
chunks = replicate 32 1 ∷ replicate 32 2 ∷ replicate 32 3 ∷ replicate 32 0x04030201 ∷ []

unit_sized : length unit.data_block ≡ 512
unfolding make_storage
unit_sized = length-replicate 512 0

replicate-IsWords : (n w : ℕ) → w < 2 ^ 32 → IsWords (replicate n w)
replicate-IsWords zero w h = tt
replicate-IsWords (suc n) w h = (h, replicate-IsWords n w h)

chunks-IsChunk : All IsChunk chunks
chunks-IsChunk = (
  (refl, replicate-IsWords 32 1 (omega arith)),
  (
    (refl, replicate-IsWords 32 2 (omega arith)),
    (
      (refl, replicate-IsWords 32 3 (omega arith)),
      ((refl, replicate-IsWords 32 0x04030201 (omega arith)), tt),
    ),
  ),
)

unit_ack :
    (commit clocked_memory
      (send_chunks clocked_memory unit 7 0 chunks no_answer)
      7
      no_answer).1.out.frame.command
    ≡ command_response_ack
unfolding send_chunks handle_packet block_command located_command get_last_error write_block
    volatile_write block_write make_storage make_volatile with_save_area overwrite bytes_of
unit_ack = refl

fetch-commit_example :
    let answer =
      (fetch clocked_memory
        (commit clocked_memory (send_chunks clocked_memory unit 7 0 chunks no_answer) 7 no_answer).0
        7
        no_answer).1 in
    (answer.handled ≡ true)
    × (answer.out.frame.command ≡ command_response_data_xfer)
    × (answer.out.payload ≡ device_fn_storage ∷ 7 ∷ flatten chunks)
fetch-commit_example =
    fetch-commit clocked_memory unit 7 chunks no_answer (omega arith) refl chunks-IsChunk unit_sized
      unit_ack

handle_packet-IsAnswer_example :
    (IsHandled clocked_memory (request 0xC 300 0 [])
      × IsAnswered (handle_packet clocked_memory unit (request 0xC 300 0 []) no_answer).1)
    ⊎ (¬ IsHandled clocked_memory (request 0xC 300 0 [])
        × (handle_packet clocked_memory unit (request 0xC 300 0 []) no_answer
            ≡ (unit, record { out = no_answer; handled = false })))
handle_packet-IsAnswer_example =
    handle_packet-IsAnswer clocked_memory unit (request 0xC 300 0 []) no_answer

-- The 16-bit entries of the FAT that `format` writes: free blocks, then the chain of the file
-- information from block 253 down to its end at 241, and the FAT and the system block.
fat_entries : List ℕ → List ℕ
fat_entries (a ∷ b ∷ bytes) = (a + b * 256) ∷ fat_entries bytes
fat_entries _ = []

up_from : ℕ → ℕ → List ℕ
up_from zero n = []
up_from (suc rounds) n = n ∷ up_from rounds (suc n)

fat_lem :
    fat_entries (bytes_of fat_words)
    ≡ (replicate 241 0xFFFC ++ 0xFFFA ∷ up_from 12 241) ++ (0xFFFA ∷ 0xFFFA ∷ [])
unfolding fat_entries up_from fat_words bytes_of set_fat_addr link_file_info flip_word_bytes
    half_words u16_to_upper_half_word u16_to_lower_half_word
fat_lem = refl
