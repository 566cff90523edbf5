-- ===== src/Storage/Commands.antt =====
-- src/clientLib/DreamcastStorage.cpp, handlePacket: one function for each command.
use dream_pico_port.Prelude.{
  ℕ, ◌*◌, true, false, not, ◌||◌, ◌==◌, leb, bit_and, bit_or, if◌then◌else◌, List, [], ◌∷◌, map,
  length, take, get_or, Option, none, some,
}
use dream_pico_port.Frame.{host, network, flip_word_bytes}
use dream_pico_port.Packet.{MaplePacket, set_payload, append_payload, append_payload_word}
use dream_pico_port.Memory.{overwrite}
use dream_pico_port.Storage.{
  SystemMemory, Storage, Handled, words_of, bytes_of, read_block, write_block, with_command,
  file_error, block_offset, location_phase, command_response_ack, command_response_data_xfer,
  device_fn_storage, num_blocks, writes_per_block, words_per_block, bytes_per_write,
  system_block_no, set_default_media_info,
}

-- The media information, with the volume icon and the save area of the system block.
unfoldable pub memory_information : List ℕ → List ℕ
memory_information block =
    let info = set_default_media_info 0 6 in
    let stored = words_of block in
    device_fn_storage
    ∷ get_or info 0 0
    ∷ get_or info 1 0
    ∷ get_or info 2 0
    ∷ bit_or (bit_and (get_or info 3 0) 0xFFFF0000)
        (bit_and (flip_word_bytes (get_or stored 19 0)) 0x0000FFFF)
    ∷ flip_word_bytes (get_or stored 20 0)
    ∷ get_or info 5 0
    ∷ []

abbrev pub handles : MaplePacket → Handled
handles out = record { out = out; handled = true }

unfoldable pub information_answer : Option (List ℕ) → MaplePacket → Handled
information_answer none out = handles (file_error out 0x40)
information_answer (some block) out =
    handles
      (set_payload (with_command out command_response_data_xfer) (memory_information block) host)

unfoldable pub read_answer : Option (List ℕ) → ℕ → MaplePacket → Handled
read_answer none location_word out = handles (file_error out 0x40)
read_answer (some block) location_word out = handles (
    append_payload
      (append_payload_word
        (set_payload (with_command out command_response_data_xfer) (device_fn_storage ∷ []) host)
        location_word host)
      (take words_per_block (words_of block)) network)

module _ (memory : SystemMemory) where
  unfoldable pub get_memory_information : Storage memory → MaplePacket → Storage memory × Handled
  get_memory_information s out =
      let r = read_block memory s system_block_no in (r.0, information_answer r.1 out)

  -- With the location word.
  unfoldable pub block_read : Storage memory → ℕ → MaplePacket → Storage memory × Handled
  block_read s location_word out =
      if leb num_blocks (block_offset location_word) || not (location_phase location_word == 0)
      then (s, handles (file_error out 0x10))
      else let r = read_block memory s (block_offset location_word) in
        (r.0, read_answer r.1 location_word out)

  -- With the location word and the words after it.
  unfoldable pub block_write : Storage memory → ℕ → List ℕ → MaplePacket → Storage memory × Handled
  block_write s location_word words out =
      if leb num_blocks (block_offset location_word)
        || leb writes_per_block (location_phase location_word)
        || not (length words == 32)
      then (s, handles (file_error out 0x10))
      else (
        record s {
          data_block =
              overwrite s.data_block (location_phase location_word * bytes_per_write)
                (bytes_of (map flip_word_bytes words));
        },
        handles (with_command out command_response_ack),
      )

  unfoldable pub get_last_error : Storage memory → ℕ → MaplePacket → Storage memory × Handled
  get_last_error s location_word out =
      if leb num_blocks (block_offset location_word)
        || not (location_phase location_word == writes_per_block)
      then (s, handles (file_error out 0x10))
      else let w = write_block memory s (block_offset location_word) s.data_block in
        (
          record (w.0) { data_block = w.1 },
          if w.2
              then handles (with_command out command_response_ack)
              else handles (file_error out 0x08),
        )

  abbrev pub unhandled : MaplePacket → Handled
  unhandled out = record { out = out; handled = false }

  -- The commands that have a location word, by their number.
  unfoldable pub located_command :
      ℕ → Storage memory → ℕ → List ℕ → MaplePacket → Storage memory × Handled
  located_command command s location_word words out =
      if command == 0xB
      then block_read s location_word out
      else if command == 0xC
      then block_write s location_word words out
      else if command == 0xD
      then get_last_error s location_word out
      else (s, unhandled out)

  -- The commands that need a location word.
  unfoldable pub block_command :
      ℕ → Storage memory → List ℕ → MaplePacket → Storage memory × Handled
  block_command command s [] out = (s, unhandled out)
  block_command command s (code ∷ []) out = (s, unhandled out)
  block_command command s (code ∷ location_word ∷ words) out =
      located_command command s location_word words out

  unfoldable pub handle_packet :
      Storage memory → MaplePacket → MaplePacket → Storage memory × Handled
  handle_packet s p out =
      if p.frame.command == 0xA
      then get_memory_information s out
      else block_command p.frame.command s p.payload out
