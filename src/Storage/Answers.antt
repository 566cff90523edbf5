-- ===== src/Storage/Answers.antt =====
-- src/clientLib/DreamcastStorage.cpp, handlePacket: which packets are answered, and with what.
use dream_pico_port.Prelude.{
  ℕ, ◌≤◌, ◌<◌, ◌≡◌, ◌⊎◌, inl, inr, refl, ◌∙◌, true, false, not, ◌&&◌, ◌||◌, take, ◌==◌, leb, List,
  [], ◌∷◌, length, Option, some, none, Bool-cases, arith,
}
use dream_pico_port.Frame.{ByteOrder, host, network}
use dream_pico_port.Packet.{
  MaplePacket, set_payload, set_payload_word, append_payload, append_payload_word,
  update_frame_length,
}
use dream_pico_port.Storage.{
  SystemMemory, Storage, Handled, file_error, with_command, command_response_ack,
  command_response_data_xfer, command_response_file_error, device_fn_storage, num_blocks,
  writes_per_block, block_offset, location_phase, read_block, write_block, system_block_no,
  words_per_block, words_of,
}
use dream_pico_port.Storage.Commands.{
  get_memory_information, block_read, block_write, get_last_error, located_command, handle_packet,
  memory_information, information_answer, read_answer, block_command,
}

-- An answer: an acknowledgement, data, or a file error with one of its reasons.
abbrev pub IsAnswer : MaplePacket → Type 0
IsAnswer p =
    (p.frame.command ≡ command_response_ack)
    ⊎ ((p.frame.command ≡ command_response_data_xfer)
        ⊎ ((p.frame.command ≡ command_response_file_error)
            × ((p.payload ≡ 0x08 ∷ []) ⊎ ((p.payload ≡ 0x10 ∷ []) ⊎ (p.payload ≡ 0x40 ∷ [])))))

append_command :
    (p : MaplePacket) (words : List ℕ) (order : ByteOrder)
    → (append_payload p words order).frame.command ≡ p.frame.command
unfolding append_payload update_frame_length
append_command p [] order = refl
append_command p (w ∷ words) order = refl

abbrev pub IsAnswered : Handled → Type 0
IsAnswered h = (h.handled ≡ true) × IsAnswer h.out

file_error-IsAnswer :
    (out : MaplePacket) (reason : ℕ)
    → (reason ≡ 0x08) ⊎ ((reason ≡ 0x10) ⊎ (reason ≡ 0x40))
    → IsAnswer (file_error out reason)
unfolding file_error set_payload_word set_payload append_payload update_frame_length
file_error-IsAnswer out reason h = ground arith

-- A data answer with no payload yet.
abbrev started : MaplePacket → MaplePacket
started out = record (with_command out command_response_data_xfer) {
  payload = [];
  payload_byte_order = host;
}

information_answer-IsAnswered :
    (block : Option (List ℕ)) (out : MaplePacket) → IsAnswered (information_answer block out)
unfolding information_answer set_payload
information_answer-IsAnswered none out = (refl, file_error-IsAnswer out 0x40 (inr (inr refl)))
information_answer-IsAnswered (some block) out =
    (refl, inr (inl (append_command (started out) (memory_information block) host)))

read_answer-IsAnswered :
    (block : Option (List ℕ)) (location_word : ℕ) (out : MaplePacket)
    → IsAnswered (read_answer block location_word out)
unfolding read_answer set_payload append_payload_word
read_answer-IsAnswered none location_word out =
    (refl, file_error-IsAnswer out 0x40 (inr (inr refl)))
read_answer-IsAnswered (some block) location_word out =
    let coded = append_payload (started out) (device_fn_storage ∷ []) host in
    (
      refl,
      inr (
          inl (
            append_command (append_payload coded (location_word ∷ []) host)
              (take words_per_block (words_of block)) network
            ∙ append_command coded (location_word ∷ []) host
            ∙ append_command (started out) (device_fn_storage ∷ []) host)),
    )

module _ (memory : SystemMemory) where
  block_read-IsAnswered :
      (s : Storage memory) (location_word : ℕ) (out : MaplePacket)
      → IsAnswered (block_read memory s location_word out).1
  unfolding block_read
  block_read-IsAnswered s location_word out =
      elim (Bool-cases
        (leb num_blocks (block_offset location_word) || not (location_phase location_word == 0))) [
          | inl outside ↦ rw outside (refl, file_error-IsAnswer out 0x10 (inr (inl refl)))
          | inr inside ↦ rw inside (
              read_answer-IsAnswered (read_block memory s (block_offset location_word)).1
                location_word out)
        ]

  block_write-IsAnswered :
      (s : Storage memory) (location_word : ℕ) (words : List ℕ) (out : MaplePacket)
      → IsAnswered (block_write memory s location_word words out).1
  unfolding block_write
  block_write-IsAnswered s location_word words out =
      elim (Bool-cases (
        leb num_blocks (block_offset location_word)
        || leb writes_per_block (location_phase location_word)
        || not (length words == 32))) [
          | inl outside ↦ rw outside (refl, file_error-IsAnswer out 0x10 (inr (inl refl)))
          | inr inside ↦ rw inside (refl, inl refl)
        ]

  get_last_error-IsAnswered :
      (s : Storage memory) (location_word : ℕ) (out : MaplePacket)
      → IsAnswered (get_last_error memory s location_word out).1
  unfolding get_last_error
  get_last_error-IsAnswered s location_word out =
      elim (Bool-cases (
        leb num_blocks (block_offset location_word)
        || not (location_phase location_word == writes_per_block))) [
          | inl outside ↦ rw outside (refl, file_error-IsAnswer out 0x10 (inr (inl refl)))
          | inr inside ↦
              elim (Bool-cases (write_block memory s (block_offset location_word) s.data_block).2) [
                | inl stored ↦ rw (inside, stored) (refl, inl refl)
                | inr fails ↦ rw (inside, fails) (refl, file_error-IsAnswer out 0x08 (inl refl))
              ]
        ]

  -- A packet that is handled, by its command and its payload.
  abbrev pub IsHandled : MaplePacket → Type 0
  IsHandled p =
      (p.frame.command ≡ 0xA)
      ⊎ ((1 < length p.payload) × (0xB ≤ p.frame.command) × (p.frame.command ≤ 0xD))

  located_command-IsAnswered :
      (command : ℕ) (s : Storage memory) (location_word : ℕ) (words : List ℕ) (out : MaplePacket)
      → 0xB ≤ command
      → command ≤ 0xD
      → IsAnswered (located_command memory command s location_word words out).1
  unfolding located_command
  located_command-IsAnswered command s location_word words out low high =
      elim (Bool-cases (command == 0xB)) [
        | inl b ↦ rw b (block_read-IsAnswered s location_word out)
        | inr not_b ↦ elim (Bool-cases (command == 0xC)) [
          | inl c ↦ rw (not_b, c) (block_write-IsAnswered s location_word words out)
          | inr not_c ↦
              let d : (command == 0xD) ≡ true = ground (arith, not_b, not_c) in
              rw (not_b, not_c, d) (get_last_error-IsAnswered s location_word out)
        ]
      ]

  unlocated :
      (command : ℕ) (s : Storage memory) (location_word : ℕ) (words : List ℕ) (out : MaplePacket)
      → (leb 0xB command && leb command 0xD) ≡ false
      → located_command memory command s location_word words out
        ≡ (s, record { out = out; handled = false })
  unfolding located_command
  unlocated command s location_word words out other =
      let b : (command == 0xB) ≡ false = ground (arith, other) in
      let c : (command == 0xC) ≡ false = ground (arith, other) in
      let d : (command == 0xD) ≡ false = ground (arith, other) in rw (b, c, d) refl

  -- A located command, by the payload.
  by_payload :
      (s : Storage memory) (out : MaplePacket) (command : ℕ) (payload : List ℕ)
      → (((1 < length payload) × (0xB ≤ command) × (command ≤ 0xD))
          × IsAnswered (block_command memory command s payload out).1)
        ⊎ (¬ ((1 < length payload) × (0xB ≤ command) × (command ≤ 0xD))
            × (block_command memory command s payload out
                ≡ (s, record { out = out; handled = false })))
  unfolding block_command
  by_payload s out command [] = inr (λ h. absurd (omega (arith, h)), refl)
  by_payload s out command (code ∷ []) = inr (λ h. absurd (omega (arith, h)), refl)
  by_payload s out command (code ∷ location_word ∷ words) =
      elim (Bool-cases (leb 0xB command && leb command 0xD)) [
        | inl located ↦ inl (
          (omega arith, ground (arith, located), ground (arith, located)),
          located_command-IsAnswered command s location_word words out (ground (arith, located))
              (ground (arith, located)),
        )
        | inr other ↦ inr (
          λ h. absurd (ground (arith, h, other)),
          unlocated command s location_word words out other,
        )
      ]

  -- A packet is handled if it asks for the memory information, or is one of the three block commands
  -- and has a location word; it is then answered, by an acknowledgement, by data, or by a file error
  -- with one of the three reasons. Any other packet is not handled and changes nothing.
  pub handle_packet-IsAnswer :
      (s : Storage memory) (p out : MaplePacket)
      → (IsHandled p × IsAnswered (handle_packet memory s p out).1)
        ⊎ (¬ IsHandled p
            × (handle_packet memory s p out ≡ (s, record { out = out; handled = false })))
  unfolding handle_packet get_memory_information
  handle_packet-IsAnswer s p out = elim (Bool-cases (p.frame.command == 0xA)) [
    | inl info ↦ inl (
      inl (ground (arith, info)),
      rw info (information_answer-IsAnswered (read_block memory s system_block_no).1 out),
    )
    | inr other ↦ elim (by_payload s out p.frame.command p.payload) [
      | inl h ↦ inl (inr h.0, rw other h.1)
      | inr h ↦ inr (λ handled. h.0 (is_located handled other), rw other h.1)
    ]
  ]
    where
      is_located :
          IsHandled p
          → (p.frame.command == 0xA) ≡ false
          → (1 < length p.payload) × (0xB ≤ p.frame.command) × (p.frame.command ≤ 0xD)
      is_located (inl info) other = absurd (ground (arith, info, other))
      is_located (inr located) other = located
