-- ===== src/Storage/RoundTrip.antt =====
-- src/clientLib/DreamcastStorage.cpp, handlePacket: a block that is written, committed and read.
use dream_pico_port.Prelude.{
  ℕ, ◌+◌, ◌*◌, ◌^◌, ◌<◌, ◌≡◌, refl, ap, sym, subst, ◌∙◌, Bool, true, false, ◌==◌, leb,
  if◌then◌else◌, List, [], ◌∷◌, ◌++◌, map, length, take, All, All-append, length-append, append-nil,
  take-length, some, arith,
}
use dream_pico_port.Frame.{ByteOrder, host, network, flip_word_bytes}
use dream_pico_port.Packet.{
  MaplePacket, in_order, set_payload, set_payload_word, append_payload, append_payload_word,
  update_frame_length,
}
use dream_pico_port.Packet.Contents.{IsWords, flip_twice}
use dream_pico_port.Storage.{
  SystemMemory, Storage, Handled, words_of, bytes_of, read_block, write_block, with_save_area,
  with_command, file_error, device_fn_storage, command_response_ack, command_response_data_xfer,
  block_address,
}
use dream_pico_port.Storage.Blocks.{
  words_of-bytes_of, length-bytes_of, length-flip, flip-IsWords, location,
}
use dream_pico_port.Storage.Commands.{
  read_answer, block_read, get_last_error, located_command, block_command, handle_packet,
}
use dream_pico_port.Storage.Transfers.{
  request, flatten, IsChunk, send_chunks, send_chunks_lem, holding,
}

length-flatten :
    (chunks : List (List ℕ)) → All IsChunk chunks → length (flatten chunks) ≡ length chunks * 32
length-flatten [] h = omega arith
length-flatten (c ∷ chunks) h =
    omega (arith, (h.0).0, length-append c (flatten chunks), length-flatten chunks h.1)

flatten-IsWords : (chunks : List (List ℕ)) → All IsChunk chunks → IsWords (flatten chunks)
flatten-IsWords [] h = tt
flatten-IsWords (c ∷ chunks) h =
    All-append (λ w. w < 2 ^ 32) c (flatten chunks) (h.0).1 (flatten-IsWords chunks h.1)

in_order-nil : (p o : ByteOrder) → in_order p o [] ≡ []
in_order-nil host host = refl
in_order-nil host network = refl
in_order-nil network host = refl
in_order-nil network network = refl

append_payload_payload :
    (p : MaplePacket) (words : List ℕ) (order : ByteOrder)
    → (append_payload p words order).payload
      ≡ p.payload ++ in_order p.payload_byte_order order words
unfolding append_payload
append_payload_payload p [] order =
    sym (ap (◌++◌ p.payload) (in_order-nil p.payload_byte_order order) ∙ append-nil p.payload)
append_payload_payload p (w ∷ words) order = refl

module _ (memory : SystemMemory) where
  -- GET_LAST_ERROR for a block, as the last phase.
  abbrev pub commit : Storage memory → ℕ → MaplePacket → Storage memory × Handled
  commit s block out = handle_packet memory s (request 0xD block 4 []) out

  abbrev pub fetch : Storage memory → ℕ → MaplePacket → Storage memory × Handled
  fetch s block out = handle_packet memory s (request 0xB block 0 []) out

  commit_lem :
      (s : Storage memory) (block : ℕ) (out : MaplePacket)
      → block < 255
      → let w = memory.write s.system_memory (block_address memory s block) s.data_block in
        commit s block out ≡ (
          record s { system_memory = w.0 },
          if w.1.success
              then record { out = with_command out command_response_ack; handled = true }
              else record { out = file_error out 0x08; handled = true },
        )
  unfolding handle_packet block_command located_command get_last_error write_block with_save_area
  commit_lem s block out hb =
      let l = location block 4 (omega arith) (omega arith) in
      let in_range : leb 256 block ≡ false = ground arith in
      let other : (block == 255) ≡ false = ground arith in rw (l.0, l.1, in_range, other) refl

  fetch_lem :
      (s : Storage memory) (block : ℕ) (out : MaplePacket) (bytes : List ℕ)
      → block < 255
      → (memory.read s.system_memory (block_address memory s block) 512).1
        ≡ record { bytes = some bytes; size = 512 }
      → (fetch s block out).1 ≡ record {
        out =
            append_payload
              (append_payload_word
                (set_payload
                  (with_command out command_response_data_xfer)
                  (device_fn_storage ∷ [])
                  host)
                (block + 0 * 2 ^ 16)
                host)
              (take 128 (words_of bytes))
              network;
        handled = true;
      }
  unfolding handle_packet block_command located_command block_read read_block read_answer
  fetch_lem s block out bytes hb e =
      let l = location block 0 (omega arith) (omega arith) in
      let in_range : leb 256 block ≡ false = ground arith in rw (l.0, l.1, in_range, e) refl

  -- The answer to a read of words that were stored in the other byte order.
  answer_payload :
      (out : MaplePacket) (location_word : ℕ) (words : List ℕ)
      → IsWords words
      → (append_payload
          (append_payload_word
            (set_payload
              (with_command out command_response_data_xfer)
              (device_fn_storage ∷ [])
              host)
            location_word
            host)
          (map flip_word_bytes words)
          network).payload
        ≡ device_fn_storage ∷ location_word ∷ words
  unfolding append_payload_word set_payload append_payload update_frame_length
  answer_payload out location_word words h =
      append_payload_payload _ (map flip_word_bytes words) network
      ∙ ap (λ t. device_fn_storage ∷ location_word ∷ t) (flip_twice words h)

  abbrev answer_of : MaplePacket → ℕ → List ℕ → MaplePacket
  answer_of out location_word words =
      append_payload
        (append_payload_word
          (set_payload (with_command out command_response_data_xfer) (device_fn_storage ∷ []) host)
          location_word host)
        words network

  answer_command :
      (out : MaplePacket) (location_word : ℕ) (words : List ℕ)
      → (answer_of out location_word words).frame.command ≡ command_response_data_xfer
  unfolding append_payload_word set_payload append_payload update_frame_length
  answer_command out location_word [] = refl
  answer_command out location_word (w ∷ words) = refl

  abbrev commit_answer : Bool → MaplePacket → Handled
  commit_answer success out =
      if success
      then record { out = with_command out command_response_ack; handled = true }
      else record { out = file_error out 0x08; handled = true }

  -- An acknowledged write was a success.
  acknowledged :
      (success : Bool) (out : MaplePacket)
      → (commit_answer success out).out.frame.command ≡ command_response_ack
      → success ≡ true
  unfolding file_error set_payload_word set_payload append_payload update_frame_length
  acknowledged true out ack = refl
  acknowledged false out ack = absurd (omega (arith, ack))

  -- If the four phases of a block are written by BLOCK_WRITE, 32 words each, and GET_LAST_ERROR then
  -- acknowledges that the block is stored, a BLOCK_READ of this block answers with data: the function
  -- code, the location word and the words that were written. The block is any but the system block.
  pub fetch-commit :
      (s : Storage memory) (block : ℕ) (chunks : List (List ℕ)) (out : MaplePacket)
      → block < 255
      → length chunks ≡ 4
      → All IsChunk chunks
      → length s.data_block ≡ 512
      → (commit (send_chunks memory s block 0 chunks out) block out).1.out.frame.command
        ≡ command_response_ack
      → let answer =
          (fetch (commit (send_chunks memory s block 0 chunks out) block out).0 block out).1 in
        (answer.handled ≡ true)
        × (answer.out.frame.command ≡ command_response_data_xfer)
        × (answer.out.payload ≡ device_fn_storage ∷ block ∷ flatten chunks)
  fetch-commit s block chunks out hb four hc sized ack =
      let words = flatten chunks in
      let flipped = map flip_word_bytes words in
      let bytes = bytes_of flipped in
      let sent : send_chunks memory s block 0 chunks out ≡ holding memory s bytes =
        send_chunks_lem memory chunks s block 0 out [] s.data_block (omega arith)
          (omega (arith, four)) hc refl (omega (arith, sized, four)) refl in
      let counted : length bytes ≡ 512 =
        omega (arith, length-bytes_of flipped, length-flip words, length-flatten chunks hc, four) in
      let address = block_address memory s block in
      let committed =
        ap (λ t. commit t block out) sent ∙ commit_lem (holding memory s bytes) block out hb in
      let success : (memory.write s.system_memory address bytes).1.success ≡ true =
        acknowledged (memory.write s.system_memory address bytes).1.success out
          (sym (ap (λ t. t.1.out.frame.command) committed) ∙ ack) in
      let found =
        subst
          (λ n.
            (memory.read (memory.write s.system_memory address bytes).0 address n).1
            ≡ record { bytes = some bytes; size = n })
          counted
          (memory.write_reads s.system_memory address bytes (omega (arith, counted)) success) in
      let got =
        ap (λ t. (fetch t.0 block out).1) committed
        ∙ fetch_lem
            (record (holding memory s bytes) {
              system_memory = (memory.write s.system_memory address bytes).0;
            })
            block out bytes hb found in
      let stored : take 128 (words_of bytes) ≡ flipped =
        ap (take 128) (words_of-bytes_of flipped (flip-IsWords words (flatten-IsWords chunks hc)))
        ∙ take-length 128 flipped
            (omega (arith, length-flip words, length-flatten chunks hc, four)) in
      let same : block + 0 * 2 ^ 16 ≡ block = omega arith in
      (
        ap (λ h. h.handled) got,
        ap (λ h. h.out.frame.command) got
            ∙ answer_command out (block + 0 * 2 ^ 16) (take 128 (words_of bytes)),
        ap (λ h. h.out.payload) got
            ∙ ap (λ ws. (answer_of out (block + 0 * 2 ^ 16) ws).payload) stored
            ∙ answer_payload out (block + 0 * 2 ^ 16) words (flatten-IsWords chunks hc)
            ∙ ap (λ l. device_fn_storage ∷ l ∷ words) same,
      )
