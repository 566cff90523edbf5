-- ===== src/Storage/Transfers.antt =====
-- src/clientLib/DreamcastStorage.cpp, handlePacket: a block that is written and read back.
use dream_pico_port.Prelude.{
  ℕ, suc, ◌+◌, ◌*◌, ◌^◌, ◌≤◌, ◌<◌, ◌≡◌, refl, ap, sym, ◌∙◌, true, false, ◌==◌, leb, List, [], ◌∷◌,
  ◌++◌, map, length, drop, All, length-append, length-drop, append_assoc, arith,
}
use dream_pico_port.Frame.{host, flip_word_bytes}
use dream_pico_port.Packet.{MaplePacket}
use dream_pico_port.Packet.Contents.{IsWords, flip-append}
use dream_pico_port.Memory.{overwrite}
use dream_pico_port.Storage.{SystemMemory, Storage, bytes_of, device_fn_storage}
use dream_pico_port.Storage.Blocks.{
  length-bytes_of, bytes_of-append, length-flip, overwrite_behind, location,
}
use dream_pico_port.Storage.Commands.{block_write, located_command, block_command, handle_packet}

-- A packet with a command for a phase of a block.
abbrev pub request : ℕ → ℕ → ℕ → List ℕ → MaplePacket
request command block phase words = record {
  frame = record {
    command = command;
    recipient_addr = 0x01;
    sender_addr = 0;
    length = 2 + length words;
  };
  payload = device_fn_storage ∷ (block + phase * 2 ^ 16) ∷ words;
  payload_byte_order = host;
}

abbrev pub flatten : List (List ℕ) → List ℕ
flatten [] = []
flatten (c ∷ chunks) = c ++ flatten chunks

-- One phase's words.
abbrev pub IsChunk : List ℕ → Type 0
IsChunk c = (length c ≡ 32) × IsWords c

module _ (memory : SystemMemory) where
  -- BLOCK_WRITE for one phase after the other.
  unfoldable pub send_chunks : Storage memory → ℕ → ℕ → List (List ℕ) → MaplePacket → Storage memory
  send_chunks s block phase [] out = s
  send_chunks s block phase (c ∷ chunks) out =
      send_chunks (handle_packet memory s (request 0xC block phase c) out).0 block (suc phase)
        chunks out

  block_write_lem :
      (s : Storage memory) (block phase : ℕ) (words : List ℕ) (out : MaplePacket)
      → block < 256
      → phase < 4
      → length words ≡ 32
      → (handle_packet memory s (request 0xC block phase words) out).0 ≡ record s {
        data_block = overwrite s.data_block (phase * 128) (bytes_of (map flip_word_bytes words));
      }
  unfolding handle_packet block_command located_command block_write
  block_write_lem s block phase words out hb hp hw =
      let l = location block phase (omega arith) (omega arith) in
      let in_range : leb 256 block ≡ false = ground arith in
      let in_phase : leb 4 phase ≡ false = ground arith in
      let counted : (length words == 32) ≡ true = ground arith in
      rw (l.0, l.1, in_range, in_phase, counted) refl

  -- The block as it is held, with its part from a phase on replaced.
  abbrev pub holding : Storage memory → List ℕ → Storage memory
  holding s block = record s { data_block = block }

  chunk_bytes : (c : List ℕ) → length c ≡ 32 → length (bytes_of (map flip_word_bytes c)) ≡ 128
  chunk_bytes c h = omega (arith, h, length-bytes_of (map flip_word_bytes c), length-flip c)

  chunk_step :
      (s : Storage memory) (block phase : ℕ) (c : List ℕ) (out : MaplePacket) (done old : List ℕ)
      → block < 256
      → phase < 4
      → length c ≡ 32
      → length done ≡ phase * 128
      → 128 ≤ length old
      → s.data_block ≡ done ++ old
      → (handle_packet memory s (request 0xC block phase c) out).0
        ≡ holding s ((done ++ bytes_of (map flip_word_bytes c)) ++ drop 128 old)
  chunk_step s block phase c out done old hb hp hc hd ho e =
      let ds = bytes_of (map flip_word_bytes c) in
      let counted = chunk_bytes c hc in
      block_write_lem s block phase c out hb hp hc
      ∙ ap (holding s) (
          ap (λ d. overwrite d (phase * 128) ds) e
          ∙ ap (λ n. overwrite (done ++ old) n ds) (sym hd)
          ∙ overwrite_behind done old ds (omega (arith, counted))
          ∙ sym (append_assoc done ds (drop (length ds) old))
          ∙ ap (λ n. (done ++ ds) ++ drop n old) counted)

  pub send_chunks_lem :
      (chunks : List (List ℕ)) (s : Storage memory) (block phase : ℕ) (out : MaplePacket)
      (done old : List ℕ)
      → block < 256
      → phase + length chunks ≤ 4
      → All IsChunk chunks
      → length done ≡ phase * 128
      → length old ≡ length chunks * 128
      → s.data_block ≡ done ++ old
      → send_chunks s block phase chunks out
        ≡ holding s (done ++ bytes_of (map flip_word_bytes (flatten chunks)))
  unfolding send_chunks bytes_of
  send_chunks_lem [] s block phase out done [] hb hp hc hd ho e = λ i. holding s (e i)
  send_chunks_lem [] s block phase out done (x ∷ old) hb hp hc hd ho e = absurd (omega arith)
  send_chunks_lem (c ∷ chunks) s block phase out done old hb hp hc hd ho e =
      let ds = bytes_of (map flip_word_bytes c) in
      let words = flatten chunks in
      let rest = (done ++ ds) ++ drop 128 old in
      ap (λ t. send_chunks t block (suc phase) chunks out)
        (chunk_step s block phase c out done old hb (omega arith) (hc.0).0 hd (omega arith) e)
      ∙ send_chunks_lem chunks (holding s rest) block (suc phase) out (done ++ ds) (drop 128 old) hb
          (omega arith) hc.1 (omega (arith, hd, length-append done ds, chunk_bytes c (hc.0).0))
          (omega (arith, ho, length-drop 128 old)) refl
      ∙ ap (holding s) (
          append_assoc done ds (bytes_of (map flip_word_bytes words))
          ∙ ap (◌++◌ done) (
              sym (bytes_of-append (map flip_word_bytes c) (map flip_word_bytes words))
              ∙ ap bytes_of (sym (flip-append c words))))
