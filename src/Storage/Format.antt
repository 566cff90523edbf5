-- ===== src/Storage/Format.antt =====
-- src/clientLib/DreamcastStorage.cpp, `format` and setFatAddr: the blocks of an empty memory unit.
use dream_pico_port.Prelude.{
  ℕ, zero, suc, ◌-◌, Bool, true, false, bit_and, bit_or, if◌then◌else◌, List, ◌++◌, replicate,
  get_or, set,
}
use dream_pico_port.Frame.{flip_word_bytes}
use dream_pico_port.Memory.{overwrite}
use dream_pico_port.Storage.{
  SystemMemory, Storage, bytes_of, words_per_block, num_blocks, system_block_no, fat_block_no,
  file_info_block_no, num_file_info_blocks, half_words, u16_to_upper_half_word,
  u16_to_lower_half_word, write_block, set_default_media_info_flipped,
}

-- fatBlock as an index, with `lower`.
pub record FatCursor : Type 0 where
  pub words : List ℕ
  pub index : ℕ
  pub lower : Bool

unfoldable pub set_fat_addr : FatCursor → ℕ → FatCursor
set_fat_addr c value =
    let word = flip_word_bytes (get_or c.words c.index 0) in
    if c.lower
    then record c {
      words =
          set c.words c.index
            (flip_word_bytes (bit_or (bit_and word 0xFFFF0000) (u16_to_lower_half_word value)));
      lower = false;
    }
    else record {
      words =
          set c.words c.index
            (flip_word_bytes (bit_or (u16_to_upper_half_word value) (bit_and word 0x0000FFFF)));
      index = c.index - 1;
      lower = true;
    }

-- Each block of the file information links to the one before it.
unfoldable pub link_file_info : ℕ → ℕ → FatCursor → FatCursor
link_file_info zero addr c = c
link_file_info (suc rounds) addr c = link_file_info rounds (addr - 1) (set_fat_addr c (addr - 1))

unfoldable pub fat_words : List ℕ
fat_words =
    let start : FatCursor = record {
      words = replicate words_per_block (flip_word_bytes (half_words 0xFFFC 0xFFFC));
      index = words_per_block - 1;
      lower = true;
    } in
    (set_fat_addr
      (link_file_info (num_file_info_blocks - 1) (num_blocks - 1 - 1 - 1)
        (set_fat_addr (set_fat_addr start 0xFFFA) 0xFFFA))
      0xFFFA).words

unfoldable pub system_words : List ℕ
system_words =
    overwrite
      (set
        (set (replicate 4 0x55555555 ++ replicate (words_per_block - 4) 0) 12
          (flip_word_bytes 0x19990909))
        13 (flip_word_bytes 0x00001000))
      16 (set_default_media_info_flipped 0 6)

module _ (memory : SystemMemory) where
  -- A block that is set up in mDataBlock and written.
  unfoldable pub write_words : Storage memory → ℕ → List ℕ → Storage memory × Bool
  write_words s block_num words =
      let w = write_block memory s block_num (bytes_of words) in
      (record (w.0) { data_block = w.1 }, w.2)

  -- Blocks from one downwards, until a write fails.
  unfoldable pub write_down : ℕ → Storage memory → ℕ → List ℕ → Storage memory × Bool
  write_down zero s block_num words = (s, true)
  write_down (suc rounds) s block_num words =
      let w = write_words s block_num words in
      let rest = write_down rounds (w.0) (block_num - 1) words in if w.1 then rest else w

  unfoldable pub format : Storage memory → Storage memory × Bool
  format s =
      let system = write_words s system_block_no system_words in
      let fat = write_words (system.0) fat_block_no fat_words in
      if system.1
      then (if fat.1
          then write_down num_file_info_blocks (fat.0) file_info_block_no
              (replicate words_per_block 0)
          else fat)
      else system
