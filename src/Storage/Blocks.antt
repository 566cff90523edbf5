-- ===== src/Storage/Blocks.antt =====
-- src/clientLib/DreamcastStorage.cpp: blocks as words and as bytes.
use dream_pico_port.Prelude.{
  ℕ, suc, ◌+◌, ◌*◌, ◌/◌, ◌^◌, ◌≤◌, ◌<◌, ◌≡◌, refl, ap, ap₂, u8, List, [], ◌∷◌, ◌++◌, map, length,
  drop, arith,
}
use dream_pico_port.Prelude.Bits.{join_bytes, bit_and_low}
use dream_pico_port.Frame.{flip_word_bytes}
use dream_pico_port.Frame.Words.{flip_word_bytes_lem}
use dream_pico_port.Packet.Contents.{IsWords}
use dream_pico_port.Memory.{overwrite}
use dream_pico_port.Storage.{words_of, bytes_of, block_offset, location_phase}

pub words_of-bytes_of : (words : List ℕ) → IsWords words → words_of (bytes_of words) ≡ words
unfolding words_of bytes_of
words_of-bytes_of [] h = refl
words_of-bytes_of (w ∷ words) h =
    let whole : join_bytes (u8 w) (u8 (w / 2 ^ 8)) (u8 (w / 2 ^ 16)) (u8 (w / 2 ^ 24)) ≡ w =
      omega (arith, h.0) in
    ap₂ ◌∷◌ whole (words_of-bytes_of words h.1)

pub length-bytes_of : (words : List ℕ) → length (bytes_of words) ≡ 4 * length words
unfolding bytes_of
length-bytes_of [] = refl
length-bytes_of (w ∷ words) = omega (arith, length-bytes_of words)

pub bytes_of-append : (xs ys : List ℕ) → bytes_of (xs ++ ys) ≡ bytes_of xs ++ bytes_of ys
unfolding bytes_of
bytes_of-append [] ys = refl
bytes_of-append (x ∷ xs) ys =
    ap (λ t. u8 x ∷ u8 (x / 2 ^ 8) ∷ u8 (x / 2 ^ 16) ∷ u8 (x / 2 ^ 24) ∷ t) (bytes_of-append xs ys)

pub length-flip : (words : List ℕ) → length (map flip_word_bytes words) ≡ length words
length-flip [] = refl
length-flip (w ∷ words) = ap suc (length-flip words)

pub flip-IsWords : (words : List ℕ) → IsWords words → IsWords (map flip_word_bytes words)
flip-IsWords [] h = tt
flip-IsWords (w ∷ words) h = (omega (arith, h.0, flip_word_bytes_lem w h.0), flip-IsWords words h.1)

overwrite_start :
    (old ds : List ℕ) → length ds ≤ length old → overwrite old 0 ds ≡ ds ++ drop (length ds) old
unfolding overwrite
overwrite_start [] [] h = refl
overwrite_start [] (d ∷ ds) h = absurd (omega arith)
overwrite_start (x ∷ old) [] h = refl
overwrite_start (x ∷ old) (d ∷ ds) h = ap (◌∷◌ d) (overwrite_start old ds (omega arith))

-- Bytes behind a beginning that is done.
pub overwrite_behind :
    (done old ds : List ℕ)
    → length ds ≤ length old
    → overwrite (done ++ old) (length done) ds ≡ done ++ (ds ++ drop (length ds) old)
unfolding overwrite
overwrite_behind [] old ds h = overwrite_start old ds h
overwrite_behind (x ∷ done) old ds h = ap (◌∷◌ x) (overwrite_behind done old ds h)

pub location :
    (block phase : ℕ)
    → block < 2 ^ 16
    → phase < 2 ^ 8
    → (block_offset (block + phase * 2 ^ 16) ≡ block)
      × (location_phase (block + phase * 2 ^ 16) ≡ phase)
location block phase hb hp = (
  ground (arith, bit_and_low 16 (block + phase * 2 ^ 16)),
  ground (arith, bit_and_low 8 ((block + phase * 2 ^ 16) / 2 ^ 16)),
)
