-- ===== src/WebUsb/Headers.antt =====
-- WebUsbProcessorBase::tryReadPacketHeader: a header fed to a machine that waits for one.
use dream_pico_port.Prelude.{
  ℕ, zero, suc, take, ◌+◌, ◌-◌, ◌/◌, ◌%◌, ◌^◌, ◌≤◌, ◌<◌, ◌≡◌, refl, ap, ◌∙◌, bit_xor, List, [], ◌∷◌,
  ◌++◌, length, set, arith,
}
use dream_pico_port.Prelude.Bits.{bit_xor_complement}
use dream_pico_port.NetworkBytes.{uint16_to_bytes}
use dream_pico_port.NetworkBytes.Laws.{
  bytes_to_uint16-halves, uint16_to_bytes_quotient, bit_xor_all_ones,
}
use dream_pico_port.WebUsb.{
  WebUsbProcessor, reset, size_field, inverse_size_field, check_sizes, webusb_magic_value,
}
use dream_pico_port.WebUsb.Automaton.{magic_byte, size_byte, byte, feed}

-- Nothing of a packet has come in.
pub record IsIdle (s : WebUsbProcessor) : Type 0 where
  pub idle_idx : s.rcv_idx ≡ 0
  pub four_sizes : length s.size_bytes ≡ 4

feed-magic :
    (s : WebUsbProcessor) (rest : List ℕ)
    → feed (record s { rcv_idx = 0 }) (webusb_magic_value ++ rest)
      ≡ feed (record s { rcv_idx = 4 }) rest
unfolding feed byte magic_byte
feed-magic s rest = refl

feed-sizes :
    (s : WebUsbProcessor) (a b c d : ℕ) (rest : List ℕ)
    → feed (record s { rcv_idx = 4 }) (a ∷ b ∷ c ∷ d ∷ rest)
      ≡ feed
          (check_sizes (record s {
            rcv_idx = 8;
            size_bytes = set (set (set (set s.size_bytes 0 a) 1 b) 2 c) 3 d;
          })).0
          rest
unfolding feed byte size_byte
feed-sizes s a b c d rest = refl

set_four :
    (l : List ℕ) (a b c d : ℕ)
    → length l ≡ 4
    → set (set (set (set l 0 a) 1 b) 2 c) 3 d ≡ a ∷ b ∷ c ∷ d ∷ []
set_four [] a b c d h = absurd (omega arith)
set_four (x ∷ []) a b c d h = absurd (omega arith)
set_four (x ∷ y ∷ []) a b c d h = absurd (omega arith)
set_four (x ∷ y ∷ z ∷ []) a b c d h = absurd (omega arith)
set_four (x ∷ y ∷ z ∷ w ∷ []) a b c d h = refl
set_four (x ∷ y ∷ z ∷ w ∷ v ∷ l) a b c d h = absurd (omega arith)

-- The bytes of a size and of its complement.
abbrev pub sizes_of : ℕ → List ℕ
sizes_of n = (n / 256) ∷ (n % 256) ∷ ((65535 - n) / 256) ∷ ((65535 - n) % 256) ∷ []

check_sizes-good :
    (s : WebUsbProcessor) (n : ℕ)
    → 4 ≤ n
    → n < 2 ^ 16
    → s.size_bytes ≡ sizes_of n
    → (check_sizes s).0 ≡ record s { rcv_size = n; buffer = [] }
unfolding check_sizes
check_sizes-good s n h k e =
    let f : size_field s ≡ n = unfold size_field in rw e (bytes_to_uint16-halves n k) in
    let g : inverse_size_field s ≡ 65535 - n =
      unfold inverse_size_field in rw e (bytes_to_uint16-halves (65535 - n) (omega arith)) in
    let x : bit_xor n (65535 - n) + 1 ≡ 2 ^ 16 =
      bit_xor_complement 16 n (65535 - n) (omega arith) in
    rw (f, g) (ground arith)

-- The state behind the header of a packet of `n` bytes.
abbrev pub header_done : WebUsbProcessor → ℕ → WebUsbProcessor
header_done s n = record s { rcv_idx = 8; size_bytes = sizes_of n; rcv_size = n; buffer = [] }

pub feed-header :
    (s : WebUsbProcessor) (n : ℕ) (rest : List ℕ)
    → IsIdle s
    → 4 ≤ n
    → n < 2 ^ 16
    → feed s
        (webusb_magic_value ++ (uint16_to_bytes n ++ (uint16_to_bytes (bit_xor n 0xFFFF) ++ rest)))
      ≡ feed (header_done s n) rest
feed-header s n rest v h k =
    rw
      (
        bit_xor_all_ones n k,
        uint16_to_bytes_quotient n k,
        uint16_to_bytes_quotient (65535 - n) (omega arith),
      )
      (ap (λ t. feed t (webusb_magic_value ++ (sizes_of n ++ rest)))
          (λ i. record s { rcv_idx = v.idle_idx i })
        ∙ feed-magic s (sizes_of n ++ rest)
        ∙ feed-sizes s (n / 256) (n % 256) ((65535 - n) / 256) ((65535 - n) % 256) rest
        ∙ ap (λ t. feed t rest)
            (ap (λ l. (check_sizes (record s { rcv_idx = 8; size_bytes = l })).0)
                (set_four s.size_bytes (n / 256) (n % 256) ((65535 - n) / 256) ((65535 - n) % 256)
                  v.four_sizes)
              ∙ check_sizes-good (record s { rcv_idx = 8; size_bytes = sizes_of n }) n h k refl))

-- From the start of a magic value on.
feed_from_start :
    (s : WebUsbProcessor) (k : ℕ) (rest : List ℕ)
    → 1 ≤ k
    → k < 4
    → feed (record s { rcv_idx = 0 }) (take k webusb_magic_value ++ (webusb_magic_value ++ rest))
      ≡ feed (reset s) rest
unfolding feed byte magic_byte reset
feed_from_start s zero rest least most = absurd (omega arith)
feed_from_start s (suc zero) rest least most = refl
feed_from_start s (suc (suc zero)) rest least most = refl
feed_from_start s (suc (suc (suc zero))) rest least most = refl
feed_from_start s (suc (suc (suc (suc k)))) rest least most = absurd (omega arith)

-- The start of a magic value just before a magic value hides that value.
pub feed-stray :
    (s : WebUsbProcessor) (k : ℕ) (rest : List ℕ)
    → IsIdle s
    → 1 ≤ k
    → k < 4
    → feed s (take k webusb_magic_value ++ (webusb_magic_value ++ rest)) ≡ feed (reset s) rest
feed-stray s k rest i least most =
    ap (λ t. feed t (take k webusb_magic_value ++ (webusb_magic_value ++ rest)))
      (λ j. record s { rcv_idx = i.idle_idx j })
    ∙ feed_from_start s k rest least most
