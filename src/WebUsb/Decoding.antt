-- ===== src/WebUsb/Decoding.antt =====
-- WebUsbProcessorBase::tryProcessCompletedPacket: the part of a packet that its CRC covers.
use dream_pico_port.Prelude.{
  ℕ, zero, suc, ◌+◌, ◌-◌, ◌*◌, ◌/◌, ◌%◌, ◌^◌, ◌≤◌, ◌<◌, ◌≡◌, refl, sym, ap, ◌∙◌, bit_and, List, [],
  ◌∷◌, ◌++◌, length, take, drop, get_or, take-append, length-append, append_assoc, some, arith,
}
use dream_pico_port.Prelude.Bits.{bit_and_shifted, bit_and_low}
use dream_pico_port.NetworkBytes.{uint16_to_bytes, compute_crc16, crc_seed}
use dream_pico_port.NetworkBytes.Laws.{
  compute_crc16_lt, bytes_to_uint16-halves, uint16_to_bytes_quotient,
}
use dream_pico_port.WebUsb.{address_size, get_address_size, stored_crc, decode}

-- Bytes with the high bit, up to one without it or up to `n` of them.
pub data IsAddress : ℕ → List ℕ → Type 0 where
  full : IsAddress 0 []
  last : (n b : ℕ) → b < 128 → IsAddress (suc n) (b ∷ [])
  more : (n b : ℕ) (bs : List ℕ) → 128 ≤ b → b < 256 → IsAddress n bs → IsAddress (suc n) (b ∷ bs)

pub IsAddress-nonempty : (n : ℕ) (a : List ℕ) → IsAddress (suc n) a → 1 ≤ length a
IsAddress-nonempty n a (last m b h) = omega arith
IsAddress-nonempty n a (more m b bs l h v) = omega arith

high_bit : (b : ℕ) → bit_and b 0x80 ≡ b / 128 % 2 * 128
high_bit b = bit_and_shifted 7 1 b ∙ ap (λ (m : ℕ). m * 128) (bit_and_low 1 (b / 128))

pub address_size-append :
    (n : ℕ) (a rest : List ℕ) → IsAddress n a → address_size n (a ++ rest) ≡ length a
unfolding address_size
address_size-append zero a rest full = refl
address_size-append (suc n) a rest (last m b h) = ground (arith, high_bit b)
address_size-append (suc n) a rest (more m b bs l h v) =
    ground (arith, high_bit b, address_size-append m bs rest v)

get_or-append :
    {A : Type 0} (xs : List A) (y : A) (ys : List A) (d : A)
    → get_or (xs ++ y ∷ ys) (length xs) d ≡ y
get_or-append [] y ys d = refl
get_or-append (x ∷ xs) y ys d = get_or-append xs y ys d

get_or-append_second :
    {A : Type 0} (xs : List A) (y z : A) (ys : List A) (d : A)
    → get_or (xs ++ y ∷ z ∷ ys) (length xs + 1) d ≡ z
get_or-append_second [] y z ys d = refl
get_or-append_second (x ∷ xs) y z ys d =
    let e : length (x ∷ xs) + 1 ≡ suc (length xs + 1) = omega arith in
    rw e (get_or-append_second xs y z ys d)

drop-append_second :
    {A : Type 0} (xs : List A) (y : A) (ys : List A) → drop (length xs + 1) (xs ++ y ∷ ys) ≡ ys
drop-append_second [] y ys = refl
drop-append_second (x ∷ xs) y ys =
    let e : length (x ∷ xs) + 1 ≡ suc (length xs + 1) = omega arith in
    rw e (drop-append_second xs y ys)

-- The part that the CRC covers, and the CRC.
abbrev pub covered : List ℕ → ℕ → List ℕ → List ℕ
covered a cmd payload = a ++ (cmd ∷ payload)

abbrev pub body : List ℕ → ℕ → List ℕ → List ℕ
body a cmd payload =
    covered a cmd payload ++ uint16_to_bytes (compute_crc16 crc_seed (covered a cmd payload))

-- The last two bytes are the CRC.
module _ (xs : List ℕ) (crc : ℕ) (h : crc < 2 ^ 16) where
  tail_crc : xs ++ uint16_to_bytes crc ≡ xs ++ crc / 256 ∷ crc % 256 ∷ []
  tail_crc = ap (λ (l : List ℕ). xs ++ l) (uint16_to_bytes_quotient crc h)

  pub length-tail_crc : length (xs ++ uint16_to_bytes crc) ≡ length xs + 2
  length-tail_crc = ap length tail_crc ∙ length-append xs (crc / 256 ∷ crc % 256 ∷ [])

  stored_crc-tail : stored_crc (xs ++ uint16_to_bytes crc) ≡ crc
  unfolding stored_crc
  stored_crc-tail =
      let i : length (xs ++ uint16_to_bytes crc) - 2 ≡ length xs = omega (arith, length-tail_crc) in
      let j : length (xs ++ uint16_to_bytes crc) - 1 ≡ length xs + 1 =
        omega (arith, length-tail_crc) in
      rw
        (
          i,
          j,
          tail_crc,
          get_or-append xs (crc / 256) (crc % 256 ∷ []) 0,
          get_or-append_second xs (crc / 256) (crc % 256) [] 0,
        )
        (bytes_to_uint16-halves crc h)

  take-tail_crc : take (length (xs ++ uint16_to_bytes crc) - 2) (xs ++ uint16_to_bytes crc) ≡ xs
  take-tail_crc =
      let i : length (xs ++ uint16_to_bytes crc) - 2 ≡ length xs = omega (arith, length-tail_crc) in
      rw i (take-append xs (uint16_to_bytes crc))

-- The branches of `decode`.
decode-good :
    (p : List ℕ)
    → compute_crc16 crc_seed (take (length p - 2) p) ≡ stored_crc p
    → get_address_size p + 1 + 2 ≤ length p
    → decode p
      ≡ some (record {
        address = take (get_address_size p) p;
        cmd = get_or p (get_address_size p) 0;
        payload = take (length p - get_address_size p - 1 - 2) (drop (get_address_size p + 1) p);
      })
unfolding decode
decode-good p e h = ground arith

-- What is put together is taken apart again.
pub decode-body :
    (a : List ℕ) (cmd : ℕ) (payload : List ℕ)
    → IsAddress 9 a
    → decode (body a cmd payload) ≡ some (record { address = a; cmd = cmd; payload = payload })
decode-body a cmd payload v =
    rw
      (
        decode-good p
            (ap (λ l. compute_crc16 crc_seed l) (take-tail_crc xs crc small)
              ∙ sym (stored_crc-tail xs crc small))
            (omega (arith, size, count, long)),
        size,
      )
      (ap some (λ i. record { address = address i; cmd = command i; payload = rest i }))
  where
    xs : List ℕ
    xs = covered a cmd payload

    crc : ℕ
    crc = compute_crc16 crc_seed xs

    small : crc < 2 ^ 16
    small = compute_crc16_lt xs crc_seed (omega arith)

    p : List ℕ
    p = body a cmd payload

    tail : List ℕ
    tail = uint16_to_bytes crc

    parts : p ≡ a ++ (cmd ∷ (payload ++ tail))
    parts = append_assoc a (cmd ∷ payload) tail

    size : get_address_size p ≡ length a
    size = unfold get_address_size in rw parts (address_size-append 9 a (cmd ∷ (payload ++ tail)) v)

    count : length p ≡ length xs + 2
    count = length-tail_crc xs crc small

    long : length xs ≡ length a + suc (length payload)
    long = length-append a (cmd ∷ payload)

    address : take (length a) p ≡ a
    address = rw parts (take-append a (cmd ∷ (payload ++ tail)))

    command : get_or p (length a) 0 ≡ cmd
    command = rw parts (get_or-append a cmd (payload ++ tail) 0)

    rest : take (length p - length a - 1 - 2) (drop (length a + 1) p) ≡ payload
    rest =
        let n : length p - length a - 1 - 2 ≡ length payload = omega (arith, count, long) in
        rw (n, parts, drop-append_second a cmd (payload ++ tail)) (take-append payload tail)
