-- ===== src/WebUsb/Magic.antt =====
-- WebUsbProcessorBase's parseMagic and the loop over the size bytes, and the machine that takes one
-- byte at a time.
use dream_pico_port.Prelude.{
  ℕ, ◌+◌, ◌-◌, ◌≤◌, ◌<◌, ◌≡◌, refl, ap, ◌∙◌, ltb, List, [], ◌∷◌, length, set, Bool-cases, inl, inr,
  lt→ltb, ltb→lt, arith,
}
use dream_pico_port.WebUsb.{
  WebUsbProcessor, reset, parse_magic, read_sizes, read_header_bytes, check_sizes,
}
use dream_pico_port.WebUsb.Loop.{prepend}
use dream_pico_port.WebUsb.Automaton.{magic_byte, size_byte, byte, feed}

-- A step without a request leaves the rest as it is.
pub feed-quiet :
    (s t : WebUsbProcessor) (b : ℕ) (bs : List ℕ) → byte s b ≡ (t, []) → feed s (b ∷ bs) ≡ feed t bs
unfolding feed
feed-quiet s t b bs e = ap (λ r. prepend r.1 (feed r.0 bs)) e

pub byte-magic : (s : WebUsbProcessor) (b : ℕ) → s.rcv_idx < 4 → byte s b ≡ (magic_byte s b, [])
unfolding byte
byte-magic s b h = ground arith

pub byte-size :
    (s : WebUsbProcessor) (b : ℕ) → 4 ≤ s.rcv_idx → s.rcv_idx < 8 → byte s b ≡ (size_byte s b, [])
unfolding byte
byte-size s b h k = ground arith

pub magic_byte-bound : (s : WebUsbProcessor) (b : ℕ) → s.rcv_idx < 4 → (magic_byte s b).rcv_idx ≤ 4
unfolding magic_byte reset
magic_byte-bound s b h = ground arith

pub parse_magic-more :
    (s : WebUsbProcessor) (b : ℕ) (bs : List ℕ)
    → s.rcv_idx < 4
    → parse_magic s (b ∷ bs) ≡ parse_magic (magic_byte s b) bs
unfolding parse_magic magic_byte
parse_magic-more s b bs h = rw (lt→ltb s.rcv_idx 4 h, parse_magic) refl

pub parse_magic-done :
    (s : WebUsbProcessor) (bs : List ℕ) → 4 ≤ s.rcv_idx → parse_magic s bs ≡ (s, bs)
unfolding parse_magic
parse_magic-done s [] h = refl
parse_magic-done s (b ∷ bs) h = ground arith

-- Where the search for the magic value ends: with the magic value, or with no byte left.
pub record IsSearched (s : WebUsbProcessor) (bs : List ℕ) (r : WebUsbProcessor × List ℕ)
    : Type 0 where
  pub same : feed s bs ≡ feed r.0 r.1
  pub bound : r.0.rcv_idx ≤ 4
  pub stops : r.0.rcv_idx < 4 → r.1 ≡ []
  pub shrinks : length r.1 ≤ length bs

pub parse_magic-IsSearched :
    (s : WebUsbProcessor) (bs : List ℕ) → s.rcv_idx ≤ 4 → IsSearched s bs (parse_magic s bs)
parse_magic-IsSearched s [] h =
    unfold parse_magic in
    record { same = refl; bound = h; stops = λ k. refl; shrinks = omega arith }
parse_magic-IsSearched s (b ∷ bs) h =
    let next = magic_byte s b in
    elim (Bool-cases (ltb s.rcv_idx 4)) [
      | inl k ↦
          let lt : s.rcv_idx < 4 = ltb→lt s.rcv_idx 4 k in
          let rest = parse_magic-IsSearched (magic_byte s b) bs (magic_byte-bound s b lt) in
          rw (parse_magic-more s b bs lt) (record {
            same = feed-quiet s (magic_byte s b) b bs (byte-magic s b lt) ∙ rest.same;
            bound = rest.bound;
            stops = rest.stops;
            shrinks = omega (arith, rest.shrinks);
          })
      | inr k ↦ rw (parse_magic-done s (b ∷ bs) (ground arith)) (record {
        same = refl;
        bound = h;
        stops = λ m. absurd (ground arith);
        shrinks = omega arith;
      })
    ]

read_sizes-more :
    (s : WebUsbProcessor) (b : ℕ) (bs : List ℕ)
    → s.rcv_idx < 8
    → read_sizes s (b ∷ bs)
      ≡ read_sizes
          (record s { size_bytes = set s.size_bytes (s.rcv_idx - 4) b; rcv_idx = s.rcv_idx + 1 })
          bs
unfolding read_sizes
read_sizes-more s b bs h = rw (lt→ltb s.rcv_idx 8 h, read_sizes) refl

read_sizes-done : (s : WebUsbProcessor) (bs : List ℕ) → 8 ≤ s.rcv_idx → read_sizes s bs ≡ (s, bs)
unfolding read_sizes
read_sizes-done s [] h = refl
read_sizes-done s (b ∷ bs) h = ground arith

-- Where the sizes end: with no byte left, or complete, and then the machine has checked them.
pub record IsSized (s : WebUsbProcessor) (bs : List ℕ) (r : WebUsbProcessor × List ℕ) : Type 0 where
  pub early : r.0.rcv_idx < 8 → (feed s bs ≡ (r.0, [])) × (r.1 ≡ [])
  pub full : 8 ≤ r.0.rcv_idx → feed s bs ≡ feed (check_sizes r.0).0 r.1
  pub bound : r.0.rcv_idx ≤ 8
  pub shrinks : 8 ≤ r.0.rcv_idx → length r.1 < length bs

pub size_byte-last :
    (s : WebUsbProcessor) (b : ℕ)
    → s.rcv_idx ≡ 7
    → size_byte s b
      ≡ (check_sizes
          (record s { size_bytes = set s.size_bytes (s.rcv_idx - 4) b; rcv_idx = s.rcv_idx + 1 })).0
unfolding size_byte
size_byte-last s b h = rw (h, size_byte) refl

pub size_byte-more :
    (s : WebUsbProcessor) (b : ℕ)
    → s.rcv_idx < 7
    → size_byte s b
      ≡ record s { size_bytes = set s.size_bytes (s.rcv_idx - 4) b; rcv_idx = s.rcv_idx + 1 }
unfolding size_byte
size_byte-more s b h = ground arith

pub read_sizes-IsSized :
    (s : WebUsbProcessor) (bs : List ℕ)
    → (s.rcv_idx < 4 → bs ≡ [])
    → s.rcv_idx < 8
    → IsSized s bs (read_sizes s bs)
read_sizes-IsSized s [] l h =
    unfold read_sizes in
    record {
      early = λ k. (unfold feed in refl, refl);
      full = λ k. absurd (omega arith);
      bound = omega arith;
      shrinks = λ k. absurd (omega arith);
    }
read_sizes-IsSized s (b ∷ bs) some_left h =
    let l : 4 ≤ s.rcv_idx = elim (Bool-cases (ltb s.rcv_idx 4)) [
      | inl k ↦ absurd (cc (some_left (ltb→lt s.rcv_idx 4 k)))
      | inr k ↦ ground arith
    ] in
    let next : WebUsbProcessor = record s {
      size_bytes = set s.size_bytes (s.rcv_idx - 4) b;
      rcv_idx = s.rcv_idx + 1;
    } in
    rw (read_sizes-more s b bs h) (elim (Bool-cases (ltb s.rcv_idx 7)) [
      | inl k ↦
          let lt : s.rcv_idx < 7 = ltb→lt s.rcv_idx 7 k in
          let rest = read_sizes-IsSized next bs (λ m. absurd (omega arith)) (omega arith) in
          let same : feed s (b ∷ bs) ≡ feed next bs =
            feed-quiet s next b bs
              (byte-size s b l h ∙ ap (λ t. (t, [])) (size_byte-more s b lt)) in
          record {
            early = λ m. (same ∙ (rest.early m).0, (rest.early m).1);
            full = λ m. same ∙ rest.full m;
            bound = rest.bound;
            shrinks = λ m. omega (arith, rest.shrinks m);
          }
      | inr k ↦
          let last : s.rcv_idx ≡ 7 = ground arith in
          rw (read_sizes-done next bs (omega arith)) (record {
            early = λ m. absurd (omega arith);
            full = λ m.
                feed-quiet s (check_sizes next).0 b bs
                  (byte-size s b l h ∙ ap (λ t. (t, [])) (size_byte-last s b last));
            bound = omega arith;
            shrinks = λ m. omega arith;
          })
    ])

pub read_header_bytes-IsSized :
    (s : WebUsbProcessor) (bs : List ℕ) → s.rcv_idx < 8 → IsSized s bs (read_header_bytes s bs)
unfolding read_header_bytes
read_header_bytes-IsSized s bs h = elim (Bool-cases (ltb s.rcv_idx 4)) [
  | inl k ↦
      let m = parse_magic-IsSearched s bs (ground arith) in
      let r =
        read_sizes-IsSized (parse_magic s bs).0 (parse_magic s bs).1 m.stops
          (omega (arith, m.bound)) in
      record {
        early = λ e. (m.same ∙ (r.early e).0, (r.early e).1);
        full = λ e. m.same ∙ r.full e;
        bound = r.bound;
        shrinks = λ e. omega (arith, r.shrinks e, m.shrinks);
      }
  | inr k ↦
      rw (parse_magic-done s bs (ground arith), read_header_bytes)
        (read_sizes-IsSized s bs (λ m. absurd (ground arith)) h)
]
