-- ===== src/Packet/Contents.antt =====
-- The operations on a MaplePacket, and what they do to its length byte, its words in either byte
-- order, and the words that it is sent as.
use dream_pico_port.Prelude.{
  ℕ, ◌<◌, ◌^◌, ◌≡◌, ◌≢◌, ◌↔◌, refl, sym, ap, ap₂, ◌∙◌, true, false, u8, List, [], ◌∷◌, ◌++◌, map,
  length, All, arith,
}
use dream_pico_port.Frame.{
  ByteOrder, host, network, IsFrame, command_invalid, from_word, flip_word_bytes, frame_eq,
}
use dream_pico_port.Frame.Words.{from_word-to_word, flip_word_bytes_involutive}
use dream_pico_port.Packet.{
  MaplePacket, make_words, same_order, same_words, packet_eq, get_frame_word, reset, set_words,
  in_order, append_payload, set_payload, packet_is_valid,
}

-- The length byte counts the payload.
abbrev pub IsConsistent : MaplePacket → Type 0
IsConsistent p = p.frame.length ≡ u8 (length p.payload)

-- The operations that change a packet.
pub data Operation : Type 0 where
  resets : Operation
  sets appends sets_payload : List ℕ → ByteOrder → Operation

unfoldable pub operate : Operation → MaplePacket → MaplePacket
operate resets p = reset p
operate (sets words order) p = set_words p words order
operate (appends words order) p = append_payload p words order
operate (sets_payload words order) p = set_payload p words order

-- The length byte counts the payload, modulo 256, after every operation if it did before, except
-- after `setPayload` with no words.
pub operate-IsConsistent :
    (op : Operation) (p : MaplePacket)
    → ((order : ByteOrder) → op ≢ sets_payload [] order)
    → IsConsistent p
    → IsConsistent (operate op p)
unfolding operate reset set_words append_payload set_payload
operate-IsConsistent resets p h v = refl
operate-IsConsistent (sets [] order) p h v = refl
operate-IsConsistent (sets (w ∷ words) order) p h v = refl
operate-IsConsistent (appends [] order) p h v = v
operate-IsConsistent (appends (w ∷ words) order) p h v = refl
operate-IsConsistent (sets_payload [] order) p h v = absurd (h order refl)
operate-IsConsistent (sets_payload (w ∷ words) order) p h v = refl

-- `setPayload` with no words leaves a packet with a stale length byte: a packet that had payload
-- (fewer than 256 words) and a counting length byte is no longer valid.
set_payload_none :
    (p : MaplePacket) (order : ByteOrder)
    → IsConsistent p
    → 0 < length p.payload
    → length p.payload < 256
    → packet_is_valid (set_payload p [] order) ≡ false
unfolding set_payload packet_is_valid
set_payload_none p order v h k = ground arith

-- A packet whose length byte counts its payload, modulo 256, is valid exactly when its command is
-- not the invalid one and it has fewer than 256 payload words.
packet_is_valid_iff :
    (p : MaplePacket)
    → IsConsistent p
    → (packet_is_valid p ≡ true) ↔ ((p.frame.command ≢ command_invalid) × (length p.payload < 256))
unfolding packet_is_valid
packet_is_valid_iff p v = ground arith

-- The words of a packet as they read in a byte order.
abbrev pub words_in : ByteOrder → MaplePacket → List ℕ
words_in order p = in_order p.payload_byte_order order p.payload

abbrev pub IsWords : List ℕ → Type 0
IsWords = All (λ w. w < 2 ^ 32)

pub flip_twice :
    (words : List ℕ) → IsWords words → map flip_word_bytes (map flip_word_bytes words) ≡ words
flip_twice [] h = refl
flip_twice (w ∷ words) h = ap₂ ◌∷◌ (flip_word_bytes_involutive w h.0) (flip_twice words h.1)

pub flip-append :
    (xs ys : List ℕ)
    → map flip_word_bytes (xs ++ ys) ≡ map flip_word_bytes xs ++ map flip_word_bytes ys
flip-append [] ys = refl
flip-append (x ∷ xs) ys = ap (◌∷◌ (flip_word_bytes x)) (flip-append xs ys)

in_order_append :
    (p o : ByteOrder) (xs ws : List ℕ)
    → IsWords ws
    → in_order p o (xs ++ in_order p o ws) ≡ in_order p o xs ++ ws
in_order_append host host xs ws h = refl
in_order_append network network xs ws h = refl
in_order_append host network xs ws h =
    flip-append xs _ ∙ ap (◌++◌ (map flip_word_bytes xs)) (flip_twice ws h)
in_order_append network host xs ws h =
    flip-append xs _ ∙ ap (◌++◌ (map flip_word_bytes xs)) (flip_twice ws h)

in_order-nil : (p o : ByteOrder) → in_order p o [] ≡ []
in_order-nil host host = refl
in_order-nil host network = refl
in_order-nil network host = refl
in_order-nil network network = refl

append-nil : (xs : List ℕ) → xs ++ [] ≡ xs
append-nil [] = refl
append-nil (x ∷ xs) = ap (◌∷◌ x) (append-nil xs)

-- Words of 32 bits appended in a byte order read back, in that byte order, behind what the packet
-- held, whatever order the packet stores.
words_in-append_payload :
    (p : MaplePacket) (words : List ℕ) (order : ByteOrder)
    → IsWords words
    → words_in order (append_payload p words order) ≡ words_in order p ++ words
unfolding append_payload
words_in-append_payload p [] order h = sym (append-nil _)
words_in-append_payload p (w ∷ words) order h =
    in_order_append p.payload_byte_order order p.payload (w ∷ words) h

-- What goes over the bus for a packet: its frame word, then its payload.
abbrev pub sent_words : MaplePacket → List ℕ
sent_words p = get_frame_word p ∷ p.payload

-- A packet with byte fields and a counting length byte is read back whole from the words that it is
-- sent as, by the constructor from words and by `set` on any other packet.
pub set_words-sent_words :
    (p q : MaplePacket)
    → IsFrame p.frame
    → IsConsistent p
    → (make_words (sent_words p) p.payload_byte_order ≡ p)
      × (set_words q (sent_words p) p.payload_byte_order ≡ p)
unfolding make_words set_words get_frame_word from_word
set_words-sent_words p q b v = ground (arith, from_word-to_word p.frame p.payload_byte_order b)

same_order_iff : (a b : ByteOrder) → (same_order a b ≡ true) ↔ (a ≡ b)
unfolding same_order
same_order_iff host host = ground arith
same_order_iff host network = ground arith
same_order_iff network host = ground arith
same_order_iff network network = ground arith

same_words_iff : (xs ys : List ℕ) → (same_words xs ys ≡ true) ↔ (xs ≡ ys)
unfolding same_words
same_words_iff [] [] = ground arith
same_words_iff [] (y ∷ ys) = ground arith
same_words_iff (x ∷ xs) [] = ground arith
same_words_iff (x ∷ xs) (y ∷ ys) = ground (arith, same_words_iff xs ys)

-- `operator==` holds exactly of equal packets.
packet_eq_iff : (p q : MaplePacket) → (packet_eq p q ≡ true) ↔ (p ≡ q)
unfolding packet_eq frame_eq
packet_eq_iff p q = ground (
  arith,
  same_words_iff p.payload q.payload,
  same_order_iff p.payload_byte_order q.payload_byte_order,
)
