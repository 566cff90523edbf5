-- ===== src/Prelude/Xor.antt =====
-- `^` as the sum of binary digits without carry: it is commutative and associative, and acts on
-- the digits above and below a position apart.
use Prim.Native.Nat.{ℕ, zero, suc, ◌+◌, ◌*◌, ◌/◌, ◌%◌, ◌^◌, ◌≤◌, ◌<◌, bit_xor}
use mathlib.Core.Path.{◌≡◌, refl, sym, ap, ap₂, ◌∙◌}
use native.Mathlib.Nat.{
  pow-suc, one-le-pow, mod-lt, div-add-mod', mul-add-div_right, mul-add-mod_self_right,
  div-eq_of_lt, mod-eq_of_lt,
}
use native.Mathlib.Omega.{arith}
use dream_pico_port.Prelude.Bits.{bit_xor_digit, bit_xor_lt, bit_xor_cancel, mul-pow-suc}

bit_xor_comm_below : (n a b : ℕ) → a ≤ n → b ≤ n → bit_xor a b ≡ bit_xor b a
bit_xor_comm_below zero zero zero ha hb = refl
bit_xor_comm_below zero (suc a) b ha hb = absurd (omega arith)
bit_xor_comm_below zero zero (suc b) ha hb = absurd (omega arith)
bit_xor_comm_below (suc n) a b ha hb = omega (
  arith,
  bit_xor_digit a b,
  bit_xor_digit b a,
  bit_xor_comm_below n (a / 2) (b / 2) (omega arith) (omega arith),
)

pub bit_xor_comm : (a b : ℕ) → bit_xor a b ≡ bit_xor b a
bit_xor_comm a b = bit_xor_comm_below (a + b) a b (omega arith) (omega arith)

pub bit_xor_half : (a b : ℕ) → bit_xor a b / 2 ≡ bit_xor (a / 2) (b / 2)
bit_xor_half a b = omega (arith, bit_xor_digit a b)

bit_xor_assoc_below :
    (n a b c : ℕ) → a ≤ n → b ≤ n → c ≤ n → bit_xor (bit_xor a b) c ≡ bit_xor a (bit_xor b c)
bit_xor_assoc_below zero zero zero zero ha hb hc = refl
bit_xor_assoc_below zero (suc a) b c ha hb hc = absurd (omega arith)
bit_xor_assoc_below zero zero (suc b) c ha hb hc = absurd (omega arith)
bit_xor_assoc_below zero zero zero (suc c) ha hb hc = absurd (omega arith)
bit_xor_assoc_below (suc n) a b c ha hb hc = omega (
  arith,
  bit_xor_digit a b,
  bit_xor_digit b c,
  bit_xor_digit (bit_xor a b) c,
  bit_xor_digit a (bit_xor b c),
  ap (λ t. bit_xor t (c / 2)) (bit_xor_half a b),
  ap (bit_xor (a / 2)) (bit_xor_half b c),
  bit_xor_assoc_below n (a / 2) (b / 2) (c / 2) (omega arith) (omega arith) (omega arith),
)

pub bit_xor_assoc : (a b c : ℕ) → bit_xor (bit_xor a b) c ≡ bit_xor a (bit_xor b c)
bit_xor_assoc a b c =
    bit_xor_assoc_below (a + b + c) a b c (omega arith) (omega arith) (omega arith)

bit_xor-zero_below : (n a : ℕ) → a ≤ n → bit_xor a 0 ≡ a
bit_xor-zero_below n zero h = refl
bit_xor-zero_below zero (suc a) h = absurd (omega arith)
bit_xor-zero_below (suc n) (suc a) h =
    omega (arith, bit_xor_digit (suc a) 0, bit_xor-zero_below n (suc a / 2) (omega arith))

pub bit_xor-zero : (a : ℕ) → bit_xor a 0 ≡ a
bit_xor-zero a = bit_xor-zero_below a a (omega arith)

pub bit_xor_self : (a : ℕ) → bit_xor a a ≡ 0
bit_xor_self a =
    ap (λ t. bit_xor t a) (sym (bit_xor_comm 0 a ∙ bit_xor-zero a)) ∙ bit_xor_cancel 0 a

xor_fields :
    (k q p r s : ℕ)
    → r < 2 ^ k
    → s < 2 ^ k
    → bit_xor (q * 2 ^ k + r) (p * 2 ^ k + s) ≡ bit_xor q p * 2 ^ k + bit_xor r s
xor_fields zero q p zero zero hr hs = ground arith
xor_fields zero q p (suc r) s hr hs = absurd (omega arith)
xor_fields zero q p zero (suc s) hr hs = absurd (omega arith)
xor_fields (suc k) q p r s hr hs = ground (
  arith,
  bit_xor_digit (q * 2 ^ suc k + r) (p * 2 ^ suc k + s),
  bit_xor_digit r s,
  pow-suc 2 k,
  mul-pow-suc q k,
  mul-pow-suc p k,
  mul-pow-suc (bit_xor q p) k,
  xor_fields k q p (r / 2) (s / 2) (omega (arith, pow-suc 2 k)) (omega (arith, pow-suc 2 k)),
)

-- `^` on the digits from `k` on, and on those below.
pub bit_xor_digits :
    (k a b : ℕ)
    → (bit_xor a b / 2 ^ k ≡ bit_xor (a / 2 ^ k) (b / 2 ^ k))
      × (bit_xor a b % 2 ^ k ≡ bit_xor (a % 2 ^ k) (b % 2 ^ k))
bit_xor_digits k a b =
    let positive : 0 < 2 ^ k = omega (arith, one-le-pow k 2) in
    let low : bit_xor (a % 2 ^ k) (b % 2 ^ k) < 2 ^ k =
      bit_xor_lt k (a % 2 ^ k) (b % 2 ^ k) (mod-lt a positive) (mod-lt b positive) in
    let fields : bit_xor a b
        ≡ bit_xor (a / 2 ^ k) (b / 2 ^ k) * 2 ^ k + bit_xor (a % 2 ^ k) (b % 2 ^ k) =
      ap₂ bit_xor (sym (div-add-mod' a (2 ^ k))) (sym (div-add-mod' b (2 ^ k)))
      ∙ xor_fields k (a / 2 ^ k) (b / 2 ^ k) (a % 2 ^ k) (b % 2 ^ k) (mod-lt a positive)
          (mod-lt b positive) in
    (
      ap (λ n. n / 2 ^ k) fields
          ∙ ground (
            arith,
            low,
            mul-add-div_right positive (bit_xor (a / 2 ^ k) (b / 2 ^ k))
                (bit_xor (a % 2 ^ k) (b % 2 ^ k)),
            div-eq_of_lt low,
          ),
      ap (λ n. n % 2 ^ k) fields
          ∙ mul-add-mod_self_right (bit_xor (a / 2 ^ k) (b / 2 ^ k)) (2 ^ k)
              (bit_xor (a % 2 ^ k) (b % 2 ^ k))
          ∙ mod-eq_of_lt low,
    )

pub bit_xor_interchange :
    (a b c d : ℕ) → bit_xor (bit_xor a b) (bit_xor c d) ≡ bit_xor (bit_xor a c) (bit_xor b d)
bit_xor_interchange a b c d =
    bit_xor_assoc a b (bit_xor c d)
    ∙ ap (bit_xor a)
        (sym (bit_xor_assoc b c d) ∙ ap (λ t. bit_xor t d) (bit_xor_comm b c) ∙ bit_xor_assoc c b d)
    ∙ sym (bit_xor_assoc a c (bit_xor b d))
