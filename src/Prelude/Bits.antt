-- ===== src/Prelude/Bits.antt =====
-- `&`, `|` and `^` as arithmetic, at every width. The native operations mean a recursion on the
-- binary digits of the first operand; one equation for the lowest digit drops its fuel.
use Prim.Native.Nat.{
  ℕ, zero, suc, ◌+◌, ◌-◌, ◌*◌, ◌/◌, ◌%◌, ◌^◌, ◌≤◌, ◌<◌, min, max, bit_and, bit_or, bit_xor, digits,
  differ, bit_and-bitwise, bit_or-bitwise, bit_xor-bitwise,
}
use mathlib.Core.Path.{◌≡◌, refl, ap}
use native.Mathlib.Nat.{pow-suc, one-le-pow}
use native.Mathlib.Omega.{arith}

-- Fuel beyond the number itself makes no difference.
module _ (rest : ℕ → ℕ) (op : ℕ → ℕ → ℕ) where
  digits_any : (f g a b : ℕ) → a ≤ f → a ≤ g → digits rest op f a b ≡ digits rest op g a b
  digits_any zero zero a b hf hg = refl
  digits_any zero (suc g) zero b hf hg = refl
  digits_any zero (suc g) (suc a) b hf hg = absurd (omega arith)
  digits_any (suc f) zero zero b hf hg = refl
  digits_any (suc f) zero (suc a) b hf hg = absurd (omega arith)
  digits_any (suc f) (suc g) zero b hf hg = refl
  digits_any (suc f) (suc g) (suc a) b hf hg =
      ap (λ t. t * 2 + op (suc a % 2) (b % 2))
        (digits_any f g (suc a / 2) (b / 2) (omega arith) (omega arith))

  lowest_digit :
      (a b : ℕ)
      → digits rest op (suc a) (suc a) b
        ≡ digits rest op (suc a / 2) (suc a / 2) (b / 2) * 2 + op (suc a % 2) (b % 2)
  lowest_digit a b =
      ap (λ t. t * 2 + op (suc a % 2) (b % 2))
        (digits_any a (suc a / 2) (suc a / 2) (b / 2) (omega arith) (omega arith))

pub bit_and_digit : (a b : ℕ) → bit_and a b ≡ bit_and (a / 2) (b / 2) * 2 + min (a % 2) (b % 2)
bit_and_digit zero b = simp bit_and-bitwise (omega arith)
bit_and_digit (suc a) b = simp bit_and-bitwise (lowest_digit (λ y. 0) min a b)

pub bit_or_digit : (a b : ℕ) → bit_or a b ≡ bit_or (a / 2) (b / 2) * 2 + max (a % 2) (b % 2)
bit_or_digit zero b = simp bit_or-bitwise (omega arith)
bit_or_digit (suc a) b = simp bit_or-bitwise (lowest_digit (λ y. y) max a b)

differ_lem : (x y : ℕ) → x < 2 → y < 2 → differ x y ≡ (x + y) % 2
differ_lem zero y hx hy = omega arith
differ_lem (suc zero) zero hx hy = refl
differ_lem (suc zero) (suc zero) hx hy = refl
differ_lem (suc zero) (suc (suc y)) hx hy = absurd (omega arith)
differ_lem (suc (suc x)) y hx hy = absurd (omega arith)

pub bit_xor_digit : (a b : ℕ) → bit_xor a b ≡ bit_xor (a / 2) (b / 2) * 2 + (a + b) % 2
bit_xor_digit zero b = simp bit_xor-bitwise (omega arith)
bit_xor_digit (suc a) b = omega (
  arith,
  differ_lem (suc a % 2) (b % 2) (omega arith) (omega arith),
  bit_xor-bitwise (suc a) b,
  bit_xor-bitwise (suc a / 2) (b / 2),
  lowest_digit (λ y. y) differ a b,
)

-- Induction from half a number to the number, by a bound on it.
bit_or-zero_below : (n a : ℕ) → a ≤ n → bit_or a 0 ≡ a
bit_or-zero_below n zero h = refl
bit_or-zero_below zero (suc a) h = absurd (omega arith)
bit_or-zero_below (suc n) (suc a) h =
    omega (arith, bit_or_digit (suc a) 0, bit_or-zero_below n (suc a / 2) (omega arith))

bit_and-zero_below : (n a : ℕ) → a ≤ n → bit_and a 0 ≡ 0
bit_and-zero_below n zero h = refl
bit_and-zero_below zero (suc a) h = absurd (omega arith)
bit_and-zero_below (suc n) (suc a) h =
    omega (arith, bit_and_digit (suc a) 0, bit_and-zero_below n (suc a / 2) (omega arith))

pub bit_or-zero : (a : ℕ) → bit_or a 0 ≡ a
bit_or-zero a = bit_or-zero_below a a (omega arith)

pub bit_and-zero : (a : ℕ) → bit_and a 0 ≡ 0
bit_and-zero a = bit_and-zero_below a a (omega arith)

pub mul-pow-suc : (q k : ℕ) → q * 2 ^ suc k ≡ 2 * (q * 2 ^ k)
mul-pow-suc q k = omega (arith, ap (λ (t : ℕ). q * t) (pow-suc 2 k))

-- `a | b` is the sum where `b` lies below the lowest set digit of `a`.
pub bit_or_add : (k q a b : ℕ) → a ≡ q * 2 ^ k → b < 2 ^ k → bit_or a b ≡ a + b
bit_or_add zero q a b e h = ground (arith, bit_or-zero a)
bit_or_add (suc k) q a b e h = omega (
  arith,
  bit_or_digit a b,
  pow-suc 2 k,
  mul-pow-suc q k,
  bit_or_add k q (a / 2) (b / 2) (omega (arith, mul-pow-suc q k)) (omega (arith, pow-suc 2 k)),
)

low_field : (k q r : ℕ) → r < 2 ^ k → bit_and (q * 2 ^ k + r) (2 ^ k - 1) ≡ r
low_field zero q r h = omega (arith, bit_and-zero (q * 1 + r))
low_field (suc k) q r h = ground (
  arith,
  bit_and_digit (q * 2 ^ suc k + r) (2 ^ suc k - 1),
  pow-suc 2 k,
  one-le-pow k 2,
  mul-pow-suc q k,
  low_field k q (r / 2) (omega (arith, pow-suc 2 k)),
)

high_field : (k q r m : ℕ) → r < 2 ^ k → bit_and (q * 2 ^ k + r) (m * 2 ^ k) ≡ bit_and q m * 2 ^ k
high_field zero q r m h = ground (arith)
high_field (suc k) q r m h = ground (
  arith,
  bit_and_digit (q * 2 ^ suc k + r) (m * 2 ^ suc k),
  pow-suc 2 k,
  mul-pow-suc q k,
  mul-pow-suc m k,
  mul-pow-suc (bit_and q m) k,
  high_field k q (r / 2) m (omega (arith, pow-suc 2 k)),
)

-- A mask of `k` low ones is the remainder.
pub bit_and_low : (k a : ℕ) → bit_and a (2 ^ k - 1) ≡ a % 2 ^ k
bit_and_low k a = ground (arith, one-le-pow k 2, low_field k (a / 2 ^ k) (a % 2 ^ k))

-- A mask shifted up by `k` keeps the digits from `k` on.
pub bit_and_shifted : (k m a : ℕ) → bit_and a (m * 2 ^ k) ≡ bit_and (a / 2 ^ k) m * 2 ^ k
bit_and_shifted k m a = ground (arith, one-le-pow k 2, high_field k (a / 2 ^ k) (a % 2 ^ k) m)

bit_xor_cancel_below : (n a b : ℕ) → a ≤ n → b ≤ n → bit_xor (bit_xor a b) b ≡ a
bit_xor_cancel_below zero zero zero ha hb = refl
bit_xor_cancel_below zero (suc a) b ha hb = absurd (omega arith)
bit_xor_cancel_below zero zero (suc b) ha hb = absurd (omega arith)
bit_xor_cancel_below (suc n) a b ha hb =
    let half : bit_xor a b / 2 ≡ bit_xor (a / 2) (b / 2) = omega (arith, bit_xor_digit a b) in
    omega (
      arith,
      bit_xor_digit a b,
      bit_xor_digit (bit_xor a b) b,
      ap (λ t. bit_xor t (b / 2)) half,
      bit_xor_cancel_below n (a / 2) (b / 2) (omega arith) (omega arith),
    )

-- `^` by the same number twice changes nothing.
pub bit_xor_cancel : (a b : ℕ) → bit_xor (bit_xor a b) b ≡ a
bit_xor_cancel a b = bit_xor_cancel_below (a + b) a b (omega arith) (omega arith)

-- Two numbers are complements in `k` digits exactly when their sum is all ones.
pub bit_xor_complement : (k a b : ℕ) → a + b + 1 ≡ 2 ^ k → bit_xor a b + 1 ≡ 2 ^ k
bit_xor_complement zero zero zero h = refl
bit_xor_complement zero (suc a) b h = absurd (omega arith)
bit_xor_complement zero zero (suc b) h = absurd (omega arith)
bit_xor_complement (suc k) a b h = omega (
  arith,
  bit_xor_digit a b,
  pow-suc 2 k,
  one-le-pow k 2,
  bit_xor_complement k (a / 2) (b / 2) (omega (arith, pow-suc 2 k)),
)

pub bit_xor_lt : (k a b : ℕ) → a < 2 ^ k → b < 2 ^ k → bit_xor a b < 2 ^ k
bit_xor_lt zero zero zero ha hb = omega arith
bit_xor_lt zero (suc a) b ha hb = absurd (omega arith)
bit_xor_lt zero zero (suc b) ha hb = absurd (omega arith)
bit_xor_lt (suc k) a b ha hb = omega (
  arith,
  bit_xor_digit a b,
  pow-suc 2 k,
  bit_xor_lt k (a / 2) (b / 2) (omega (arith, pow-suc 2 k)) (omega (arith, pow-suc 2 k)),
)

bit_or_comm_below : (n a b : ℕ) → a ≤ n → b ≤ n → bit_or a b ≡ bit_or b a
bit_or_comm_below zero zero zero ha hb = refl
bit_or_comm_below zero (suc a) b ha hb = absurd (omega arith)
bit_or_comm_below zero zero (suc b) ha hb = absurd (omega arith)
bit_or_comm_below (suc n) a b ha hb = omega (
  arith,
  bit_or_digit a b,
  bit_or_digit b a,
  bit_or_comm_below n (a / 2) (b / 2) (omega arith) (omega arith),
)

pub bit_or_comm : (a b : ℕ) → bit_or a b ≡ bit_or b a
bit_or_comm a b = bit_or_comm_below (a + b) a b (omega arith) (omega arith)

-- Four bytes, lowest first.
abbrev pub join_bytes : ℕ → ℕ → ℕ → ℕ → ℕ
join_bytes a b c d = a + b * 2 ^ 8 + c * 2 ^ 16 + d * 2 ^ 24

module _ (a b c d : ℕ) (ha : a < 256) (hb : b < 256) (hc : c < 256) (hd : d < 256) where
  pub or_falling :
      bit_or (bit_or (bit_or (d * 2 ^ 24) (c * 2 ^ 16)) (b * 2 ^ 8)) a ≡ join_bytes a b c d
  or_falling =
      rw
        (
          bit_or_add 24 d (d * 2 ^ 24) (c * 2 ^ 16) refl (omega arith),
          bit_or_add 16 (d * 2 ^ 8 + c) (d * 2 ^ 24 + c * 2 ^ 16) (b * 2 ^ 8) (omega arith)
              (omega arith),
          bit_or_add 8 (d * 2 ^ 16 + c * 2 ^ 8 + b) (d * 2 ^ 24 + c * 2 ^ 16 + b * 2 ^ 8) a
              (omega arith) (omega arith),
        )
        (omega arith)

  pub or_rising :
      bit_or (bit_or (bit_or a (b * 2 ^ 8)) (c * 2 ^ 16)) (d * 2 ^ 24) ≡ join_bytes a b c d
  or_rising =
      rw
        (
          bit_or_comm a (b * 2 ^ 8),
          bit_or_add 8 b (b * 2 ^ 8) a refl (omega arith),
          bit_or_comm (b * 2 ^ 8 + a) (c * 2 ^ 16),
          bit_or_add 16 c (c * 2 ^ 16) (b * 2 ^ 8 + a) refl (omega arith),
          bit_or_comm (c * 2 ^ 16 + (b * 2 ^ 8 + a)) (d * 2 ^ 24),
          bit_or_add 24 d (d * 2 ^ 24) (c * 2 ^ 16 + (b * 2 ^ 8 + a)) refl (omega arith),
        )
        (omega arith)
