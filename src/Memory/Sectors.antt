-- ===== src/Memory/Sectors.antt =====
-- Memory in RAM as its sectors, one after the other.
use dream_pico_port.Prelude.{
  ℕ, zero, suc, ◌+◌, ◌*◌, ◌<◌, ◌≡◌, refl, ap, ap₂, sym, ◌∙◌, List, [], ◌∷◌, ◌++◌, length, take,
  drop, replicate, length-append, take-append, drop-append, arith,
}
use native.Mathlib.Nat.{suc-mul}
use dream_pico_port.Memory.{overwrite}

-- The bytes of a number of sectors, from one on.
abbrev pub sectors_from : (ℕ → List ℕ) → ℕ → ℕ → List ℕ
sectors_from sector zero s = []
sectors_from sector (suc n) s = sector s ++ sectors_from sector n (suc s)

take-nil : (n : ℕ) → take {A = ℕ} n [] ≡ []
take-nil zero = refl
take-nil (suc n) = refl

drop-nil : (n : ℕ) → drop {A = ℕ} n [] ≡ []
drop-nil zero = refl
drop-nil (suc n) = refl

take_add : (a b : ℕ) (xs : List ℕ) → take a xs ++ take b (drop a xs) ≡ take (a + b) xs
take_add zero b xs = ap (λ n. take n xs) (omega arith)
take_add (suc a) b [] = take-nil b ∙ sym (take-nil (suc a + b))
take_add (suc a) b (x ∷ xs) =
    let moved : suc (a + b) ≡ suc a + b = omega arith in
    ap (◌∷◌ x) (take_add a b xs) ∙ ap (λ n. take n (x ∷ xs)) moved

drop_add : (a b : ℕ) (xs : List ℕ) → drop b (drop a xs) ≡ drop (a + b) xs
drop_add zero b xs = ap (λ n. drop n xs) (omega arith)
drop_add (suc a) b [] = drop-nil b ∙ sym (drop-nil (suc a + b))
drop_add (suc a) b (x ∷ xs) =
    let moved : suc (a + b) ≡ suc a + b = omega arith in
    drop_add a b xs ∙ ap (λ n. drop n (x ∷ xs)) moved

pub overwrite_all : (m bytes : List ℕ) → length m ≡ length bytes → overwrite m 0 bytes ≡ bytes
unfolding overwrite
overwrite_all [] [] h = refl
overwrite_all [] (b ∷ bytes) h = absurd (omega arith)
overwrite_all (x ∷ m) [] h = absurd (omega arith)
overwrite_all (x ∷ m) (b ∷ bytes) h = ap (◌∷◌ b) (overwrite_all m bytes (omega arith))

pub length-replicate : (n x : ℕ) → length (replicate n x) ≡ n
length-replicate zero x = refl
length-replicate (suc n) x = ap suc (length-replicate n x)

-- Pieces of one size, one after the other, are the list.
pub pieces :
    (memory : List ℕ) (size n s : ℕ)
    → sectors_from (λ t. take size (drop (t * size) memory)) n s
      ≡ take (n * size) (drop (s * size) memory)
pieces memory size zero s =
    let none : 0 ≡ 0 * size = omega arith in ap (λ k. take k (drop (s * size) memory)) none
pieces memory size (suc n) s =
    let all : size + n * size ≡ suc n * size = omega (arith, suc-mul n size) in
    ap (◌++◌ (take size (drop (s * size) memory))) (
      pieces memory size n (suc s)
      ∙ ap (λ k. take (n * size) (drop k memory)) (suc-mul s size)
      ∙ ap (take (n * size)) (sym (drop_add (s * size) size memory)))
    ∙ take_add size (n * size) (drop (s * size) memory)
    ∙ ap (λ k. take k (drop (s * size) memory)) all

pub sectors_from_same :
    (a b : ℕ → List ℕ) (n s : ℕ)
    → ((t : ℕ) → t < s + n → a t ≡ b t)
    → sectors_from a n s ≡ sectors_from b n s
sectors_from_same a b zero s same = refl
sectors_from_same a b (suc n) s same =
    ap₂ ◌++◌ (same s (omega arith)) (sectors_from_same a b n (suc s) (λ t h. same t (omega arith)))

pub length-sectors_from :
    (sector : ℕ → List ℕ) (size n s : ℕ)
    → ((t : ℕ) → length (sector t) ≡ size)
    → length (sectors_from sector n s) ≡ n * size
length-sectors_from sector size zero s sized = omega arith
length-sectors_from sector size (suc n) s sized = omega (
  arith,
  length-append (sector s) (sectors_from sector n (suc s)),
  sized s,
  length-sectors_from sector size n (suc s) sized,
  suc-mul n size,
)

pub piece_of :
    (sector : ℕ → List ℕ) (size n k s : ℕ)
    → ((t : ℕ) → length (sector t) ≡ size)
    → s < n
    → take size (drop (s * size) (sectors_from sector n k)) ≡ sector (k + s)
piece_of sector size zero k s sized h = absurd (omega arith)
piece_of sector size (suc n) k zero sized h =
    let rest = sectors_from sector n (suc k) in
    let start : 0 * size ≡ 0 = omega arith in
    let here : k ≡ k + 0 = omega arith in
    ap (λ i. take size (drop i (sector k ++ rest))) start
    ∙ ap (λ i. take i (sector k ++ rest)) (sym (sized k))
    ∙ take-append (sector k) rest
    ∙ ap sector here
piece_of sector size (suc n) k (suc s) sized h =
    let rest = sectors_from sector n (suc k) in
    let further : suc s * size ≡ length (sector k) + s * size =
      omega (arith, suc-mul s size, sized k) in
    let there : suc k + s ≡ k + suc s = omega arith in
    ap (λ i. take size (drop i (sector k ++ rest))) further
    ∙ ap (take size) (sym (drop_add (length (sector k)) (s * size) (sector k ++ rest)))
    ∙ ap (λ xs. take size (drop (s * size) xs)) (drop-append (sector k) rest)
    ∙ piece_of sector size n (suc k) s sized (omega arith)
    ∙ ap sector there
