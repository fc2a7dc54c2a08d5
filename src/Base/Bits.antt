-- ===== src/Base/Bits.antt =====
-- Facts about `&` and `|` at variables, from the recursion on binary digits that the native
-- operations stand for: the value of one bit, masks, disjoint fields, bounds.
use Prim.Native.Nat.{ℕ, zero, suc, ◌+◌, ◌-◌, ◌*◌, ◌/◌, ◌%◌, ◌^◌, ◌≤◌, ◌<◌, min, max}
use Prim.Native.Nat.{bit_and, bit_or, digits, bit_and-bitwise, bit_or-bitwise}
use Prim.Native.Nat.{compare, Ordering}
use mathlib.Core.Logic.{◌⊎◌}
use mathlib.Core.Bool.{Bool}
use native.Mathlib.Decide.{dec_lt}
use mathlib.Core.Path.{◌≡◌, refl, ap, sym, ◌∙◌}
use native.Mathlib.Nat.{pow-succ', div-div-eq-div-mul, one-le-pow, div-add-mod}
use native.Mathlib.Omega.{arith}

-- Fuel beyond the number itself does not count.
module _ (z : ℕ → ℕ) (f : ℕ → ℕ → ℕ) where
  enough_digits : (k l x y : ℕ) → x ≤ k → x ≤ l → digits z f k x y ≡ digits z f l x y
  enough_digits zero zero x y h g = refl
  enough_digits zero (suc l) zero y h g = refl
  enough_digits zero (suc l) (suc x) y h g = absurd (omega arith)
  enough_digits (suc k) zero zero y h g = refl
  enough_digits (suc k) zero (suc x) y h g = absurd (omega arith)
  enough_digits (suc k) (suc l) zero y h g = refl
  enough_digits (suc k) (suc l) (suc x) y h g =
      let ih = enough_digits k l (suc x / 2) (y / 2) (omega arith) (omega arith) in omega arith

-- One equation for the lowest digit of each operation.
pub bit_or-halves : (x y : ℕ) → bit_or x y ≡ 2 * bit_or (x / 2) (y / 2) + max (x % 2) (y % 2)
bit_or-halves zero y = omega (arith, bit_or-bitwise 0 y, bit_or-bitwise 0 (y / 2))
bit_or-halves (suc x) y = omega (
  arith,
  bit_or-bitwise (suc x) y,
  bit_or-bitwise (suc x / 2) (y / 2),
  enough_digits (λ b. b) max x (suc x / 2) (suc x / 2) (y / 2) (omega arith) (omega arith),
)

pub bit_and-halves : (x y : ℕ) → bit_and x y ≡ 2 * bit_and (x / 2) (y / 2) + min (x % 2) (y % 2)
bit_and-halves zero y = omega (arith, bit_and-bitwise 0 y, bit_and-bitwise 0 (y / 2))
bit_and-halves (suc x) y = omega (
  arith,
  bit_and-bitwise (suc x) y,
  bit_and-bitwise (suc x / 2) (y / 2),
  enough_digits (λ b. 0) min x (suc x / 2) (suc x / 2) (y / 2) (omega arith) (omega arith),
)

-- The bit of `x` at place `k`, 0 or 1.
abbrev pub bit : ℕ → ℕ → ℕ
bit x k = x / 2 ^ k % 2

pub half-shift : (x k : ℕ) → x / 2 ^ suc k ≡ x / 2 / 2 ^ k
half-shift x k =
    omega (arith, ap (λ (t : ℕ). x / t) (pow-succ' 2 k), div-div-eq-div-mul x 2 (2 ^ k))

pub half-mod : (x k : ℕ) → x % 2 ^ suc k ≡ 2 * (x / 2 % 2 ^ k) + x % 2
half-mod x k = omega (
  arith,
  div-add-mod x (2 ^ suc k),
  div-add-mod (x / 2) (2 ^ k),
  half-shift x k,
  ap (λ (t : ℕ). t * (x / 2 / 2 ^ k)) (pow-succ' 2 k),
  ap (λ (t : ℕ). 2 ^ suc k * t) (half-shift x k),
)

pub bit-bit_or : (k x y : ℕ) → bit (bit_or x y) k ≡ max (bit x k) (bit y k)
bit-bit_or zero x y = omega (arith, bit_or-halves x y)
bit-bit_or (suc k) x y =
    rw (half-shift (bit_or x y) k, half-shift x k, half-shift y k)
      (rw (halved) (bit-bit_or k (x / 2) (y / 2)))
  where
    halved : bit_or x y / 2 ≡ bit_or (x / 2) (y / 2)
    halved = omega (arith, bit_or-halves x y)

pub bit-bit_and : (k x y : ℕ) → bit (bit_and x y) k ≡ min (bit x k) (bit y k)
bit-bit_and zero x y = omega (arith, bit_and-halves x y)
bit-bit_and (suc k) x y =
    rw (half-shift (bit_and x y) k, half-shift x k, half-shift y k)
      (rw (halved) (bit-bit_and k (x / 2) (y / 2)))
  where
    halved : bit_and x y / 2 ≡ bit_and (x / 2) (y / 2)
    halved = omega (arith, bit_and-halves x y)

-- A mask of `k` ones is the remainder by `2 ^ k`.
bit_and-zero : (x : ℕ) → bit_and x 0 ≡ 0
bit_and-zero x = below x x (omega arith)
  where
    below : (n x : ℕ) → x ≤ n → bit_and x 0 ≡ 0
    below n zero h = refl
    below zero (suc x) h = absurd (omega arith)
    below (suc n) (suc x) h =
        omega (arith, bit_and-halves (suc x) 0, below n (suc x / 2) (omega arith))

twice-product : (k m : ℕ) → m * 2 ^ suc k ≡ 2 * (m * 2 ^ k)
twice-product k m = omega (arith, ap (λ (t : ℕ). m * t) (pow-succ' 2 k))

-- A mask that is shifted.
pub bit_and-shifted : (k x m : ℕ) → bit_and x (m * 2 ^ k) ≡ bit_and (x / 2 ^ k) m * 2 ^ k
bit_and-shifted zero x m = omega (arith, ap (bit_and x) (times m), ap (λ t. bit_and t m) (over x))
  where
    times : (m : ℕ) → m * 2 ^ 0 ≡ m
    times m = omega arith

    over : (x : ℕ) → x / 2 ^ 0 ≡ x
    over x = omega arith
bit_and-shifted (suc k) x m =
    let rest = bit_and (x / 2 ^ suc k) m in
    ap (bit_and x) (twice-product k m)
    ∙ (omega (
      arith,
      bit_and-halves x (2 * (m * 2 ^ k)),
      ap (bit_and (x / 2)) half,
      bit_and-shifted k (x / 2) m,
    )
        ∙ (ap (λ t. 2 * (bit_and t m * 2 ^ k)) (sym (half-shift x k)) ∙ sym (twice-product k rest)))
  where
    half : 2 * (m * 2 ^ k) / 2 ≡ m * 2 ^ k
    half = omega arith

half-ones : (k : ℕ) → (2 ^ suc k - 1) / 2 ≡ 2 ^ k - 1
half-ones k = omega (arith, pow-succ' 2 k)

pub bit_and_mask : (k x : ℕ) → bit_and x (2 ^ k - 1) ≡ x % 2 ^ k
bit_and_mask zero x = omega (arith, bit_and-zero x)
bit_and_mask (suc k) x = omega (
  arith,
  bit_and-halves x (2 ^ suc k - 1),
  pow-succ' 2 k,
  one-le-pow k 2 (omega arith),
  half-mod x k,
  bit_and_mask k (x / 2),
  ap (bit_and (x / 2)) (half-ones k),
)

le_zero : (y : ℕ) → y < 1 → y ≡ 0
le_zero y g = omega arith

bit_or-zero : (x : ℕ) → bit_or x 0 ≡ x
bit_or-zero x = below x x (omega arith)
  where
    below : (n x : ℕ) → x ≤ n → bit_or x 0 ≡ x
    below n zero h = refl
    below zero (suc x) h = absurd (omega arith)
    below (suc n) (suc x) h =
        omega (arith, bit_or-halves (suc x) 0, below n (suc x / 2) (omega arith))

-- `x | y` is a sum when `y` lies below the bits of `x`.
pub bit_or-add : (k x y : ℕ) → x % 2 ^ k ≡ 0 → y < 2 ^ k → bit_or x y ≡ x + y
bit_or-add zero x y h g = omega (arith, ap (bit_or x) (le_zero y g), bit_or-zero x)
bit_or-add (suc k) x y h g = omega (
  arith,
  bit_or-halves x y,
  pow-succ' 2 k,
  half-mod x k,
  bit_or-add k (x / 2) (y / 2) (omega (arith, half-mod x k)) (omega (arith, pow-succ' 2 k)),
)

-- Both stay within the width of their arguments.
pub bit_or-lt : (k x y : ℕ) → x < 2 ^ k → y < 2 ^ k → bit_or x y < 2 ^ k
bit_or-lt zero x y h g = omega (arith, ap (bit_or x) (le_zero y g), bit_or-zero x)
bit_or-lt (suc k) x y h g =
    omega (arith, bit_or-halves x y, pow-succ' 2 k, bit_or-lt k (x / 2) (y / 2))

pub bit_and-le : (x y : ℕ) → bit_and x y ≤ x
bit_and-le x y = below x x y (omega arith)
  where
    below : (n x y : ℕ) → x ≤ n → bit_and x y ≤ x
    below n zero y h = omega (arith, bit_and-bitwise 0 y)
    below zero (suc x) y h = absurd (omega arith)
    below (suc n) (suc x) y h =
        omega (arith, bit_and-halves (suc x) y, below n (suc x / 2) (y / 2) (omega arith))

half-pow : (k : ℕ) → 2 ^ suc k / 2 ≡ 2 ^ k
half-pow k = omega (arith, pow-succ' 2 k)

-- One bit taken out, set or cleared, as arithmetic.
pub bit_and-pow : (k x : ℕ) → bit_and x (2 ^ k) ≡ 2 ^ k * bit x k
bit_and-pow zero x = omega (arith, bit_and-halves x 1, bit_and-zero (x / 2))
bit_and-pow (suc k) x = omega (
  arith,
  bit_and-halves x (2 ^ suc k),
  pow-succ' 2 k,
  ap (bit_and (x / 2)) (half-pow k),
  bit_and-pow k (x / 2),
  ap (λ (t : ℕ). t * bit x (suc k)) (pow-succ' 2 k),
  ap (λ (t : ℕ). 2 ^ k * (t % 2)) (half-shift x k),
)

pub bit_or-pow : (k x : ℕ) → bit_or x (2 ^ k) + 2 ^ k * bit x k ≡ x + 2 ^ k
bit_or-pow zero x = omega (arith, bit_or-halves x 1, bit_or-zero (x / 2))
bit_or-pow (suc k) x = omega (
  arith,
  bit_or-halves x (2 ^ suc k),
  pow-succ' 2 k,
  ap (bit_or (x / 2)) (half-pow k),
  bit_or-pow k (x / 2),
  ap (λ (t : ℕ). t * bit x (suc k)) (pow-succ' 2 k),
  ap (λ (t : ℕ). 2 ^ k * (t % 2)) (half-shift x k),
)

pub pow-le-pow : (k n : ℕ) → k < n → 2 * 2 ^ k ≤ 2 ^ n
pow-le-pow k zero h = absurd (omega arith)
pow-le-pow zero (suc n) h = omega (arith, pow-succ' 2 n, one-le-pow n 2 (omega arith))
pow-le-pow (suc k) (suc n) h =
    omega (arith, pow-succ' 2 n, pow-succ' 2 k, pow-le-pow k n (omega arith))

pub bit_and-clear :
    (n k x : ℕ) → k < n → bit_and x (2 ^ n - 1 - 2 ^ k) + 2 ^ k * bit x k ≡ x % 2 ^ n
bit_and-clear zero k x h = absurd (omega arith)
bit_and-clear (suc n) zero x h = omega (
  arith,
  bit_and-halves x (2 ^ suc n - 1 - 1),
  pow-succ' 2 n,
  one-le-pow n 2 (omega arith),
  half-mod x n,
  bit_and_mask n (x / 2),
  ap (bit_and (x / 2)) (half-mask n),
)
  where
    half-mask : (n : ℕ) → (2 ^ suc n - 1 - 1) / 2 ≡ 2 ^ n - 1
    half-mask n = omega (arith, pow-succ' 2 n)
bit_and-clear (suc n) (suc k) x h = omega (
  arith,
  bit_and-halves x (2 ^ suc n - 1 - 2 ^ suc k),
  pow-succ' 2 n,
  pow-succ' 2 k,
  one-le-pow n 2 (omega arith),
  pow-le-pow k n (omega arith),
  half-mod x n,
  ap (bit_and (x / 2)) (half-mask n k),
  bit_and-clear n k (x / 2) (omega arith),
  ap (λ (t : ℕ). t * bit x (suc k)) (pow-succ' 2 k),
  ap (λ (t : ℕ). 2 ^ k * (t % 2)) (half-shift x k),
)
  where
    half-mask : (n k : ℕ) → (2 ^ suc n - 1 - 2 ^ suc k) / 2 ≡ 2 ^ n - 1 - 2 ^ k
    half-mask n k = omega (arith, pow-succ' 2 n, pow-succ' 2 k)

-- A Boolean test of one bit, `if (x & (1 << k))`.
abbrev pub has : ℕ → ℕ → Bool
has x mask = elim (compare (bit_and x mask) 0) [ Ordering.eq ↦ Bool.false | _ ↦ Bool.true ]

pub has-cases :
    (k x : ℕ)
    → ((has x (2 ^ k) ≡ Bool.true) × (bit x k ≡ 1)) ⊎ ((has x (2 ^ k) ≡ Bool.false) × (bit x k ≡ 0))
has-cases k x = elim (dec_lt 0 (bit x k)) [
  | yes h ↦
      ground
        (arith, bit_and-pow k x, one-le-pow k 2 (omega arith), ap (λ (t : ℕ). 2 ^ k * t) (one h))
  | no h ↦ ground (arith, bit_and-pow k x, ap (λ (t : ℕ). 2 ^ k * t) (none h))
]
  where
    one : 0 < bit x k → bit x k ≡ 1
    one h = omega arith

    none : ¬ (0 < bit x k) → bit x k ≡ 0
    none h = omega arith

-- `x & ~mask` on 32 bits.
abbrev pub clear : ℕ → ℕ → ℕ
clear x mask = bit_and x (2 ^ 32 - 1 - mask)
