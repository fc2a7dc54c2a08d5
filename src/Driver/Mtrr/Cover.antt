-- ===== src/Driver/Mtrr/Cover.antt =====
-- src/libs/libxmhfhw/xmhfhw_cpu_mtrrsetmemtype.c: the ranges that `set_mem_type` maps, against the
-- binary digits of the number of pages.
use uberspark.Base.{
  ℕ, zero, suc, ◌+◌, ◌-◌, ◌*◌, ◌/◌, ◌%◌, ◌^◌, ◌≤◌, ◌<◌, ◌≡◌, ◌⊎◌, inl, inr, refl, ap, sym, ◌∙◌,
  arith, true, false, some, List, [], ◌∷◌, if◌then◌else◌, u32, sub32, ◌==◌, has-cases, bit, has,
  pow-le-pow,
}
use native.Mathlib.Decide.{dec_lt}
use native.Mathlib.Nat.{
  pow-succ', one-le-pow, div-eq_of_lt, mod-eq_of_lt, div-eq-sub-div, mod-eq-sub-mod,
}
use uberspark.Hwm.Cpu.Alu.{highest}

-- The ranges for `n` pages from `base` on: one for each set digit below place k, the largest first.
unfoldable pub cover : ℕ → ℕ → ℕ → List (ℕ × ℕ)
cover zero base n = []
cover (suc k) base n =
    if n / 2 ^ k % 2 == 1
    then (base, k) ∷ cover k (u32 (base + 2 ^ k * 0x1000)) (n % 2 ^ k)
    else cover k base (n % 2 ^ k)

-- The pages that ranges map.
unfoldable pub pages : List (ℕ × ℕ) → ℕ
pages [] = 0
pages ((base, place) ∷ r) = 2 ^ place + pages r

-- Each range starts where the one before it ends, from `base` on.
abbrev pub IsContiguous : ℕ → List (ℕ × ℕ) → Type 0
IsContiguous base [] = Unit
IsContiguous base ((b, place) ∷ r) = (b ≡ base) × IsContiguous (u32 (base + 2 ^ place * 0x1000)) r

digit-cases :
    (n k : ℕ)
    → n < 2 ^ suc k
    → ((n / 2 ^ k % 2 ≡ 1) × (n ≡ 2 ^ k + n % 2 ^ k))
      ⊎ ((n / 2 ^ k % 2 ≡ 0) × (n % 2 ^ k ≡ n) × (n < 2 ^ k))
digit-cases n k h = split n (2 ^ k) (one-le-pow k 2 (omega arith)) (omega (arith, pow-succ' 2 k))
  where
    split :
        (n p : ℕ)
        → 1 ≤ p
        → n < 2 * p
        → ((n / p % 2 ≡ 1) × (n ≡ p + n % p)) ⊎ ((n / p % 2 ≡ 0) × (n % p ≡ n) × (n < p))
    split n p hp h = elim (dec_lt n p) [
      | yes l ↦ omega (arith, div-eq_of_lt l, mod-eq_of_lt l)
      | no g ↦
          let le : p ≤ n = omega arith in
          let rest : n - p < p = omega arith in
          omega (
            arith,
            div-eq-sub-div {m = p} {n = n} hp le,
            mod-eq-sub-mod {n = n} {m = p} le,
            div-eq_of_lt rest,
            mod-eq_of_lt rest,
          )
    ]

pub mod-lt_pow : (n k : ℕ) → n % 2 ^ k < 2 ^ k
mod-lt_pow n k = grind (arith, one-le-pow k 2 (omega arith))

pub pages-cover : (k base n : ℕ) → n < 2 ^ k → pages (cover k base n) ≡ n
unfolding pages cover
pages-cover zero base n h = omega arith
pages-cover (suc k) base n h = elim (digit-cases n k h) [
  | inl d ↦ rw (d.0) (ap (λ m. 2 ^ k + m) (pages-cover k _ (n % 2 ^ k) (mod-lt_pow n k)) ∙ sym d.1)
  | inr d ↦ rw (d.0) (pages-cover k base (n % 2 ^ k) (mod-lt_pow n k) ∙ d.1)
]

pub cover-IsContiguous : (k base n : ℕ) → n < 2 ^ k → IsContiguous base (cover k base n)
unfolding cover
cover-IsContiguous zero base n h = tt
cover-IsContiguous (suc k) base n h = elim (digit-cases n k h) [
  | inl d ↦ rw (d.0) (refl, cover-IsContiguous k _ (n % 2 ^ k) (mod-lt_pow n k))
  | inr d ↦ rw (d.0) (cover-IsContiguous k base (n % 2 ^ k) (mod-lt_pow n k))
]

has-one : (n k : ℕ) → bit n k ≡ 1 → has n (2 ^ k) ≡ true
has-one n k h = ground (arith, has-cases k n)

has-zero : (n k : ℕ) → bit n k ≡ 0 → has n (2 ^ k) ≡ false
has-zero n k h = ground (arith, has-cases k n)

-- The search for the highest digit finds the first range of the cover.
pub highest-cover :
    (k base n : ℕ)
    → n < 2 ^ k
    → 0 < n
    → (p : ℕ) × (highest n k ≡ some p)
      × (p < k)
      × (n < 2 ^ suc p)
      × (n ≡ 2 ^ p + n % 2 ^ p)
      × (cover k base n ≡ (base, p) ∷ cover p (u32 (base + 2 ^ p * 0x1000)) (n % 2 ^ p))
unfolding highest cover
highest-cover zero base n h z = absurd (omega arith)
highest-cover (suc k) base n h z = elim (digit-cases n k h) [
  | inl d ↦ (k, rw (has-one n k d.0) refl, omega arith, h, d.1, rw (d.0) refl)
  | inr d ↦
      let (p, e, lt, b, q, c) = highest-cover k base n d.2 z in
      (p, rw (has-zero n k d.0) e, omega arith, b, q, rw (d.0) (ap (cover k base) d.1 ∙ c))
]

pow_mono : (k j : ℕ) → k ≤ j → 2 ^ k ≤ 2 ^ j
pow_mono k j l = elim (dec_lt k j) [
  | yes q ↦ omega (arith, pow-le-pow k j q)
  | no q ↦ let e : k ≡ j = omega arith in omega (arith, ap (λ (t : ℕ). 2 ^ t) e)
]

pub highest-stable : (j k n : ℕ) → n < 2 ^ k → k ≤ j → highest n j ≡ highest n k
unfolding highest
highest-stable zero k n h le = let e : 0 ≡ k = omega arith in ap (highest n) e
highest-stable (suc j) k n h le = elim (dec_lt k (suc j)) [
  | yes l ↦
      let small : n < 2 ^ j = omega (arith, pow_mono k j (omega arith)) in
      rw (has-zero n j (omega (arith, div-eq_of_lt small))) (highest-stable j k n h (omega arith))
  | no g ↦ let e : suc j ≡ k = omega arith in ap (highest n) e
]

pub wrapped : (n p k : ℕ) → n < 2 ^ k → k ≤ 32 → n ≡ p + n % p → sub32 n p ≡ n % p
wrapped n p k h h32 q = omega (arith, pow_mono k 32 h32)

pub cover-zero : (k base : ℕ) → cover k base 0 ≡ []
unfolding cover
cover-zero zero base = refl
cover-zero (suc k) base =
    let digit : 0 / 2 ^ k ≡ 0 = div-eq_of_lt (one-le-pow k 2 (omega arith)) in
    let rest : 0 % 2 ^ k ≡ 0 = mod-eq_of_lt (one-le-pow k 2 (omega arith)) in
    rw (digit) (ap (cover k base) rest ∙ cover-zero k base)
