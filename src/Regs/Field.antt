-- ===== src/Regs/Field.antt =====
-- What one line of a pack macro or an unpack macro does to one field.
use native.Mathlib.Nat.{
  pow-succ', div-div-eq-div-mul, div-add-mod', div-mul-le_self, mul-le-mul_right,
}
use native.Mathlib.Nat.{
  mod-le, mod-mod, mod-eq_of_lt, div-le_self, pow-le-pow_right, mod-lt, one-le-pow, div-eq_of_lt,
  mul-mod_left,
}
use uberspark.Base.{
  zero, suc, ◌+◌, ◌≤◌, ◌<◌, bit_or-add, arith, ap, sym, ◌∙◌, ℕ, ◌*◌, ◌-◌, ◌/◌, ◌%◌, ◌^◌, ◌≡◌,
  bit_and, bit_or, bit_and_mask, u32, u64, ◌<<◌, ◌>>◌,
}

infixl 60 ◌∪◌
abbrev pub ◌∪◌ : ℕ → ℕ → ℕ
x ∪ y = bit_or x y

-- `((uint32_t)v & mask) << k`
unfoldable pub put32 : ℕ → ℕ → ℕ → ℕ
put32 v mask k = u32 (bit_and (u32 v) mask << k)

-- `((uint64_t)v & mask) << k`
unfoldable pub put64 : ℕ → ℕ → ℕ → ℕ
put64 v mask k = u64 (bit_and v mask << k)

-- `(uint32_t)(((uint32_t)value >> k) & mask)`
unfoldable pub get32 : ℕ → ℕ → ℕ → ℕ
get32 value k mask = u32 (bit_and (u32 value >> k) mask)

-- `(uint32_t)(((uint64_t)value >> k) & mask)`
unfoldable pub get64 : ℕ → ℕ → ℕ → ℕ
get64 value k mask = u32 (bit_and (u64 value >> k) mask)

pub put32_lem : (w k v : ℕ) → put32 v (2 ^ w - 1) k ≡ u32 (u32 v % 2 ^ w * 2 ^ k)
unfolding put32
put32_lem w k v = rw (bit_and_mask w (u32 v))

pub put64_lem : (w k v : ℕ) → put64 v (2 ^ w - 1) k ≡ u64 (v % 2 ^ w * 2 ^ k)
unfolding put64
put64_lem w k v = rw (bit_and_mask w v)

pub get32_lem : (w k v : ℕ) → get32 v k (2 ^ w - 1) ≡ u32 (u32 v / 2 ^ k % 2 ^ w)
unfolding get32
get32_lem w k v = rw (bit_and_mask w (u32 v >> k))

pub get64_lem : (w k v : ℕ) → get64 v k (2 ^ w - 1) ≡ u32 (u64 v / 2 ^ k % 2 ^ w)
unfolding get64
get64_lem w k v = rw (bit_and_mask w (u64 v >> k))

zero_add : (w : ℕ) → zero + w ≡ w
zero_add w = omega arith

suc-add : (k w : ℕ) → suc k + w ≡ suc (k + w)
suc-add k w = omega arith

pow-add : (k w : ℕ) → 2 ^ (k + w) ≡ 2 ^ k * 2 ^ w
pow-add zero w = omega (arith, ap (λ (t : ℕ). 2 ^ t) (zero_add w))
pow-add (suc k) w = omega (
  arith,
  ap (λ (t : ℕ). 2 ^ t) (suc-add k w),
  pow-succ' 2 (k + w),
  pow-succ' 2 k,
  pow-add k w,
  ap (λ (t : ℕ). t * 2 ^ w) (pow-succ' 2 k),
)

-- The part of `v` from bit `k` on is the part from bit `k + w` on and the `w` bits below it.
module _ (k w v : ℕ) where
  above : v / 2 ^ (k + w) ≡ v / 2 ^ k / 2 ^ w
  above = rw (pow-add k w) (sym (div-div-eq-div-mul v (2 ^ k) (2 ^ w)))

  split : v / 2 ^ k * 2 ^ k ≡ v / 2 ^ (k + w) * 2 ^ (k + w) + v / 2 ^ k % 2 ^ w * 2 ^ k
  split =
      rw (above, pow-add k w)
        (omega (arith, ap (λ (t : ℕ). t * 2 ^ k) (div-add-mod' (v / 2 ^ k) (2 ^ w))))

  field-le : v / 2 ^ k % 2 ^ w * 2 ^ k ≤ v
  field-le = omega (arith, split, div-mul-le_self v (2 ^ k))

  field-lt : v / 2 ^ k % 2 ^ w * 2 ^ k < 2 ^ (k + w)
  field-lt = omega (
    arith,
    pow-add k w,
    one-le-pow k 2 (omega arith),
    one-le-pow w 2 (omega arith),
    mul-le-mul_right (2 ^ k) (below (v / 2 ^ k)),
  )
    where
      below : (q : ℕ) → q % 2 ^ w + 1 ≤ 2 ^ w
      below q = omega (arith, mod-lt q (one-le-pow w 2 (omega arith)))

  join : bit_or (v / 2 ^ (k + w) * 2 ^ (k + w)) (v / 2 ^ k % 2 ^ w * 2 ^ k) ≡ v / 2 ^ k * 2 ^ k
  join = omega (
    arith,
    split,
    bit_or-add (k + w) (v / 2 ^ (k + w) * 2 ^ (k + w)) (v / 2 ^ k % 2 ^ w * 2 ^ k)
        (mul-mod_left (v / 2 ^ (k + w)) (2 ^ (k + w))) field-lt,
  )

  top : v < 2 ^ (k + w) → v / 2 ^ k % 2 ^ w * 2 ^ k ≡ v / 2 ^ k * 2 ^ k
  top h = rw (split, div-eq_of_lt h) (omega arith)

  -- A field that is unpacked and packed again stands where it stood.
  bits-le : v / 2 ^ k % 2 ^ w ≤ v
  bits-le = omega (arith, mod-le (v / 2 ^ k) (2 ^ w), div-le_self v (2 ^ k))

  get32-bits : v < 2 ^ 32 → get32 v k (2 ^ w - 1) ≡ v / 2 ^ k % 2 ^ w
  get32-bits h = rw (get32_lem w k v, mod-eq_of_lt h) (omega (arith, bits-le))

  get64-bits : v < 2 ^ 64 → w ≤ 32 → get64 v k (2 ^ w - 1) ≡ v / 2 ^ k % 2 ^ w
  get64-bits h g =
      rw (get64_lem w k v, mod-eq_of_lt h)
        (omega
          (arith, mod-lt (v / 2 ^ k) (one-le-pow w 2 (omega arith)), pow-le-pow_right two_pos g))
    where
      two_pos : 0 < 2
      two_pos = omega arith

  field32 : v < 2 ^ 32 → put32 (get32 v k (2 ^ w - 1)) (2 ^ w - 1) k ≡ v / 2 ^ k % 2 ^ w * 2 ^ k
  field32 h =
      rw (get32-bits h, put32_lem w k (v / 2 ^ k % 2 ^ w))
        (rw (mod-eq_of_lt (lt h), mod-mod (v / 2 ^ k) (2 ^ w)) (omega (arith, field-le)))
    where
      lt : v < 2 ^ 32 → v / 2 ^ k % 2 ^ w < 2 ^ 32
      lt h = omega (arith, bits-le)

  field64 :
      v < 2 ^ 64 → w ≤ 32 → put64 (get64 v k (2 ^ w - 1)) (2 ^ w - 1) k ≡ v / 2 ^ k % 2 ^ w * 2 ^ k
  field64 h g =
      rw (get64-bits h g, put64_lem w k (v / 2 ^ k % 2 ^ w), mod-mod (v / 2 ^ k) (2 ^ w))
        (omega (arith, field-le))

  -- Packing from the top field down: each step takes one more field.
  pub top32 :
      v < 2 ^ 32 → v < 2 ^ (k + w) → put32 (get32 v k (2 ^ w - 1)) (2 ^ w - 1) k ≡ v / 2 ^ k * 2 ^ k
  top32 h g = field32 h ∙ top g

  pub top64 :
      v < 2 ^ 64
      → w ≤ 32
      → v < 2 ^ (k + w)
      → put64 (get64 v k (2 ^ w - 1)) (2 ^ w - 1) k ≡ v / 2 ^ k * 2 ^ k
  top64 h l g = field64 h l ∙ top g

  pub next32 :
      {acc : ℕ}
      → v < 2 ^ 32
      → acc ≡ v / 2 ^ (k + w) * 2 ^ (k + w)
      → acc ∪ put32 (get32 v k (2 ^ w - 1)) (2 ^ w - 1) k ≡ v / 2 ^ k * 2 ^ k
  next32 h e = rw (e, field32 h) join

  pub next64 :
      {acc : ℕ}
      → v < 2 ^ 64
      → w ≤ 32
      → acc ≡ v / 2 ^ (k + w) * 2 ^ (k + w)
      → acc ∪ put64 (get64 v k (2 ^ w - 1)) (2 ^ w - 1) k ≡ v / 2 ^ k * 2 ^ k
  next64 h l e = rw (e, field64 h l) join
