-- ===== src/Libc/Compare.antt =====
-- src/libs/libxmhfc/memcmp.c, strncmp.c, strnlen.c: comparison and length.
use uberspark.Base.{
  ℕ, zero, suc, ◌+◌, ◌^◌, ◌≤◌, ◌<◌, ◌≡◌, ◌≢◌, ◌↔◌, refl, ap, sym, ◌∙◌, true, false, ==_iff, eq→==,
  Bool-cases, inl, inr, arith, u32, sub32, ◌==◌,
}
use native.Mathlib.Decide.{dec_lt}
use uberspark.Hwm.Obj.{Memory}
use uberspark.Libc.{int_of_char, memcmp, strncmp, scan, strnlen}

-- A memory of bytes.
abbrev pub IsBytes : Memory → Type 0
IsBytes m = (a : ℕ) → m a < 256

diff_zero : (x y : ℕ) → x < 256 → y < 256 → sub32 (int_of_char x) (int_of_char y) ≡ 0 → x ≡ y
diff_zero x y hx hy h = ground arith

diff_same : (x y : ℕ) → x < 256 → x ≡ y → sub32 (int_of_char x) (int_of_char y) ≡ 0
diff_same x y hx h = ground arith

plus_zero : (c : ℕ) → c + 0 ≡ c
plus_zero c = omega arith

plus_suc : (c i : ℕ) → c + suc i ≡ c + 1 + i
plus_suc c i = omega arith

-- Equal bytes at the same places, with the first taken off.
module _ (m : Memory) (c1 c2 : ℕ) where
  head_same : m (u32 (c1 + 0)) ≡ m (u32 (c2 + 0)) → m (u32 c1) ≡ m (u32 c2)
  head_same e = rw (plus_zero c1, plus_zero c2) at e

  tail_same :
      (i : ℕ)
      → m (u32 (c1 + suc i)) ≡ m (u32 (c2 + suc i))
      → m (u32 (c1 + 1 + i)) ≡ m (u32 (c2 + 1 + i))
  tail_same i e = rw (plus_suc c1 i, plus_suc c2 i) at e

module _ (m : Memory) (b : IsBytes m) where
  memcmp-equal :
      (n c1 c2 : ℕ) → ((i : ℕ) → i < n → m (u32 (c1 + i)) ≡ m (u32 (c2 + i))) → memcmp n m c1 c2 ≡ 0
  unfolding memcmp
  memcmp-equal zero c1 c2 h = refl
  memcmp-equal (suc n) c1 c2 h =
      rw (diff_same (m (u32 c1)) (m (u32 c2)) (b (u32 c1)) (head_same m c1 c2 (h 0 (omega arith))))
        (memcmp-equal n (c1 + 1) (c2 + 1) (λ i g. tail_same m c1 c2 i (h (suc i) (omega arith))))

  first :
      (n c1 c2 : ℕ)
      → memcmp (suc n) m c1 c2 ≡ 0
      → (m (u32 c1) ≡ m (u32 c2)) × (memcmp n m (c1 + 1) (c2 + 1) ≡ 0)
  unfolding memcmp
  first n c1 c2 h = ground (arith, diff_zero (m (u32 c1)) (m (u32 c2)) (b (u32 c1)) (b (u32 c2)))

  equal-memcmp :
      (n c1 c2 i : ℕ) → memcmp n m c1 c2 ≡ 0 → i < n → m (u32 (c1 + i)) ≡ m (u32 (c2 + i))
  equal-memcmp zero c1 c2 i h g = absurd (omega arith)
  equal-memcmp (suc n) c1 c2 zero h g = rw (plus_zero c1, plus_zero c2) ((first n c1 c2 h).0)
  equal-memcmp (suc n) c1 c2 (suc i) h g =
      rw (plus_suc c1 i, plus_suc c2 i)
        (equal-memcmp n (c1 + 1) (c2 + 1) i ((first n c1 c2 h).1) (omega arith))

  -- In a memory of bytes, `memcmp` gives zero exactly if the two ranges have equal bytes at all
  -- places.
  pub memcmp_lem :
      (n c1 c2 : ℕ)
      → (memcmp n m c1 c2 ≡ 0) ↔ ((i : ℕ) → i < n → m (u32 (c1 + i)) ≡ m (u32 (c2 + i)))
  memcmp_lem n c1 c2 = (λ h i g. equal-memcmp n c1 c2 i h g, memcmp-equal n c1 c2)

-- Where the scan stops: within the limit, behind no zero byte, and at one if it is short of the limit.
abbrev Stops : ℕ → Memory → ℕ → Type 0
Stops n m s =
    (s ≤ scan n m s)
    × (scan n m s ≤ s + n)
    × ((a : ℕ) → s ≤ a → a < scan n m s → m a ≢ 0)
    × (scan n m s < s + n → m (scan n m s) ≡ 0)

true-not-false : true ≢ false
true-not-false = ground arith

scan_step :
    (n : ℕ) (m : Memory) (s : ℕ) → s + suc n < 2 ^ 32 → Stops n m (s + 1) → Stops (suc n) m s
unfolding scan
scan_step n m s h ih = elim (Bool-cases (m (u32 s) == 0)) [
  | inl e ↦ rw (e) (omega arith, omega arith, (λ a g k. absurd (omega arith)), (λ g. stop e))
  | inr e ↦ rw (e) (
    omega (arith, ih.0),
    omega (arith, ih.1),
    (λ a g k. beyond e a g k),
    (λ g. ih.3 (omega arith)),
  )
]
  where
    same : u32 s ≡ s
    same = omega arith

    stop : (m (u32 s) == 0) ≡ true → m s ≡ 0
    stop e = ap m (sym same) ∙ (==_iff (m (u32 s)) 0).0 e

    beyond : (m (u32 s) == 0) ≡ false → (a : ℕ) → s ≤ a → a < scan n m (s + 1) → m a ≢ 0
    beyond e a g k = elim (dec_lt s a) [
      | yes l ↦ ih.2 a (omega arith) k
      | no l ↦ λ z. true-not-false (sym (eq→== (m (u32 s)) 0 (ap m (same ∙ at_start l) ∙ z)) ∙ e)
    ]
      where
        at_start : ¬ (s < a) → s ≡ a
        at_start l = omega arith

scan_lem : (n : ℕ) (m : Memory) (s : ℕ) → s + n < 2 ^ 32 → Stops n m s
unfolding scan
scan_lem zero m s h =
    (omega arith, omega arith, (λ a g k. absurd (omega arith)), (λ g. absurd (omega arith)))
scan_lem (suc n) m s h = scan_step n m s h (scan_lem n m (s + 1) (omega arith))

-- For a range that ends before the end of the address space, `strnlen` is at most the limit, no
-- byte before it is zero, and if it is below the limit the byte at it is zero.
pub strnlen_lem :
    (m : Memory) (s n : ℕ)
    → s + n < 2 ^ 32
    → (strnlen m s n ≤ n)
      × ((i : ℕ) → i < strnlen m s n → m (s + i) ≢ 0)
      × (strnlen m s n < n → m (s + strnlen m s n) ≡ 0)
unfolding strnlen
strnlen_lem m s n h = (
  omega (arith, t.0, t.1),
  (λ i g. t.2 (s + i) (omega arith) (omega (arith, t.0, t.1))),
  (λ g. ap m back ∙ t.3 (omega (arith, t.0, t.1))),
)
  where
    t : Stops n m s
    t = scan_lem n m s h

    back : s + sub32 (scan n m s) s ≡ scan n m s
    back = omega (arith, t.0, t.1)

-- What the strings have in common: the bytes at each place that no zero byte comes before.
abbrev pub SameString : ℕ → Memory → ℕ → ℕ → Type 0
SameString n m c1 c2 =
    (i : ℕ) → i < n → ((j : ℕ) → j < i → m (u32 (c1 + j)) ≢ 0) → m (u32 (c1 + i)) ≡ m (u32 (c2 + i))

-- No zero byte among the first `i`.
abbrev NoEnd : Memory → ℕ → ℕ → Type 0
NoEnd m c i = (j : ℕ) → j < i → m (u32 (c + j)) ≢ 0

tail-NoEnd : (m : Memory) (c i : ℕ) → NoEnd m c (suc i) → NoEnd m (c + 1) i
tail-NoEnd m c i h j g = rw (plus_suc c j) at (h (suc j) (omega arith))

cons-NoEnd : (m : Memory) (c i : ℕ) → m (u32 c) ≢ 0 → NoEnd m (c + 1) i → NoEnd m c (suc i)
cons-NoEnd m c i z h zero g = rw (plus_zero c) z
cons-NoEnd m c i z h (suc j) g = rw (plus_suc c j) (h j (omega arith))

module _ (m : Memory) (b : IsBytes m) where
  first-strncmp :
      (n c1 c2 : ℕ)
      → strncmp (suc n) m c1 c2 ≡ 0
      → (m (u32 c1) ≡ m (u32 c2)) × (m (u32 c1) ≢ 0 → strncmp n m (c1 + 1) (c2 + 1) ≡ 0)
  unfolding strncmp
  first-strncmp n c1 c2 h =
      ground (arith, diff_zero (m (u32 c1)) (m (u32 c2)) (b (u32 c1)) (b (u32 c2)))

  strncmp-SameString : (n c1 c2 : ℕ) → strncmp n m c1 c2 ≡ 0 → SameString n m c1 c2
  strncmp-SameString zero c1 c2 h i g z = absurd (omega arith)
  strncmp-SameString (suc n) c1 c2 h zero g z =
      rw (plus_zero c1, plus_zero c2) ((first-strncmp n c1 c2 h).0)
  strncmp-SameString (suc n) c1 c2 h (suc i) g z =
      rw (plus_suc c1 i, plus_suc c2 i)
        (strncmp-SameString n (c1 + 1) (c2 + 1)
          ((first-strncmp n c1 c2 h).1 (rw (plus_zero c1) at (z 0 (omega arith)))) i (omega arith)
          (tail-NoEnd m c1 i z))

  SameString-strncmp : (n c1 c2 : ℕ) → SameString n m c1 c2 → strncmp n m c1 c2 ≡ 0
  unfolding strncmp
  SameString-strncmp zero c1 c2 h = refl
  SameString-strncmp (suc n) c1 c2 h =
      rw
        (diff_same (m (u32 c1)) (m (u32 c2)) (b (u32 c1))
          (head_same m c1 c2 (h 0 (omega arith) (λ j g. absurd (omega arith)))))
        (elim (Bool-cases (m (u32 c1) == 0)) [
          | inl e ↦ rw (e)
          | inr e ↦ rw (e) (
              SameString-strncmp n (c1 + 1) (c2 + 1) (λ i g z.
                tail_same m c1 c2 i (h (suc i) (omega arith) (cons-NoEnd m c1 i (not_end e) z))))
        ])
    where
      not_end : (m (u32 c1) == 0) ≡ false → m (u32 c1) ≢ 0
      not_end e = ground arith

  -- In a memory of bytes, `strncmp` gives zero exactly if the two strings have equal bytes at
  -- every place below the limit that no zero byte of the first string comes before.
  pub strncmp_lem : (n c1 c2 : ℕ) → (strncmp n m c1 c2 ≡ 0) ↔ SameString n m c1 c2
  strncmp_lem n c1 c2 = (strncmp-SameString n c1 c2, SameString-strncmp n c1 c2)
