-- ===== src/Libc/Copy.antt =====
-- src/libs/libxmhfc/memmove.c, memcpy.c, memset.c: every byte of memory after a copy or a fill.
use uberspark.Base.{
  ℕ, zero, suc, ◌+◌, ◌-◌, ◌^◌, ◌≤◌, ◌<◌, ◌≡◌, ◌⊎◌, inl, arith, u8, u32, sub32, if◌then◌else◌, leb,
  ltb, ◌&&◌,
}
use uberspark.Hwm.Obj.{Memory, store8, memcpy_within}
use uberspark.Libc.{memcpy, memmove, copy_backwards, memset, fill}

forwards :
    (n : ℕ) (m : Memory) (q p a : ℕ)
    → q + n ≤ 2 ^ 32
    → p + n ≤ 2 ^ 32
    → (q < p) ⊎ (p + n ≤ q)
    → memcpy_within n m q p a ≡ (if leb q a && ltb a (q + n) then u8 (m (p + (a - q))) else m a)
unfolding memcpy_within
forwards zero m q p a hq hp h = ground arith
forwards (suc n) m q p a hq hp h =
    ground (arith, forwards n (store8 m q (m (u32 p))) (q + 1) (p + 1) a)

backwards :
    (n : ℕ) (m : Memory) (q p a : ℕ)
    → q + n ≤ 2 ^ 32
    → p + n ≤ 2 ^ 32
    → p ≤ q
    → copy_backwards n m (u32 (q + n)) (u32 (p + n)) a
      ≡ (if leb q a && ltb a (q + n) then u8 (m (p + (a - q))) else m a)
unfolding copy_backwards
backwards zero m q p a hq hp h = ground arith
backwards (suc n) m q p a hq hp h =
    rw (step_back q hq, step_back p hp)
      (ground (arith, backwards n (store8 m (u32 (q + n)) (m (u32 (p + n)))) q p a))
  where
    step_back : (x : ℕ) → x + suc n ≤ 2 ^ 32 → sub32 (u32 (x + suc n)) 1 ≡ u32 (x + n)
    step_back x k = omega arith

-- For ranges that do not wrap around the address space and do not overlap, after `memcpy` every
-- byte of the destination is the byte at its place in the source, as an unsigned char, and no
-- other byte is changed.
pub memcpy_separated :
    (n : ℕ) (m : Memory) (dst src a : ℕ)
    → dst + n ≤ 2 ^ 32
    → src + n ≤ 2 ^ 32
    → (dst + n ≤ src) ⊎ (src + n ≤ dst)
    → memcpy m dst src n a
      ≡ (if leb dst a && ltb a (dst + n) then u8 (m (src + (a - dst))) else m a)
unfolding memcpy_within
memcpy_separated zero m dst src a hd hs h = ground arith
memcpy_separated (suc n) m dst src a hd hs h = forwards (suc n) m dst src a hd hs (before h)
  where
    before : (dst + suc n ≤ src) ⊎ (src + suc n ≤ dst) → (dst < src) ⊎ (src + suc n ≤ dst)
    before h = ground arith

-- For ranges that do not wrap around the address space, and whether they overlap or not, after
-- `memmove` every byte of the destination is the byte that stood at its place in the source
-- before, as an unsigned char, and no other byte is changed.
pub memmove_lem :
    (n : ℕ) (m : Memory) (dst src a : ℕ)
    → dst + n ≤ 2 ^ 32
    → src + n ≤ 2 ^ 32
    → memmove m dst src n a
      ≡ (if leb dst a && ltb a (dst + n) then u8 (m (src + (a - dst))) else m a)
unfolding memmove
memmove_lem n m dst src a hd hs =
    ground (
      arith,
      λ (l : dst < src). forwards n m dst src a hd hs (inl l),
      backwards n m dst src a hd hs,
    )

filled :
    (n : ℕ) (m : Memory) (q c a : ℕ)
    → q + n ≤ 2 ^ 32
    → fill n m q c a ≡ (if leb q a && ltb a (q + n) then u8 c else m a)
unfolding fill
filled zero m q c a h = ground arith
filled (suc n) m q c a h = ground (arith, filled n (store8 m q c) (q + 1) c a)

-- For a range that does not wrap around the address space, after `memset` every byte of the range
-- is the value as an unsigned char, and no other byte is changed.
pub memset_lem :
    (n : ℕ) (m : Memory) (dst c a : ℕ)
    → dst + n ≤ 2 ^ 32
    → memset m dst c n a ≡ (if leb dst a && ltb a (dst + n) then u8 c else m a)
unfolding memset
memset_lem n m dst c a h = filled n m dst c a h
