-- ===== src/Libc.antt =====
-- src/libs/libxmhfc: the memory and string functions, on one byte memory. A pointer is a 32-bit number
-- and `char` is signed; each loop runs on the length that it counts down.
pub mod Copy
pub mod Compare
pub mod Strings
use uberspark.Base.{ℕ, zero, suc, ◌+◌, ◌-◌, ◌^◌, u32, sub32, ◌==◌, ltb, if◌then◌else◌}
use uberspark.Hwm.Obj.{Memory, store8, memcpy_within}

-- memcpy: its loop is that of the hardware model.
abbrev pub memcpy : Memory → ℕ → ℕ → ℕ → Memory
memcpy m dst src n = memcpy_within n m dst src

-- `while (n) { *--q = *--p; n--; }`
pub copy_backwards : ℕ → Memory → ℕ → ℕ → Memory
copy_backwards zero m q p = m
copy_backwards (suc n) m q p =
    copy_backwards n (store8 m (sub32 q 1) (m (sub32 p 1))) (sub32 q 1) (sub32 p 1)

pub memmove : Memory → ℕ → ℕ → ℕ → Memory
memmove m dst src n =
    if ltb dst src
    then memcpy_within n m dst src
    else copy_backwards n m (u32 (dst + n)) (u32 (src + n))

-- The loop of memset from index `i` on.
pub fill : ℕ → Memory → ℕ → ℕ → Memory
fill zero m q c = m
fill (suc n) m q c = fill n (store8 m q c) (q + 1) c

pub memset : Memory → ℕ → ℕ → ℕ → Memory
memset m dst c n = fill n m dst c

-- `(int)c` of a signed char, as a 32-bit number.
abbrev pub int_of_char : ℕ → ℕ
int_of_char c = if ltb c 128 then c else c + (2 ^ 32 - 256)

-- The loop of memcmp, and its result `d`.
pub memcmp : ℕ → Memory → ℕ → ℕ → ℕ
memcmp zero m c1 c2 = 0
memcmp (suc n) m c1 c2 =
    let d = sub32 (int_of_char (m (u32 c1))) (int_of_char (m (u32 c2))) in
    let rest = memcmp n m (c1 + 1) (c2 + 1) in if d == 0 then rest else d

-- The loop of strncmp: it ends at a difference or behind the end of the first string.
pub strncmp : ℕ → Memory → ℕ → ℕ → ℕ
strncmp zero m c1 c2 = 0
strncmp (suc n) m c1 c2 =
    let d = sub32 (int_of_char (m (u32 c1))) (int_of_char (m (u32 c2))) in
    let rest = strncmp n m (c1 + 1) (c2 + 1) in
    if d == 0 then (if m (u32 c1) == 0 then d else rest) else d

-- `while ((maxlen > 0) && *ss) { ss++; maxlen--; }`: the pointer at which it stops.
pub scan : ℕ → Memory → ℕ → ℕ
scan zero m ss = ss
scan (suc n) m ss = let rest = scan n m (ss + 1) in if m (u32 ss) == 0 then ss else rest

pub strnlen : Memory → ℕ → ℕ → ℕ
strnlen m s maxlen = sub32 (scan maxlen m s) s
