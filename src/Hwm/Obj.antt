-- ===== src/Hwm/Obj.antt =====
-- Memory as the hardware model's C code reads and writes it through pointers: bytes at 32-bit
-- addresses, little-endian words, and the byte copy loop that src/hwm/xmhfhwm_bios.c, xmhfhwm_mem.c,
-- xmhfhwm_txt.c and xmhfhwm_cpu.c each declare.
pub mod Laws
use uberspark.Base.{ℕ, zero, suc, ◌+◌, ◌*◌, u8, u32, ◌<<◌, ◌>>◌, ◌==◌, if◌then◌else◌}

abbrev pub Memory : Type 0
Memory = ℕ → ℕ

abbrev pub store8 : Memory → ℕ → ℕ → Memory
store8 m p v = λ a. if a == u32 p then u8 v else m a

pub load16 : Memory → ℕ → ℕ
load16 m p = m (u32 p) + (m (u32 (p + 1)) << 8)

unfoldable pub load32 : Memory → ℕ → ℕ
load32 m p = m (u32 p) + (m (u32 (p + 1)) << 8) + (m (u32 (p + 2)) << 16) + (m (u32 (p + 3)) << 24)

unfoldable pub store16 : Memory → ℕ → ℕ → Memory
store16 m p v = store8 (store8 m p v) (p + 1) (v >> 8)

unfoldable pub store32 : Memory → ℕ → ℕ → Memory
store32 m p v =
    store8 (store8 (store8 (store8 m p v) (p + 1) (v >> 8)) (p + 2) (v >> 16)) (p + 3) (v >> 24)

unfoldable pub store64 : Memory → ℕ → ℕ → Memory
store64 m p v = store32 (store32 m p v) (p + 4) (v >> 32)

-- `while (n) { *q++ = *p++; n--; }` from one object into another.
pub memcpy : ℕ → Memory → ℕ → Memory → ℕ → Memory
memcpy zero dst q src p = dst
memcpy (suc n) dst q src p = memcpy n (store8 dst q (src (u32 p))) (q + 1) src (p + 1)

-- The same loop within one memory, where source and destination may overlap.
unfoldable pub memcpy_within : ℕ → Memory → ℕ → ℕ → Memory
memcpy_within zero m q p = m
memcpy_within (suc n) m q p = memcpy_within n (store8 m q (m (u32 p))) (q + 1) (p + 1)
