-- ===== src/Hwm/Obj/Laws.antt =====
-- Laws of byte memory: what a word store leaves to be read, and what the copy loop does.
use uberspark.Base.{
  ℕ, zero, suc, ◌+◌, ◌^◌, ◌≤◌, ◌<◌, ◌≡◌, ◌≢◌, ◌⊎◌, arith, u8, u32, if◌then◌else◌, leb, ltb, ◌&&◌,
  ◌-◌,
}
use uberspark.Hwm.Obj.{Memory, load32, store8, store32, memcpy}

pub load32-store32 : (m : Memory) (p v : ℕ) → v < 2 ^ 32 → load32 (store32 m p v) p ≡ v
unfolding load32 store32
load32-store32 m p v h = ground arith

-- Bytes that are not of the word stay.
pub store32_frame :
    (m : Memory) (p v a : ℕ)
    → a ≢ u32 p
    → a ≢ u32 (p + 1)
    → a ≢ u32 (p + 2)
    → a ≢ u32 (p + 3)
    → store32 m p v a ≡ m a
unfolding store32
store32_frame m p v a h0 h1 h2 h3 = ground arith

-- For addresses below 2 ^ 32, a 32-bit store leaves every 32-bit word that does not overlap the
-- stored one, around the end of the address space too.
pub load32-store32_ne :
    (m : Memory) (p q v : ℕ)
    → p < 2 ^ 32
    → q < 2 ^ 32
    → ((p + 4 ≤ q) × (q + 4 ≤ p + 2 ^ 32)) ⊎ ((q + 4 ≤ p) × (p + 4 ≤ q + 2 ^ 32))
    → load32 (store32 m p v) q ≡ load32 m q
unfolding load32 store32
load32-store32_ne m p q v hp hq h = ground arith

-- After the copy loop for n bytes into a range that does not wrap, byte i of the destination range
-- is byte i of the source range as an unsigned char, and no byte outside of the destination range
-- is changed.
pub memcpy_lem :
    (n : ℕ) (dst src : Memory) (q p a : ℕ)
    → q + n ≤ 2 ^ 32
    → memcpy n dst q src p a
      ≡ (if leb q a && ltb a (q + n) then u8 (src (u32 (p + (a - q)))) else dst a)
unfolding memcpy
memcpy_lem zero dst src q p a h = ground arith
memcpy_lem (suc n) dst src q p a h =
    ground (arith, memcpy_lem n (store8 dst q (src (u32 p))) src (q + 1) (p + 1) a)
