-- ===== src/Regs/MtrrCap.antt =====
-- src/hwm/include/xmhfhwm_cpu.h: the register mtrr_cap_t, its packing and unpacking.
use uberspark.Base.{ℕ, ◌^◌, ◌<◌, ◌≡◌, arith, u64}
use uberspark.Regs.Field.{◌∪◌, put64, get64, top64, next64}

pub record MtrrCap : Type 0 where
  pub vcnt : ℕ
  pub fix : ℕ
  pub reserved1 : ℕ
  pub wc : ℕ
  pub reserved2 : ℕ
  pub reserved3 : ℕ

unfoldable pub pack_mtrr_cap : MtrrCap → ℕ
pack_mtrr_cap s = u64 (
    put64 s.reserved3 0x1f_ffff 43
    ∪ put64 s.reserved2 0xffff_ffff 11
    ∪ put64 s.wc 0x1 10
    ∪ put64 s.reserved1 0x1 9
    ∪ put64 s.fix 0x1 8
    ∪ put64 s.vcnt 0xff 0)

unfoldable pub unpack_mtrr_cap : ℕ → MtrrCap
unpack_mtrr_cap value = record {
  reserved3 = get64 value 43 0x1f_ffff;
  reserved2 = get64 value 11 0xffff_ffff;
  wc = get64 value 10 0x1;
  reserved1 = get64 value 9 0x1;
  fix = get64 value 8 0x1;
  vcnt = get64 value 0 0xff;
}

-- Unpacking loses no bit of the register.
pub pack_mtrr_cap-unpack_mtrr_cap : (v : ℕ) → v < 2 ^ 64 → pack_mtrr_cap (unpack_mtrr_cap v) ≡ v
unfolding pack_mtrr_cap unpack_mtrr_cap
pack_mtrr_cap-unpack_mtrr_cap v h = omega (
  arith,
  next64 0 8 v h (omega arith) (
      next64 8 1 v h (omega arith) (
        next64 9 1 v h (omega arith) (
          next64 10 1 v h (omega arith)
            (next64 11 32 v h (omega arith) (top64 43 21 v h (omega arith) (omega arith)))))),
)
