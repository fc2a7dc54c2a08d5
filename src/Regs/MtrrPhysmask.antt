-- ===== src/Regs/MtrrPhysmask.antt =====
-- src/hwm/include/xmhfhwm_cpu.h: the register mtrr_physmask_t, its packing and unpacking.
use uberspark.Base.{ℕ, ◌^◌, ◌<◌, ◌≡◌, arith, u64}
use uberspark.Regs.Field.{◌∪◌, put64, get64, top64, next64}

pub record MtrrPhysmask : Type 0 where
  pub reserved1 : ℕ
  pub v : ℕ
  pub mask : ℕ
  pub reserved2 : ℕ

unfoldable pub pack_mtrr_physmask : MtrrPhysmask → ℕ
pack_mtrr_physmask s = u64 (
    put64 s.reserved2 0xfff_ffff 36
    ∪ put64 s.mask 0xff_ffff 12
    ∪ put64 s.v 0x1 11
    ∪ put64 s.reserved1 0x7ff 0)

unfoldable pub unpack_mtrr_physmask : ℕ → MtrrPhysmask
unpack_mtrr_physmask value = record {
  reserved2 = get64 value 36 0xfff_ffff;
  mask = get64 value 12 0xff_ffff;
  v = get64 value 11 0x1;
  reserved1 = get64 value 0 0x7ff;
}

-- Unpacking loses no bit of the register.
pub pack_mtrr_physmask-unpack_mtrr_physmask :
    (v : ℕ) → v < 2 ^ 64 → pack_mtrr_physmask (unpack_mtrr_physmask v) ≡ v
unfolding pack_mtrr_physmask unpack_mtrr_physmask
pack_mtrr_physmask-unpack_mtrr_physmask v h = omega (
  arith,
  next64 0 11 v h (omega arith) (
      next64 11 1 v h (omega arith)
        (next64 12 24 v h (omega arith) (top64 36 28 v h (omega arith) (omega arith)))),
)
