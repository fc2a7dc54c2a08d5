-- ===== src/Regs/MtrrPhysbase.antt =====
-- src/hwm/include/xmhfhwm_cpu.h: the register mtrr_physbase_t, its packing and unpacking.
use uberspark.Base.{ℕ, ◌^◌, ◌<◌, ◌≡◌, arith, u64}
use uberspark.Regs.Field.{◌∪◌, put64, get64, top64, next64}

pub record MtrrPhysbase : Type 0 where
  pub type : ℕ
  pub reserved1 : ℕ
  pub base : ℕ
  pub reserved2 : ℕ

unfoldable pub pack_mtrr_physbase : MtrrPhysbase → ℕ
pack_mtrr_physbase s = u64 (
    put64 s.reserved2 0xfff_ffff 36
    ∪ put64 s.base 0xff_ffff 12
    ∪ put64 s.reserved1 0xf 8
    ∪ put64 s.type 0xff 0)

unfoldable pub unpack_mtrr_physbase : ℕ → MtrrPhysbase
unpack_mtrr_physbase value = record {
  reserved2 = get64 value 36 0xfff_ffff;
  base = get64 value 12 0xff_ffff;
  reserved1 = get64 value 8 0xf;
  type = get64 value 0 0xff;
}

-- Unpacking loses no bit of the register.
pub pack_mtrr_physbase-unpack_mtrr_physbase :
    (v : ℕ) → v < 2 ^ 64 → pack_mtrr_physbase (unpack_mtrr_physbase v) ≡ v
unfolding pack_mtrr_physbase unpack_mtrr_physbase
pack_mtrr_physbase-unpack_mtrr_physbase v h = omega (
  arith,
  next64 0 8 v h (omega arith) (
      next64 8 4 v h (omega arith)
        (next64 12 24 v h (omega arith) (top64 36 28 v h (omega arith) (omega arith)))),
)
