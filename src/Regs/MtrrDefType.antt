-- ===== src/Regs/MtrrDefType.antt =====
-- src/hwm/include/xmhfhwm_cpu.h: the register mtrr_def_type_t, its packing and unpacking.
use uberspark.Base.{ℕ, ◌^◌, ◌<◌, ◌≡◌, arith, u64}
use uberspark.Regs.Field.{◌∪◌, put64, get64, top64, next64}

pub record MtrrDefType : Type 0 where
  pub type : ℕ
  pub reserved1 : ℕ
  pub fe : ℕ
  pub e : ℕ
  pub reserved2 : ℕ
  pub reserved3 : ℕ

unfoldable pub pack_mtrr_def_type : MtrrDefType → ℕ
pack_mtrr_def_type s = u64 (
    put64 s.reserved3 0xf_ffff 44
    ∪ put64 s.reserved2 0xffff_ffff 12
    ∪ put64 s.e 0x1 11
    ∪ put64 s.fe 0x1 10
    ∪ put64 s.reserved1 0x3 8
    ∪ put64 s.type 0xff 0)

unfoldable pub unpack_mtrr_def_type : ℕ → MtrrDefType
unpack_mtrr_def_type value = record {
  reserved3 = get64 value 44 0xf_ffff;
  reserved2 = get64 value 12 0xffff_ffff;
  e = get64 value 11 0x1;
  fe = get64 value 10 0x1;
  reserved1 = get64 value 8 0x3;
  type = get64 value 0 0xff;
}

-- Unpacking loses no bit of the register.
pub pack_mtrr_def_type-unpack_mtrr_def_type :
    (v : ℕ) → v < 2 ^ 64 → pack_mtrr_def_type (unpack_mtrr_def_type v) ≡ v
unfolding pack_mtrr_def_type unpack_mtrr_def_type
pack_mtrr_def_type-unpack_mtrr_def_type v h = omega (
  arith,
  next64 0 8 v h (omega arith) (
      next64 8 2 v h (omega arith) (
        next64 10 1 v h (omega arith) (
          next64 11 1 v h (omega arith)
            (next64 12 32 v h (omega arith) (top64 44 20 v h (omega arith) (omega arith)))))),
)
