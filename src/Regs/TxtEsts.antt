-- ===== src/Regs/TxtEsts.antt =====
-- src/hwm/include/xmhfhwm_cpu.h: the register txt_ests_t, its packing and unpacking.
use uberspark.Base.{ℕ, ◌^◌, ◌<◌, ◌≡◌, arith, u64}
use uberspark.Regs.Field.{◌∪◌, put64, get64, top64, next64}

pub record TxtEsts : Type 0 where
  pub txt_reset_sts : ℕ
  pub reserved1 : ℕ
  pub txt_wake_error_sts : ℕ
  pub reserved2 : ℕ

unfoldable pub pack_txt_ests : TxtEsts → ℕ
pack_txt_ests s = u64 (
    put64 s.reserved2 0x1 7
    ∪ put64 s.txt_wake_error_sts 0x1 6
    ∪ put64 s.reserved1 0x1f 1
    ∪ put64 s.txt_reset_sts 0x1 0)

unfoldable pub unpack_txt_ests : ℕ → TxtEsts
unpack_txt_ests value = record {
  reserved2 = get64 value 7 0x1;
  txt_wake_error_sts = get64 value 6 0x1;
  reserved1 = get64 value 1 0x1f;
  txt_reset_sts = get64 value 0 0x1;
}

-- Unpacking loses none of the 8 bits in use.
pub pack_txt_ests-unpack_txt_ests : (v : ℕ) → v < 2 ^ 8 → pack_txt_ests (unpack_txt_ests v) ≡ v
unfolding pack_txt_ests unpack_txt_ests
pack_txt_ests-unpack_txt_ests v h = omega (
  arith,
  next64 0 1 v (omega arith) (omega arith) (
      next64 1 5 v (omega arith) (omega arith) (
        next64 6 1 v (omega arith) (omega arith)
          (top64 7 1 v (omega arith) (omega arith) (omega arith)))),
)
