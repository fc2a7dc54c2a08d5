-- ===== src/Regs/TxtE2sts.antt =====
-- src/hwm/include/xmhfhwm_cpu.h: the register txt_e2sts_t, its packing and unpacking.
use uberspark.Base.{ℕ, ◌^◌, ◌<◌, ◌≡◌, arith, u64}
use uberspark.Regs.Field.{◌∪◌, put64, get64, top64, next64}

pub record TxtE2sts : Type 0 where
  pub slp_entry_error_sts : ℕ
  pub secrets_sts : ℕ
  pub block_mem_sts : ℕ
  pub reset_sts : ℕ

unfoldable pub pack_txt_e2sts : TxtE2sts → ℕ
pack_txt_e2sts s = u64 (
    put64 s.reset_sts 0x1 3
    ∪ put64 s.block_mem_sts 0x1 2
    ∪ put64 s.secrets_sts 0x1 1
    ∪ put64 s.slp_entry_error_sts 0x1 0)

unfoldable pub unpack_txt_e2sts : ℕ → TxtE2sts
unpack_txt_e2sts value = record {
  reset_sts = get64 value 3 0x1;
  block_mem_sts = get64 value 2 0x1;
  secrets_sts = get64 value 1 0x1;
  slp_entry_error_sts = get64 value 0 0x1;
}

-- Unpacking loses none of the 4 bits in use.
pub pack_txt_e2sts-unpack_txt_e2sts : (v : ℕ) → v < 2 ^ 4 → pack_txt_e2sts (unpack_txt_e2sts v) ≡ v
unfolding pack_txt_e2sts unpack_txt_e2sts
pack_txt_e2sts-unpack_txt_e2sts v h = omega (
  arith,
  next64 0 1 v (omega arith) (omega arith) (
      next64 1 1 v (omega arith) (omega arith) (
        next64 2 1 v (omega arith) (omega arith)
          (top64 3 1 v (omega arith) (omega arith) (omega arith)))),
)
