-- ===== src/Regs/TxtSts.antt =====
-- src/hwm/include/xmhfhwm_cpu.h: the register txt_sts_t, its packing and unpacking.
use uberspark.Base.{ℕ, ◌^◌, ◌<◌, ◌≡◌, arith, u64}
use uberspark.Regs.Field.{◌∪◌, put64, get64, top64, next64}

pub record TxtSts : Type 0 where
  pub senter_done_sts : ℕ
  pub sexit_done_sts : ℕ
  pub reserved1 : ℕ
  pub mem_unlock_sts : ℕ
  pub reserved2 : ℕ
  pub mem_config_lock_sts : ℕ
  pub private_open_sts : ℕ
  pub reserved3 : ℕ
  pub mem_config_ok_sts : ℕ

unfoldable pub pack_txt_sts : TxtSts → ℕ
pack_txt_sts s = u64 (
    put64 s.mem_config_ok_sts 0x1 11
    ∪ put64 s.reserved3 0x7 8
    ∪ put64 s.private_open_sts 0x1 7
    ∪ put64 s.mem_config_lock_sts 0x1 6
    ∪ put64 s.reserved2 0x1 5
    ∪ put64 s.mem_unlock_sts 0x1 4
    ∪ put64 s.reserved1 0x3 2
    ∪ put64 s.sexit_done_sts 0x1 1
    ∪ put64 s.senter_done_sts 0x1 0)

unfoldable pub unpack_txt_sts : ℕ → TxtSts
unpack_txt_sts value = record {
  mem_config_ok_sts = get64 value 11 0x1;
  reserved3 = get64 value 8 0x7;
  private_open_sts = get64 value 7 0x1;
  mem_config_lock_sts = get64 value 6 0x1;
  reserved2 = get64 value 5 0x1;
  mem_unlock_sts = get64 value 4 0x1;
  reserved1 = get64 value 2 0x3;
  sexit_done_sts = get64 value 1 0x1;
  senter_done_sts = get64 value 0 0x1;
}

-- Unpacking loses none of the 12 bits in use.
pub pack_txt_sts-unpack_txt_sts : (v : ℕ) → v < 2 ^ 12 → pack_txt_sts (unpack_txt_sts v) ≡ v
unfolding pack_txt_sts unpack_txt_sts
pack_txt_sts-unpack_txt_sts v h = omega (
  arith,
  next64 0 1 v (omega arith) (omega arith) (
      next64 1 1 v (omega arith) (omega arith) (
        next64 2 2 v (omega arith) (omega arith) (
          next64 4 1 v (omega arith) (omega arith) (
            next64 5 1 v (omega arith) (omega arith) (
              next64 6 1 v (omega arith) (omega arith) (
                next64 7 1 v (omega arith) (omega arith) (
                  next64 8 3 v (omega arith) (omega arith)
                    (top64 11 1 v (omega arith) (omega arith) (omega arith))))))))),
)
