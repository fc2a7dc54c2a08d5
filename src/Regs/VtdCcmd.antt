-- ===== src/Regs/VtdCcmd.antt =====
-- src/hwm/include/xmhfhwm_vtd.h: the register VTD_CCMD_REG, its packing and unpacking.
use uberspark.Base.{ℕ, ◌^◌, ◌<◌, ◌≡◌, arith, u64}
use uberspark.Regs.Field.{◌∪◌, put64, get64, top64, next64}

pub record VtdCcmdReg : Type 0 where
  pub did : ℕ
  pub sid : ℕ
  pub fm : ℕ
  pub rsvdz0 : ℕ
  pub caig : ℕ
  pub cirg : ℕ
  pub icc : ℕ

unfoldable pub pack_vtd_ccmd_reg : VtdCcmdReg → ℕ
pack_vtd_ccmd_reg s = u64 (
    put64 s.icc 0x1 63
    ∪ put64 s.cirg 0x3 61
    ∪ put64 s.caig 0x3 59
    ∪ put64 s.rsvdz0 0x1ff_ffff 34
    ∪ put64 s.fm 0x3 32
    ∪ put64 s.sid 0xffff 16
    ∪ put64 s.did 0xffff 0)

unfoldable pub unpack_vtd_ccmd_reg : ℕ → VtdCcmdReg
unpack_vtd_ccmd_reg value = record {
  icc = get64 value 63 0x1;
  cirg = get64 value 61 0x3;
  caig = get64 value 59 0x3;
  rsvdz0 = get64 value 34 0x1ff_ffff;
  fm = get64 value 32 0x3;
  sid = get64 value 16 0xffff;
  did = get64 value 0 0xffff;
}

-- Unpacking loses no bit of the register.
pub pack_vtd_ccmd_reg-unpack_vtd_ccmd_reg :
    (v : ℕ) → v < 2 ^ 64 → pack_vtd_ccmd_reg (unpack_vtd_ccmd_reg v) ≡ v
unfolding pack_vtd_ccmd_reg unpack_vtd_ccmd_reg
pack_vtd_ccmd_reg-unpack_vtd_ccmd_reg v h = omega (
  arith,
  next64 0 16 v h (omega arith) (
      next64 16 16 v h (omega arith) (
        next64 32 2 v h (omega arith) (
          next64 34 25 v h (omega arith) (
            next64 59 2 v h (omega arith)
              (next64 61 2 v h (omega arith) (top64 63 1 v h (omega arith) (omega arith))))))),
)
