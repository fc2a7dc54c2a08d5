-- ===== src/Regs/VtdGcmd.antt =====
-- src/hwm/include/xmhfhwm_vtd.h: the register VTD_GCMD_REG, its packing and unpacking.
use uberspark.Base.{ℕ, ◌^◌, ◌<◌, ◌≡◌, arith, u32}
use uberspark.Regs.Field.{◌∪◌, put32, get32, top32, next32}

pub record VtdGcmdReg : Type 0 where
  pub rsvdz0 : ℕ
  pub cfi : ℕ
  pub sirtp : ℕ
  pub ire : ℕ
  pub qie : ℕ
  pub wbf : ℕ
  pub eafl : ℕ
  pub sfl : ℕ
  pub srtp : ℕ
  pub te : ℕ

unfoldable pub pack_vtd_gcmd_reg : VtdGcmdReg → ℕ
pack_vtd_gcmd_reg s = u32 (
    put32 s.te 0x1 31
    ∪ put32 s.srtp 0x1 30
    ∪ put32 s.sfl 0x1 29
    ∪ put32 s.eafl 0x1 28
    ∪ put32 s.wbf 0x1 27
    ∪ put32 s.qie 0x1 26
    ∪ put32 s.ire 0x1 25
    ∪ put32 s.sirtp 0x1 24
    ∪ put32 s.cfi 0x1 23
    ∪ put32 s.rsvdz0 0x7f_ffff 0)

unfoldable pub unpack_vtd_gcmd_reg : ℕ → VtdGcmdReg
unpack_vtd_gcmd_reg value = record {
  te = get32 value 31 0x1;
  srtp = get32 value 30 0x1;
  sfl = get32 value 29 0x1;
  eafl = get32 value 28 0x1;
  wbf = get32 value 27 0x1;
  qie = get32 value 26 0x1;
  ire = get32 value 25 0x1;
  sirtp = get32 value 24 0x1;
  cfi = get32 value 23 0x1;
  rsvdz0 = get32 value 0 0x7f_ffff;
}

-- Unpacking loses no bit of the register.
pub pack_vtd_gcmd_reg-unpack_vtd_gcmd_reg :
    (v : ℕ) → v < 2 ^ 32 → pack_vtd_gcmd_reg (unpack_vtd_gcmd_reg v) ≡ v
unfolding pack_vtd_gcmd_reg unpack_vtd_gcmd_reg
pack_vtd_gcmd_reg-unpack_vtd_gcmd_reg v h = omega (
  arith,
  next32 0 23 v h (
      next32 23 1 v h (
        next32 24 1 v h (
          next32 25 1 v h (
            next32 26 1 v h (
              next32 27 1 v h (
                next32 28 1 v h
                  (next32 29 1 v h (next32 30 1 v h (top32 31 1 v h (omega arith)))))))))),
)
