-- ===== src/Regs/VtdGsts.antt =====
-- src/hwm/include/xmhfhwm_vtd.h: the register VTD_GSTS_REG, its packing and unpacking.
use uberspark.Base.{ℕ, ◌^◌, ◌<◌, ◌≡◌, arith, u32}
use uberspark.Regs.Field.{◌∪◌, put32, get32, top32, next32}

pub record VtdGstsReg : Type 0 where
  pub rsvdz0 : ℕ
  pub cfis : ℕ
  pub irtps : ℕ
  pub ires : ℕ
  pub qies : ℕ
  pub wbfs : ℕ
  pub afls : ℕ
  pub fls : ℕ
  pub rtps : ℕ
  pub tes : ℕ

unfoldable pub pack_vtd_gsts_reg : VtdGstsReg → ℕ
pack_vtd_gsts_reg s = u32 (
    put32 s.tes 0x1 31
    ∪ put32 s.rtps 0x1 30
    ∪ put32 s.fls 0x1 29
    ∪ put32 s.afls 0x1 28
    ∪ put32 s.wbfs 0x1 27
    ∪ put32 s.qies 0x1 26
    ∪ put32 s.ires 0x1 25
    ∪ put32 s.irtps 0x1 24
    ∪ put32 s.cfis 0x1 23
    ∪ put32 s.rsvdz0 0x7f_ffff 0)

unfoldable pub unpack_vtd_gsts_reg : ℕ → VtdGstsReg
unpack_vtd_gsts_reg value = record {
  tes = get32 value 31 0x1;
  rtps = get32 value 30 0x1;
  fls = get32 value 29 0x1;
  afls = get32 value 28 0x1;
  wbfs = get32 value 27 0x1;
  qies = get32 value 26 0x1;
  ires = get32 value 25 0x1;
  irtps = get32 value 24 0x1;
  cfis = get32 value 23 0x1;
  rsvdz0 = get32 value 0 0x7f_ffff;
}

-- Unpacking loses no bit of the register.
pub pack_vtd_gsts_reg-unpack_vtd_gsts_reg :
    (v : ℕ) → v < 2 ^ 32 → pack_vtd_gsts_reg (unpack_vtd_gsts_reg v) ≡ v
unfolding pack_vtd_gsts_reg unpack_vtd_gsts_reg
pack_vtd_gsts_reg-unpack_vtd_gsts_reg v h = omega (
  arith,
  next32 0 23 v h (
      next32 23 1 v h (
        next32 24 1 v h (
          next32 25 1 v h (
            next32 26 1 v h (
              next32 27 1 v h (
                next32 28 1 v h
                  (next32 29 1 v h (next32 30 1 v h (top32 31 1 v h (omega arith)))))))))),
)
