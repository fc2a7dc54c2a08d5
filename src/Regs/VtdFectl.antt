-- ===== src/Regs/VtdFectl.antt =====
-- src/hwm/include/xmhfhwm_vtd.h: the register VTD_FECTL_REG, its packing and unpacking.
use uberspark.Base.{ℕ, ◌^◌, ◌<◌, ◌≡◌, arith, u32}
use uberspark.Regs.Field.{◌∪◌, put32, get32, top32, next32}

pub record VtdFectlReg : Type 0 where
  pub rsvdp0 : ℕ
  pub ip : ℕ
  pub im : ℕ

unfoldable pub pack_vtd_fectl_reg : VtdFectlReg → ℕ
pack_vtd_fectl_reg s = u32 (put32 s.im 0x1 31 ∪ put32 s.ip 0x1 30 ∪ put32 s.rsvdp0 0x3fff_ffff 0)

unfoldable pub unpack_vtd_fectl_reg : ℕ → VtdFectlReg
unpack_vtd_fectl_reg value = record {
  im = get32 value 31 0x1;
  ip = get32 value 30 0x1;
  rsvdp0 = get32 value 0 0x3fff_ffff;
}

-- Unpacking loses no bit of the register.
pub pack_vtd_fectl_reg-unpack_vtd_fectl_reg :
    (v : ℕ) → v < 2 ^ 32 → pack_vtd_fectl_reg (unpack_vtd_fectl_reg v) ≡ v
unfolding pack_vtd_fectl_reg unpack_vtd_fectl_reg
pack_vtd_fectl_reg-unpack_vtd_fectl_reg v h =
    omega (arith, next32 0 30 v h (next32 30 1 v h (top32 31 1 v h (omega arith))))
