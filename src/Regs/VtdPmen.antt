-- ===== src/Regs/VtdPmen.antt =====
-- src/hwm/include/xmhfhwm_vtd.h: the register VTD_PMEN_REG, its packing and unpacking.
use uberspark.Base.{ℕ, ◌^◌, ◌<◌, ◌≡◌, arith, u32}
use uberspark.Regs.Field.{◌∪◌, put32, get32, top32, next32}

pub record VtdPmenReg : Type 0 where
  pub prs : ℕ
  pub rsvdp : ℕ
  pub epm : ℕ

unfoldable pub pack_vtd_pmen_reg : VtdPmenReg → ℕ
pack_vtd_pmen_reg s = u32 (put32 s.epm 0x1 31 ∪ put32 s.rsvdp 0x3fff_ffff 1 ∪ put32 s.prs 0x1 0)

unfoldable pub unpack_vtd_pmen_reg : ℕ → VtdPmenReg
unpack_vtd_pmen_reg value = record {
  epm = get32 value 31 0x1;
  rsvdp = get32 value 1 0x3fff_ffff;
  prs = get32 value 0 0x1;
}

-- Unpacking loses no bit of the register.
pub pack_vtd_pmen_reg-unpack_vtd_pmen_reg :
    (v : ℕ) → v < 2 ^ 32 → pack_vtd_pmen_reg (unpack_vtd_pmen_reg v) ≡ v
unfolding pack_vtd_pmen_reg unpack_vtd_pmen_reg
pack_vtd_pmen_reg-unpack_vtd_pmen_reg v h =
    omega (arith, next32 0 1 v h (next32 1 30 v h (top32 31 1 v h (omega arith))))
