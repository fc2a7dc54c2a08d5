-- ===== src/Regs/VtdRtaddr.antt =====
-- src/hwm/include/xmhfhwm_vtd.h: the register VTD_RTADDR_REG, its packing and unpacking.
use uberspark.Base.{ℕ, ◌^◌, ◌<◌, ◌≡◌, arith, u64}
use uberspark.Regs.Field.{◌∪◌, put64, get64, top64, next64}

pub record VtdRtaddrReg : Type 0 where
  pub rsvdz0 : ℕ
  pub rta : ℕ
  pub rta_high : ℕ

unfoldable pub pack_vtd_rtaddr_reg : VtdRtaddrReg → ℕ
pack_vtd_rtaddr_reg s =
    u64 (put64 s.rta_high 0x3f_ffff 44 ∪ put64 s.rta 0xffff_ffff 12 ∪ put64 s.rsvdz0 0xfff 0)

unfoldable pub unpack_vtd_rtaddr_reg : ℕ → VtdRtaddrReg
unpack_vtd_rtaddr_reg value = record {
  rta_high = get64 value 44 0x3f_ffff;
  rta = get64 value 12 0xffff_ffff;
  rsvdz0 = get64 value 0 0xfff;
}

-- Unpacking loses no bit of the register.
pub pack_vtd_rtaddr_reg-unpack_vtd_rtaddr_reg :
    (v : ℕ) → v < 2 ^ 64 → pack_vtd_rtaddr_reg (unpack_vtd_rtaddr_reg v) ≡ v
unfolding pack_vtd_rtaddr_reg unpack_vtd_rtaddr_reg
pack_vtd_rtaddr_reg-unpack_vtd_rtaddr_reg v h = omega (
  arith,
  next64 0 12 v h (omega arith)
      (next64 12 32 v h (omega arith) (top64 44 22 v h (omega arith) (omega arith))),
)
