-- ===== src/Driver/VtdReg/Places.antt =====
-- src/libs/libxmhfhw/xmhfhw_vtd_readreg.c, xmhfhw_vtd_writereg.c: where the switch on the register finds each register.
use uberspark.Base.{◌≡◌, refl, ap, List}
use uberspark.Hwm.Vtd.{Drhd}
use uberspark.Hwm.Vtd.Regs.{Reg, addr_of}
use uberspark.Hwm.Sysmem.Routes.VtdUnit.{Reachable}
use uberspark.Driver.VtdReg.{RegType, regtype_regaddr}
use uberspark.Driver.VtdReg.Laws.{handle, u32-addr_of}

module _ (d : Drhd) (pre : List Drhd) (p : Reachable pre d) where
  pub gcmd_at : regtype_regaddr (handle d) 0x18 ≡ (RegType.bits32, addr_of d Reg.gcmd)
  unfolding regtype_regaddr
  gcmd_at = ap (λ a. (RegType.bits32, a)) (u32-addr_of d Reg.gcmd p.0)

  pub gsts_at : regtype_regaddr (handle d) 0x1c ≡ (RegType.bits32, addr_of d Reg.gsts)
  unfolding regtype_regaddr
  gsts_at = ap (λ a. (RegType.bits32, a)) (u32-addr_of d Reg.gsts p.0)

  pub fectl_at : regtype_regaddr (handle d) 0x38 ≡ (RegType.bits32, addr_of d Reg.fectl)
  unfolding regtype_regaddr
  fectl_at = ap (λ a. (RegType.bits32, a)) (u32-addr_of d Reg.fectl p.0)

  pub pmen_at : regtype_regaddr (handle d) 0x64 ≡ (RegType.bits32, addr_of d Reg.pmen)
  unfolding regtype_regaddr
  pmen_at = ap (λ a. (RegType.bits32, a)) (u32-addr_of d Reg.pmen p.0)

  pub plmbase_at : regtype_regaddr (handle d) 0x68 ≡ (RegType.bits32, addr_of d Reg.plmbase)
  unfolding regtype_regaddr
  plmbase_at = ap (λ a. (RegType.bits32, a)) (u32-addr_of d Reg.plmbase p.0)

  pub plmlimit_at : regtype_regaddr (handle d) 0x6c ≡ (RegType.bits32, addr_of d Reg.plmlimit)
  unfolding regtype_regaddr
  plmlimit_at = ap (λ a. (RegType.bits32, a)) (u32-addr_of d Reg.plmlimit p.0)

  pub cap_at : regtype_regaddr (handle d) 0x8 ≡ (RegType.bits64, addr_of d Reg.cap_lo)
  unfolding regtype_regaddr
  cap_at = ap (λ a. (RegType.bits64, a)) (u32-addr_of d Reg.cap_lo p.0)

  pub rtaddr_at : regtype_regaddr (handle d) 0x20 ≡ (RegType.bits64, addr_of d Reg.rtaddr_lo)
  unfolding regtype_regaddr
  rtaddr_at = ap (λ a. (RegType.bits64, a)) (u32-addr_of d Reg.rtaddr_lo p.0)

  pub ccmd_at : regtype_regaddr (handle d) 0x28 ≡ (RegType.bits64, addr_of d Reg.ccmd_lo)
  unfolding regtype_regaddr
  ccmd_at = ap (λ a. (RegType.bits64, a)) (u32-addr_of d Reg.ccmd_lo p.0)

  pub phmbase_at : regtype_regaddr (handle d) 0x70 ≡ (RegType.bits64, addr_of d Reg.phmbase_lo)
  unfolding regtype_regaddr
  phmbase_at = ap (λ a. (RegType.bits64, a)) (u32-addr_of d Reg.phmbase_lo p.0)

  pub phmlimit_at : regtype_regaddr (handle d) 0x78 ≡ (RegType.bits64, addr_of d Reg.phmlimit_lo)
  unfolding regtype_regaddr
  phmlimit_at = ap (λ a. (RegType.bits64, a)) (u32-addr_of d Reg.phmlimit_lo p.0)

  pub iotlb_at : regtype_regaddr (handle d) 0xbeef ≡ (RegType.bits64, addr_of d Reg.iotlb_lo)
  unfolding regtype_regaddr
  iotlb_at = refl
