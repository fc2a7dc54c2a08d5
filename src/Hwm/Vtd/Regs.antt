-- ===== src/Hwm/Vtd/Regs.antt =====
-- The registers of a unit by name: an abstract view of the two handlers of src/hwm/xmhfhwm_vtd.c, as
-- an enumeration of the registers, the address of each, and reading and writing by name.
use uberspark.Base.{ℕ, ◌+◌, ◌%◌, ◌≤◌, ◌≡◌}
use uberspark.Hwm.Vtd.{Drhd, write_gcmd, write_pmen, write_ccmd_hi, write_iotlb_hi}

pub data Reg : Type 0 where
  ver : Reg
  gcmd : Reg
  gsts : Reg
  fsts : Reg
  fectl : Reg
  pmen : Reg
  plmbase : Reg
  plmlimit : Reg
  cap_lo : Reg
  cap_hi : Reg
  ecap_lo : Reg
  ecap_hi : Reg
  rtaddr_lo : Reg
  rtaddr_hi : Reg
  ccmd_lo : Reg
  ccmd_hi : Reg
  phmbase_lo : Reg
  phmbase_hi : Reg
  phmlimit_lo : Reg
  phmlimit_hi : Reg
  iotlb_lo : Reg
  iotlb_hi : Reg
  iva_lo : Reg
  iva_hi : Reg

abbrev pub addr_of : Drhd → Reg → ℕ
addr_of d ver = d.regbaseaddr
addr_of d gcmd = d.regbaseaddr + 0x18
addr_of d gsts = d.regbaseaddr + 0x1c
addr_of d fsts = d.regbaseaddr + 0x34
addr_of d fectl = d.regbaseaddr + 0x38
addr_of d pmen = d.regbaseaddr + 0x64
addr_of d plmbase = d.regbaseaddr + 0x68
addr_of d plmlimit = d.regbaseaddr + 0x6c
addr_of d cap_lo = d.regbaseaddr + 0x8
addr_of d cap_hi = d.regbaseaddr + 0xc
addr_of d ecap_lo = d.regbaseaddr + 0x10
addr_of d ecap_hi = d.regbaseaddr + 0x14
addr_of d rtaddr_lo = d.regbaseaddr + 0x20
addr_of d rtaddr_hi = d.regbaseaddr + 0x24
addr_of d ccmd_lo = d.regbaseaddr + 0x28
addr_of d ccmd_hi = d.regbaseaddr + 0x2c
addr_of d phmbase_lo = d.regbaseaddr + 0x70
addr_of d phmbase_hi = d.regbaseaddr + 0x74
addr_of d phmlimit_lo = d.regbaseaddr + 0x78
addr_of d phmlimit_hi = d.regbaseaddr + 0x7c
addr_of d iotlb_lo = d.iotlbaddr
addr_of d iotlb_hi = d.iotlbaddr + 0x4
addr_of d iva_lo = d.ivaaddr
addr_of d iva_hi = d.ivaaddr + 0x4

abbrev pub get : Drhd → Reg → ℕ
get d ver = d.reg_ver
get d gcmd = d.reg_gcmd
get d gsts = d.reg_gsts
get d fsts = d.reg_fsts
get d fectl = d.reg_fectl
get d pmen = d.reg_pmen
get d plmbase = d.reg_plmbase
get d plmlimit = d.reg_plmlimit
get d cap_lo = d.reg_cap_lo
get d cap_hi = d.reg_cap_hi
get d ecap_lo = d.reg_ecap_lo
get d ecap_hi = d.reg_ecap_hi
get d rtaddr_lo = d.reg_rtaddr_lo
get d rtaddr_hi = d.reg_rtaddr_hi
get d ccmd_lo = d.reg_ccmd_lo
get d ccmd_hi = d.reg_ccmd_hi
get d phmbase_lo = d.reg_phmbase_lo
get d phmbase_hi = d.reg_phmbase_hi
get d phmlimit_lo = d.reg_phmlimit_lo
get d phmlimit_hi = d.reg_phmlimit_hi
get d iotlb_lo = d.reg_iotlb_lo
get d iotlb_hi = d.reg_iotlb_hi
get d iva_lo = d.reg_iva_lo
get d iva_hi = d.reg_iva_hi

abbrev pub put : Drhd → Reg → ℕ → Drhd
put d ver v = record d { reg_ver = v }
put d gcmd v = write_gcmd d v
put d gsts v = record d { reg_gsts = v }
put d fsts v = record d { reg_fsts = v }
put d fectl v = record d { reg_fectl = v }
put d pmen v = write_pmen d v
put d plmbase v = record d { reg_plmbase = v }
put d plmlimit v = record d { reg_plmlimit = v }
put d cap_lo v = record d { reg_cap_lo = v }
put d cap_hi v = record d { reg_cap_hi = v }
put d ecap_lo v = record d { reg_ecap_lo = v }
put d ecap_hi v = record d { reg_ecap_hi = v }
put d rtaddr_lo v = record d { reg_rtaddr_lo = v }
put d rtaddr_hi v = record d { reg_rtaddr_hi = v }
put d ccmd_lo v = record d { reg_ccmd_lo = v }
put d ccmd_hi v = write_ccmd_hi d v
put d phmbase_lo v = record d { reg_phmbase_lo = v }
put d phmbase_hi v = record d { reg_phmbase_hi = v }
put d phmlimit_lo v = record d { reg_phmlimit_lo = v }
put d phmlimit_hi v = record d { reg_phmlimit_hi = v }
put d iotlb_lo v = record d { reg_iotlb_lo = v }
put d iotlb_hi v = write_iotlb_hi d v
put d iva_lo v = record d { reg_iva_lo = v }
put d iva_hi v = record d { reg_iva_hi = v }

-- Where a unit may stand: its registers lie in one page of 4 KB with the two computed registers
-- behind the others, and the page lies between the TXT registers and the local APIC.
pub record IsPlaced (d : Drhd) : Type 0 where
  pub page : d.regbaseaddr % 4096 ≡ 0
  pub from : 0xfed4_0000 ≤ d.regbaseaddr
  pub to : d.regbaseaddr + 4096 ≤ 0xfee0_0000
  pub iva : d.ivaaddr ≡ d.regbaseaddr + 0x100
  pub iotlb : d.iotlbaddr ≡ d.regbaseaddr + 0x108
