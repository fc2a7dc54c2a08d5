-- ===== src/Hwm/Vtd/Platform.antt =====
-- The units of the platform, as src/hwm/xmhfhwm_vtd.c initializes xmhfhwm_vtd_drhd_state.
use uberspark.Base.{List, [], ◌∷◌}
use uberspark.Hwm.Vtd.{Drhd}

abbrev pub drhd0 : Drhd
drhd0 = record {
  reg_ver = 0;
  reg_gcmd = 0;
  reg_gsts = 0;
  reg_fsts = 0;
  reg_fectl = 0;
  reg_pmen = 0;
  reg_plmbase = 0;
  reg_plmlimit = 0;
  reg_cap_lo = 0x20660462;
  reg_cap_hi = 0x00c00000;
  reg_ecap_lo = 0x00f0101a;
  reg_ecap_hi = 0;
  reg_rtaddr_lo = 0;
  reg_rtaddr_hi = 0;
  reg_ccmd_lo = 0;
  reg_ccmd_hi = 0;
  reg_phmbase_lo = 0;
  reg_phmbase_hi = 0;
  reg_phmlimit_lo = 0;
  reg_phmlimit_hi = 0;
  reg_iotlb_lo = 0;
  reg_iotlb_hi = 0;
  reg_iva_lo = 0;
  reg_iva_hi = 0;
  regbaseaddr = 0xfed90000;
  iotlbaddr = 0xfed90108;
  ivaaddr = 0xfed90100;
}

abbrev pub drhd1 : Drhd
drhd1 = record {
  reg_ver = 0;
  reg_gcmd = 0;
  reg_gsts = 0;
  reg_fsts = 0;
  reg_fectl = 0;
  reg_pmen = 0;
  reg_plmbase = 0;
  reg_plmlimit = 0;
  reg_cap_lo = 0x20660462;
  reg_cap_hi = 0x00d20080;
  reg_ecap_lo = 0x000f010da;
  reg_ecap_hi = 0;
  reg_rtaddr_lo = 0;
  reg_rtaddr_hi = 0;
  reg_ccmd_lo = 0;
  reg_ccmd_hi = 0;
  reg_phmbase_lo = 0;
  reg_phmbase_hi = 0;
  reg_phmlimit_lo = 0;
  reg_phmlimit_hi = 0;
  reg_iotlb_lo = 0;
  reg_iotlb_hi = 0;
  reg_iva_lo = 0;
  reg_iva_hi = 0;
  regbaseaddr = 0xfed91000;
  iotlbaddr = 0xfed91108;
  ivaaddr = 0xfed91100;
}

abbrev pub drhd_state : List Drhd
drhd_state = drhd0 ∷ drhd1 ∷ []
