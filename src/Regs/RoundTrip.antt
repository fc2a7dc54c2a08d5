-- ===== src/Regs/RoundTrip.antt =====
-- src/hwm/include/xmhfhwm_vtd.h and xmhfhwm_cpu.h: the pack and unpack macros of each group of
-- registers together.
use uberspark.Base.{ℕ, ◌%◌, ◌^◌, ◌<◌, ◌≡◌}
use uberspark.Regs.VtdGcmd.{
  pack_vtd_gcmd_reg, unpack_vtd_gcmd_reg, pack_vtd_gcmd_reg-unpack_vtd_gcmd_reg,
}
use uberspark.Regs.VtdGsts.{
  pack_vtd_gsts_reg, unpack_vtd_gsts_reg, pack_vtd_gsts_reg-unpack_vtd_gsts_reg,
}
use uberspark.Regs.VtdFectl.{
  pack_vtd_fectl_reg, unpack_vtd_fectl_reg, pack_vtd_fectl_reg-unpack_vtd_fectl_reg,
}
use uberspark.Regs.VtdPmen.{
  pack_vtd_pmen_reg, unpack_vtd_pmen_reg, pack_vtd_pmen_reg-unpack_vtd_pmen_reg,
}
use uberspark.Regs.VtdCap.{
  pack_vtd_cap_reg, unpack_vtd_cap_reg, pack_vtd_cap_reg-unpack_vtd_cap_reg,
}
use uberspark.Regs.VtdEcap.{
  pack_vtd_ecap_reg, unpack_vtd_ecap_reg, pack_vtd_ecap_reg-unpack_vtd_ecap_reg,
}
use uberspark.Regs.VtdRtaddr.{
  pack_vtd_rtaddr_reg, unpack_vtd_rtaddr_reg, pack_vtd_rtaddr_reg-unpack_vtd_rtaddr_reg,
}
use uberspark.Regs.VtdCcmd.{
  pack_vtd_ccmd_reg, unpack_vtd_ccmd_reg, pack_vtd_ccmd_reg-unpack_vtd_ccmd_reg,
}
use uberspark.Regs.VtdIotlb.{
  pack_vtd_iotlb_reg, unpack_vtd_iotlb_reg, pack_vtd_iotlb_reg-unpack_vtd_iotlb_reg,
}
use uberspark.Regs.MtrrCap.{pack_mtrr_cap, unpack_mtrr_cap, pack_mtrr_cap-unpack_mtrr_cap}
use uberspark.Regs.MtrrDefType.{
  pack_mtrr_def_type, unpack_mtrr_def_type, pack_mtrr_def_type-unpack_mtrr_def_type,
}
use uberspark.Regs.MtrrPhysbase.{
  pack_mtrr_physbase, unpack_mtrr_physbase, pack_mtrr_physbase-unpack_mtrr_physbase,
}
use uberspark.Regs.MtrrPhysmask.{
  pack_mtrr_physmask, unpack_mtrr_physmask, pack_mtrr_physmask-unpack_mtrr_physmask,
}
use uberspark.Regs.TxtEsts.{pack_txt_ests, unpack_txt_ests, pack_txt_ests-unpack_txt_ests}
use uberspark.Regs.TxtE2sts.{pack_txt_e2sts, unpack_txt_e2sts, pack_txt_e2sts-unpack_txt_e2sts}
use uberspark.Regs.TxtSts.{pack_txt_sts, unpack_txt_sts, pack_txt_sts-unpack_txt_sts}
use uberspark.Regs.TxtDidvid.{pack_txt_didvid, unpack_txt_didvid, pack_txt_didvid-unpack_txt_didvid}
use uberspark.Regs.TxtVerFsbifEmif.{
  pack_txt_ver_fsbif_emif, unpack_txt_ver_fsbif_emif,
  pack_txt_ver_fsbif_emif-unpack_txt_ver_fsbif_emif,
}
use uberspark.Regs.TxtErrorcodeSw.{
  pack_txt_errorcode_sw, unpack_txt_errorcode_sw, pack_txt_errorcode_sw-unpack_txt_errorcode_sw,
}
use uberspark.Regs.AcmodError.{
  pack_acmod_error, unpack_acmod_error, pack_acmod_error-unpack_acmod_error,
}
use uberspark.Regs.Capabilities.{
  pack_capabilities, unpack_capabilities, pack_capabilities-unpack_capabilities,
}

-- For the remapping registers of 32 bits (GCMD, GSTS, FECTL, PMEN), packing what was unpacked
-- gives back every register below 2 ^ 32.
pub vtd32 :
    ((v : ℕ) → v < 2 ^ 32 → pack_vtd_gcmd_reg (unpack_vtd_gcmd_reg v) ≡ v)
    × ((v : ℕ) → v < 2 ^ 32 → pack_vtd_gsts_reg (unpack_vtd_gsts_reg v) ≡ v)
    × ((v : ℕ) → v < 2 ^ 32 → pack_vtd_fectl_reg (unpack_vtd_fectl_reg v) ≡ v)
    × ((v : ℕ) → v < 2 ^ 32 → pack_vtd_pmen_reg (unpack_vtd_pmen_reg v) ≡ v)
vtd32 = (
  pack_vtd_gcmd_reg-unpack_vtd_gcmd_reg, pack_vtd_gsts_reg-unpack_vtd_gsts_reg,
  pack_vtd_fectl_reg-unpack_vtd_fectl_reg, pack_vtd_pmen_reg-unpack_vtd_pmen_reg,
)

-- For the remapping registers of 64 bits (CAP, ECAP, RTADDR, CCMD, IOTLB), packing what was
-- unpacked gives back every register below 2 ^ 64.
pub vtd64 :
    ((v : ℕ) → v < 2 ^ 64 → pack_vtd_cap_reg (unpack_vtd_cap_reg v) ≡ v)
    × ((v : ℕ) → v < 2 ^ 64 → pack_vtd_ecap_reg (unpack_vtd_ecap_reg v) ≡ v)
    × ((v : ℕ) → v < 2 ^ 64 → pack_vtd_rtaddr_reg (unpack_vtd_rtaddr_reg v) ≡ v)
    × ((v : ℕ) → v < 2 ^ 64 → pack_vtd_ccmd_reg (unpack_vtd_ccmd_reg v) ≡ v)
    × ((v : ℕ) → v < 2 ^ 64 → pack_vtd_iotlb_reg (unpack_vtd_iotlb_reg v) ≡ v)
vtd64 = (
  pack_vtd_cap_reg-unpack_vtd_cap_reg, pack_vtd_ecap_reg-unpack_vtd_ecap_reg,
  pack_vtd_rtaddr_reg-unpack_vtd_rtaddr_reg, pack_vtd_ccmd_reg-unpack_vtd_ccmd_reg,
  pack_vtd_iotlb_reg-unpack_vtd_iotlb_reg,
)

-- For the memory type registers (capabilities, default type, base, mask), packing what was
-- unpacked gives back every register below 2 ^ 64.
pub mtrr :
    ((v : ℕ) → v < 2 ^ 64 → pack_mtrr_cap (unpack_mtrr_cap v) ≡ v)
    × ((v : ℕ) → v < 2 ^ 64 → pack_mtrr_def_type (unpack_mtrr_def_type v) ≡ v)
    × ((v : ℕ) → v < 2 ^ 64 → pack_mtrr_physbase (unpack_mtrr_physbase v) ≡ v)
    × ((v : ℕ) → v < 2 ^ 64 → pack_mtrr_physmask (unpack_mtrr_physmask v) ≡ v)
mtrr = (
  pack_mtrr_cap-unpack_mtrr_cap, pack_mtrr_def_type-unpack_mtrr_def_type,
  pack_mtrr_physbase-unpack_mtrr_physbase, pack_mtrr_physmask-unpack_mtrr_physmask,
)

-- For the TXT registers and the SINIT capabilities, packing what was unpacked gives back every
-- register within the bits that its structure declares, except for the error of an authenticated
-- module: `error2` is declared with the 14 bits from bit 16 on, but its masks keep one bit, so of
-- that register below 2 ^ 32 the low 17 bits come back and the others are lost.
pub txt :
    ((v : ℕ) → v < 2 ^ 8 → pack_txt_ests (unpack_txt_ests v) ≡ v)
    × ((v : ℕ) → v < 2 ^ 4 → pack_txt_e2sts (unpack_txt_e2sts v) ≡ v)
    × ((v : ℕ) → v < 2 ^ 12 → pack_txt_sts (unpack_txt_sts v) ≡ v)
    × ((v : ℕ) → v < 2 ^ 64 → pack_txt_didvid (unpack_txt_didvid v) ≡ v)
    × ((v : ℕ) → v < 2 ^ 32 → pack_txt_ver_fsbif_emif (unpack_txt_ver_fsbif_emif v) ≡ v)
    × ((v : ℕ) → v < 2 ^ 30 → pack_txt_errorcode_sw (unpack_txt_errorcode_sw v) ≡ v)
    × ((v : ℕ) → v < 2 ^ 32 → pack_acmod_error (unpack_acmod_error v) ≡ v % 2 ^ 17)
    × ((v : ℕ) → v < 2 ^ 32 → pack_capabilities (unpack_capabilities v) ≡ v)
txt = (
  pack_txt_ests-unpack_txt_ests, pack_txt_e2sts-unpack_txt_e2sts, pack_txt_sts-unpack_txt_sts,
  pack_txt_didvid-unpack_txt_didvid, pack_txt_ver_fsbif_emif-unpack_txt_ver_fsbif_emif,
  pack_txt_errorcode_sw-unpack_txt_errorcode_sw, pack_acmod_error-unpack_acmod_error,
  pack_capabilities-unpack_capabilities,
)
