-- ===== src/Hwm/Vtd.antt =====
-- src/hwm/xmhfhwm_vtd.c and src/hwm/include/xmhfhwm_vtd.h: the hardware model of the VT-d remapping units
-- (xmhfhwm_vtd_drhd_state and its read and write handlers). A register is a `uint32_t`, so a value
-- below 2 ^ 32; the tests on addresses keep the wrap of the C expressions.
pub mod Regs
pub mod Laws
pub mod Routing
pub mod Platform
use uberspark.Base.{ℕ, ◌+◌, bit_or, Option, none, some, List, [], ◌∷◌}
use uberspark.Base.{u32, ◌==◌, if◌then◌else◌, has, clear}

-- The register offsets.
abbrev pub ver_reg_off : ℕ
ver_reg_off = 0x0

abbrev pub gcmd_reg_off : ℕ
gcmd_reg_off = 0x18

abbrev pub gsts_reg_off : ℕ
gsts_reg_off = 0x1c

abbrev pub fsts_reg_off : ℕ
fsts_reg_off = 0x34

abbrev pub fectl_reg_off : ℕ
fectl_reg_off = 0x38

abbrev pub pmen_reg_off : ℕ
pmen_reg_off = 0x64

abbrev pub plmbase_reg_off : ℕ
plmbase_reg_off = 0x68

abbrev pub plmlimit_reg_off : ℕ
plmlimit_reg_off = 0x6c

abbrev pub cap_reg_off : ℕ
cap_reg_off = 0x8

abbrev pub ecap_reg_off : ℕ
ecap_reg_off = 0x10

abbrev pub rtaddr_reg_off : ℕ
rtaddr_reg_off = 0x20

abbrev pub ccmd_reg_off : ℕ
ccmd_reg_off = 0x28

abbrev pub phmbase_reg_off : ℕ
phmbase_reg_off = 0x70

abbrev pub phmlimit_reg_off : ℕ
phmlimit_reg_off = 0x78

-- The offsets that stand for registers whose address is computed at run time.
abbrev pub iva_reg_off : ℕ
iva_reg_off = 0xdead

abbrev pub iotlb_reg_off : ℕ
iotlb_reg_off = 0xbeef

-- One unit: its registers and the three addresses at which they appear.
pub record Drhd : Type 0 where
  pub reg_ver : ℕ
  pub reg_gcmd : ℕ
  pub reg_gsts : ℕ
  pub reg_fsts : ℕ
  pub reg_fectl : ℕ
  pub reg_pmen : ℕ
  pub reg_plmbase : ℕ
  pub reg_plmlimit : ℕ
  pub reg_cap_lo : ℕ
  pub reg_cap_hi : ℕ
  pub reg_ecap_lo : ℕ
  pub reg_ecap_hi : ℕ
  pub reg_rtaddr_lo : ℕ
  pub reg_rtaddr_hi : ℕ
  pub reg_ccmd_lo : ℕ
  pub reg_ccmd_hi : ℕ
  pub reg_phmbase_lo : ℕ
  pub reg_phmbase_hi : ℕ
  pub reg_phmlimit_lo : ℕ
  pub reg_phmlimit_hi : ℕ
  pub reg_iotlb_lo : ℕ
  pub reg_iotlb_hi : ℕ
  pub reg_iva_lo : ℕ
  pub reg_iva_hi : ℕ
  pub regbaseaddr : ℕ
  pub iotlbaddr : ℕ
  pub ivaaddr : ℕ

-- The body of the loop of the read handler: `none` where no register of this unit is addressed.
pub read_unit : Drhd → ℕ → Option ℕ
read_unit d sysmemaddr =
    if sysmemaddr == u32 (u32 d.regbaseaddr + ver_reg_off)
    then some d.reg_ver
    else if sysmemaddr == u32 (u32 d.regbaseaddr + gcmd_reg_off)
    then some d.reg_gcmd
    else if sysmemaddr == u32 (u32 d.regbaseaddr + gsts_reg_off)
    then some d.reg_gsts
    else if sysmemaddr == u32 (u32 d.regbaseaddr + fsts_reg_off)
    then some d.reg_fsts
    else if sysmemaddr == u32 (u32 d.regbaseaddr + fectl_reg_off)
    then some d.reg_fectl
    else if sysmemaddr == u32 (u32 d.regbaseaddr + pmen_reg_off)
    then some d.reg_pmen
    else if sysmemaddr == u32 (u32 d.regbaseaddr + plmbase_reg_off)
    then some d.reg_plmbase
    else if sysmemaddr == u32 (u32 d.regbaseaddr + plmlimit_reg_off)
    then some d.reg_plmlimit
    else if sysmemaddr == u32 (u32 d.regbaseaddr + cap_reg_off)
    then some d.reg_cap_lo
    else if sysmemaddr == u32 (u32 d.regbaseaddr + cap_reg_off + 4)
    then some d.reg_cap_hi
    else if sysmemaddr == u32 (u32 d.regbaseaddr + ecap_reg_off)
    then some d.reg_ecap_lo
    else if sysmemaddr == u32 (u32 d.regbaseaddr + ecap_reg_off + 4)
    then some d.reg_ecap_hi
    else if sysmemaddr == u32 (u32 d.regbaseaddr + rtaddr_reg_off)
    then some d.reg_rtaddr_lo
    else if sysmemaddr == u32 (u32 d.regbaseaddr + rtaddr_reg_off + 4)
    then some d.reg_rtaddr_hi
    else if sysmemaddr == u32 (u32 d.regbaseaddr + ccmd_reg_off)
    then some d.reg_ccmd_lo
    else if sysmemaddr == u32 (u32 d.regbaseaddr + ccmd_reg_off + 4)
    then some d.reg_ccmd_hi
    else if sysmemaddr == u32 (u32 d.regbaseaddr + phmbase_reg_off)
    then some d.reg_phmbase_lo
    else if sysmemaddr == u32 (u32 d.regbaseaddr + phmbase_reg_off + 4)
    then some d.reg_phmbase_hi
    else if sysmemaddr == u32 (u32 d.regbaseaddr + phmlimit_reg_off)
    then some d.reg_phmlimit_lo
    else if sysmemaddr == u32 (u32 d.regbaseaddr + phmlimit_reg_off + 4)
    then some d.reg_phmlimit_hi
    else if sysmemaddr == u32 d.iotlbaddr
    then some d.reg_iotlb_lo
    else if sysmemaddr == u32 (u32 d.iotlbaddr + 4)
    then some d.reg_iotlb_hi
    else if sysmemaddr == u32 d.ivaaddr
    then some d.reg_iva_lo
    else if sysmemaddr == u32 (u32 d.ivaaddr + 4)
    then some d.reg_iva_hi
    else none

-- `_impl_xmhfhwm_vtd_read`: the first unit that has the address answers.
unfoldable pub read : List Drhd → ℕ → Option ℕ
read [] sysmemaddr = none
read (d ∷ ds) sysmemaddr = elim (read_unit d sysmemaddr) [
  | some v ↦ some v
  | none ↦ read ds sysmemaddr
]

-- GCMD: bit 31 (TE) turns on bit 31 (TES) of GSTS; nothing turns it off.
unfoldable pub write_gcmd : Drhd → ℕ → Drhd
write_gcmd d v = record d {
  reg_gcmd = v;
  reg_gsts = if has v 0x8000_0000 then bit_or d.reg_gsts 0x8000_0000 else d.reg_gsts;
}

-- PMEN: bit 0 (PRS) follows bit 31 (EPM).
unfoldable pub write_pmen : Drhd → ℕ → Drhd
write_pmen d v =
    let v1 = if has v 0x8000_0000 then v else clear v 1 in
    record d { reg_pmen = if has v1 0x8000_0000 then bit_or v1 1 else v1 }

-- `if (x & from) x |= to; else x &= ~to;`
unfoldable pub copy_bit : ℕ → ℕ → ℕ → ℕ
copy_bit from to x = if has x from then bit_or x to else clear x to

-- CCMD high word: with bit 31 (ICC) set, the granularity asked for (bits 30, 29) is copied to
-- the granularity done (bits 28, 27), and ICC is cleared.
unfoldable pub write_ccmd_hi : Drhd → ℕ → Drhd
write_ccmd_hi d v =
    let v1 = copy_bit 0x4000_0000 0x1000_0000 v in
    let v2 = copy_bit 0x2000_0000 0x0800_0000 v1 in
    record d { reg_ccmd_hi = if has v 0x8000_0000 then clear v2 0x8000_0000 else v }

-- IOTLB high word: with bit 31 (IVT) set, bits 29, 28 are copied to bits 26, 25, and IVT is
-- cleared.
unfoldable pub write_iotlb_hi : Drhd → ℕ → Drhd
write_iotlb_hi d v =
    let v1 = copy_bit 0x2000_0000 0x0400_0000 v in
    let v2 = copy_bit 0x1000_0000 0x0200_0000 v1 in
    record d { reg_iotlb_hi = if has v 0x8000_0000 then clear v2 0x8000_0000 else v }

-- The body of the loop of the write handler.
pub write_unit : Drhd → ℕ → ℕ → Option Drhd
write_unit d sysmemaddr write_value =
    if sysmemaddr == u32 (u32 d.regbaseaddr + ver_reg_off)
    then some (record d { reg_ver = u32 write_value })
    else if sysmemaddr == u32 (u32 d.regbaseaddr + gcmd_reg_off)
    then some (write_gcmd d (u32 write_value))
    else if sysmemaddr == u32 (u32 d.regbaseaddr + gsts_reg_off)
    then some (record d { reg_gsts = u32 write_value })
    else if sysmemaddr == u32 (u32 d.regbaseaddr + fsts_reg_off)
    then some (record d { reg_fsts = u32 write_value })
    else if sysmemaddr == u32 (u32 d.regbaseaddr + fectl_reg_off)
    then some (record d { reg_fectl = u32 write_value })
    else if sysmemaddr == u32 (u32 d.regbaseaddr + pmen_reg_off)
    then some (write_pmen d (u32 write_value))
    else if sysmemaddr == u32 (u32 d.regbaseaddr + plmbase_reg_off)
    then some (record d { reg_plmbase = u32 write_value })
    else if sysmemaddr == u32 (u32 d.regbaseaddr + plmlimit_reg_off)
    then some (record d { reg_plmlimit = u32 write_value })
    else if sysmemaddr == u32 (u32 d.regbaseaddr + cap_reg_off)
    then some (record d { reg_cap_lo = u32 write_value })
    else if sysmemaddr == u32 (u32 d.regbaseaddr + cap_reg_off + 4)
    then some (record d { reg_cap_hi = u32 write_value })
    else if sysmemaddr == u32 (u32 d.regbaseaddr + ecap_reg_off)
    then some (record d { reg_ecap_lo = u32 write_value })
    else if sysmemaddr == u32 (u32 d.regbaseaddr + ecap_reg_off + 4)
    then some (record d { reg_ecap_hi = u32 write_value })
    else if sysmemaddr == u32 (u32 d.regbaseaddr + rtaddr_reg_off)
    then some (record d { reg_rtaddr_lo = u32 write_value })
    else if sysmemaddr == u32 (u32 d.regbaseaddr + rtaddr_reg_off + 4)
    then some (record d { reg_rtaddr_hi = u32 write_value })
    else if sysmemaddr == u32 (u32 d.regbaseaddr + ccmd_reg_off)
    then some (record d { reg_ccmd_lo = u32 write_value })
    else if sysmemaddr == u32 (u32 d.regbaseaddr + ccmd_reg_off + 4)
    then some (write_ccmd_hi d (u32 write_value))
    else if sysmemaddr == u32 (u32 d.regbaseaddr + phmbase_reg_off)
    then some (record d { reg_phmbase_lo = u32 write_value })
    else if sysmemaddr == u32 (u32 d.regbaseaddr + phmbase_reg_off + 4)
    then some (record d { reg_phmbase_hi = u32 write_value })
    else if sysmemaddr == u32 (u32 d.regbaseaddr + phmlimit_reg_off)
    then some (record d { reg_phmlimit_lo = u32 write_value })
    else if sysmemaddr == u32 (u32 d.regbaseaddr + phmlimit_reg_off + 4)
    then some (record d { reg_phmlimit_hi = u32 write_value })
    else if sysmemaddr == u32 d.iotlbaddr
    then some (record d { reg_iotlb_lo = u32 write_value })
    else if sysmemaddr == u32 (u32 d.iotlbaddr + 4)
    then some (write_iotlb_hi d (u32 write_value))
    else if sysmemaddr == u32 d.ivaaddr
    then some (record d { reg_iva_lo = u32 write_value })
    else if sysmemaddr == u32 (u32 d.ivaaddr + 4)
    then some (record d { reg_iva_hi = u32 write_value })
    else none

-- `_impl_xmhfhwm_vtd_write`: the first unit that has the address takes the value.
unfoldable pub write : List Drhd → ℕ → ℕ → Option (List Drhd)
write [] sysmemaddr write_value = none
write (d ∷ ds) sysmemaddr write_value = elim (write_unit d sysmemaddr write_value) [
  | some d' ↦ some (d' ∷ ds)
  | none ↦ elim (write ds sysmemaddr write_value) [ some ds' ↦ some (d ∷ ds') | none ↦ none ]
]
