-- ===== src/Hwm/Bios.antt =====
-- src/hwm/xmhfhwm_bios.c and src/hwm/include/xmhfhwm_bios.h: the model of the BIOS data area and of the ACPI
-- tables (RSDP, RSDT and the DMAR table with its remapping units).
use uberspark.Base.{ℕ, zero, suc, ◌+◌, ◌-◌, ◌*◌, ◌/◌, ◌%◌, Bool, ◌&&◌, Option, none, some}
use uberspark.Base.{List, [], ◌∷◌, ◌++◌, get_or, u32, sub32, ◌>>◌, ◌==◌, leb, ltb, if◌then◌else◌}
use uberspark.Hwm.Obj.{Memory, store8, store32, store64, memcpy}

abbrev pub bda_base : ℕ
bda_base = 0x400

abbrev pub bda_size : ℕ
bda_size = 256

abbrev pub ebda_base : ℕ
ebda_base = 0x9ec00

abbrev pub ebda_size : ℕ
ebda_size = 1100

abbrev pub rombase : ℕ
rombase = 0xe0000

abbrev pub romsize : ℕ
romsize = 0x20020

abbrev pub acpirsdpbase : ℕ
acpirsdpbase = 0xe0000

abbrev pub acpirsdtbase : ℕ
acpirsdtbase = 0xd87e_f028

abbrev pub acpirsdtentriesbase : ℕ
acpirsdtentriesbase = acpirsdtbase + 0x24

abbrev pub vtddmartablebase : ℕ
vtddmartablebase = 0xd87f_eea8

abbrev pub vtddmartableremappingstructbase : ℕ
vtddmartableremappingstructbase = vtddmartablebase + 48

abbrev pub ebdaseg : ℕ
ebdaseg = ebda_base >> 4

-- The `n` bytes of a field, least significant first.
abbrev pub le : ℕ → ℕ → List ℕ
le zero v = []
le (suc n) v = v % 256 ∷ le n (v / 256)

pub record AcpiRsdp : Type 0 where
  pub signature : ℕ
  pub checksum : ℕ
  pub oemid : List ℕ
  pub revision : ℕ
  pub rsdtaddress : ℕ
  pub length : ℕ
  pub xsdtaddress : ℕ
  pub xchecksum : ℕ
  pub rsvd0 : List ℕ

abbrev pub acpi_rsdp : AcpiRsdp
acpi_rsdp = record {
  signature = 0x2052_5450_2044_5352;
  checksum = 0x10;
  oemid = 0x44 ∷ 0x45 ∷ 0x4c ∷ 0x4c ∷ 0x20 ∷ 0x20 ∷ [];
  revision = 2;
  rsdtaddress = acpirsdtbase;
  length = 0x24;
  xsdtaddress = 0xd87e_f028;
  xchecksum = 6;
  rsvd0 = 0x44 ∷ 0x45 ∷ 0x4c ∷ [];
}

-- The packed tables as bytes; a 32-bit signature keeps the low half of its initialiser.
abbrev pub acpi_rsdt : List ℕ
acpi_rsdt =
    le 4 0x6a_5444_5352
    ++ (le 4 0x28
        ++ (le 1 1
            ++ (le 1 0xc3
                ++ ((0x44 ∷ 0x45 ∷ 0x4c ∷ 0x4c ∷ 0x20 ∷ 0x20 ∷ [])
                    ++ (le 8 0x20_2020_3358_4243
                        ++ (le 4 0x0107_2009 ++ (le 4 0x5446_534d ++ le 4 0x10013)))))))

abbrev pub acpi_rsdtentries : List ℕ
acpi_rsdtentries = le 4 vtddmartablebase

abbrev pub vtd_dmar : List ℕ
vtd_dmar =
    le 4 0x30_5241_4d44
    ++ (le 4 (48 + 2 * 16)
        ++ (le 1 1
            ++ (le 1 0x8d
                ++ ((0x49 ∷ 0x4e ∷ 0x54 ∷ 0x45 ∷ 0x4c ∷ 0x20 ∷ [])
                    ++ (le 8 0x2057_5348
                        ++ (le 4 1
                            ++ (le 4 0x4c54_4e49
                                ++ (le 4 1
                                    ++ (le 1 0x26
                                        ++ (le 1 1
                                            ++ (0x49 ∷ 0x4e ∷ 0x54 ∷ 0x45 ∷ 0x4c ∷ 0x20 ∷ 0x48
                                                ∷ 0x53 ∷ 0x57 ∷ 0x20 ∷ [])))))))))))

abbrev pub dmar_drhd : ℕ → List ℕ
dmar_drhd regbaseaddr = le 2 0 ++ (le 2 16 ++ (le 1 0 ++ (le 1 0 ++ (le 2 0 ++ le 8 regbaseaddr))))

abbrev pub vtd_dmar_drhd : List ℕ
vtd_dmar_drhd = dmar_drhd 0xfed9_0000 ++ dmar_drhd 0xfed9_1000

-- A table as the memory that the copy loop reads. The source asserts that no copy goes beyond the
-- end of the RSDT, and the range tests below see to the other tables.
abbrev pub image : List ℕ → Memory
image bytes off = get_or bytes off 0

-- `_impl_xmhfhwm_bios_read`: the segment of the extended BIOS data area.
unfoldable pub read : ℕ → Option ℕ
read sysmemaddr = if sysmemaddr == bda_base + 0xe then some ebdaseg else none

-- `_impl_xmhfhwm_bios_write`: whether the address is accepted; no state changes.
unfoldable pub write : ℕ → Bool
write sysmemaddr =
    if sysmemaddr == vtddmartablebase
    then Bool.true
    else leb bda_base sysmemaddr && ltb sysmemaddr (bda_base + bda_size)

-- The copy of the RSDP, field by field.
unfoldable pub copy_rsdp : Memory → ℕ → Memory
copy_rsdp obj rsdp =
    let byte = λ (m : Memory) (off v : ℕ). store8 m (rsdp + off) v in
    let m0 = store64 obj rsdp acpi_rsdp.signature in
    let m1 = byte m0 8 acpi_rsdp.checksum in
    let m2 = byte m1 9 (get_or acpi_rsdp.oemid 0 0) in
    let m3 = byte m2 10 (get_or acpi_rsdp.oemid 1 0) in
    let m4 = byte m3 11 (get_or acpi_rsdp.oemid 2 0) in
    let m5 = byte m4 12 (get_or acpi_rsdp.oemid 3 0) in
    let m6 = byte m5 13 (get_or acpi_rsdp.oemid 4 0) in
    let m7 = byte m6 14 (get_or acpi_rsdp.oemid 5 0) in
    let m8 = byte m7 15 acpi_rsdp.revision in
    let m9 = store32 m8 (rsdp + 16) acpi_rsdp.rsdtaddress in
    let m10 = store32 m9 (rsdp + 20) acpi_rsdp.length in
    let m11 = store64 m10 (rsdp + 24) acpi_rsdp.xsdtaddress in
    let m12 = byte m11 32 acpi_rsdp.xchecksum in
    let m13 = byte m12 33 (get_or acpi_rsdp.rsvd0 0 0) in
    let m14 = byte m13 34 (get_or acpi_rsdp.rsvd0 1 0) in byte m14 35 (get_or acpi_rsdp.rsvd0 2 0)

-- `_impl_xmhfhwm_bios_sysmemcopy` for SYSMEMCOPYSYS2OBJ (the other direction is refused).
unfoldable pub copy_sys2obj : Memory → ℕ → ℕ → ℕ → Option Memory
copy_sys2obj obj dstaddr srcaddr size =
    let end = u32 (srcaddr + size) in
    let last = sub32 (srcaddr + size) 1 in
    if leb ebda_base srcaddr && ltb end (ebda_base + ebda_size)
    then some obj
    else if leb rombase srcaddr && ltb end (rombase + romsize)
    then some (if srcaddr == acpirsdpbase then copy_rsdp obj dstaddr else obj)
    else if srcaddr == acpirsdtbase
    then some (memcpy size obj dstaddr (image acpi_rsdt) 0)
    else if leb acpirsdtentriesbase srcaddr && ltb last (acpirsdtentriesbase + 4)
    then some (memcpy size obj dstaddr (image acpi_rsdtentries) (srcaddr - acpirsdtentriesbase))
    else if leb vtddmartablebase srcaddr && ltb last (vtddmartablebase + 48)
    then some (memcpy size obj dstaddr (image vtd_dmar) (srcaddr - vtddmartablebase))
    else if leb vtddmartableremappingstructbase srcaddr
        && ltb last (vtddmartableremappingstructbase + 32)
    then some
        (memcpy size obj dstaddr (image vtd_dmar_drhd) (srcaddr - vtddmartableremappingstructbase))
    else none
