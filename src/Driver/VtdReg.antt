-- ===== src/Driver/VtdReg.antt =====
-- src/libs/libxmhfhw/xmhfhw_sysmem_{read,write}u{32,64}.cS and xmhfhw_vtd_{readreg,writereg}.c: the
-- accesses to system memory and to the registers of a remapping unit. An access is what its
-- instructions do to system memory; their stack frame is left out.
pub mod Laws
pub mod Places
use uberspark.Base.{ℕ, ◌+◌, u32, u64, ◌<<◌, ◌>>◌, ◌==◌, ◌||◌, if◌then◌else◌}
use uberspark.Hwm.Sysmem.{Machine, sysmemread, sysmemwrite}
use uberspark.Hwm.Vtd.{
  ver_reg_off, gcmd_reg_off, gsts_reg_off, fsts_reg_off, fectl_reg_off, pmen_reg_off,
  plmbase_reg_off, plmlimit_reg_off, cap_reg_off, ecap_reg_off, rtaddr_reg_off, ccmd_reg_off,
  phmbase_reg_off, phmlimit_reg_off, iva_reg_off, iotlb_reg_off,
}

unfoldable pub readu32 : Machine → ℕ → ℕ × Machine
readu32 m addr = sysmemread m (u32 addr)

-- The low word is read first.
unfoldable pub readu64 : Machine → ℕ → ℕ × Machine
readu64 m addr =
    let lo = sysmemread m (u32 addr) in
    let hi = sysmemread lo.1 (u32 (addr + 4)) in (u64 (u32 lo.0 + (u32 hi.0 << 32)), hi.1)

unfoldable pub writeu32 : Machine → ℕ → ℕ → Machine
writeu32 m addr val = sysmemwrite m (u32 addr) (u32 val)

-- The low word is written first.
unfoldable pub writeu64 : Machine → ℕ → ℕ → ℕ → Machine
writeu64 m addr val_lo val_hi =
    sysmemwrite (sysmemwrite m (u32 addr) (u32 val_lo)) (u32 (addr + 4)) (u32 val_hi)

-- VTD_DRHD: what the register accesses use of it.
pub record DrhdHandle : Type 0 where
  pub regbaseaddr : ℕ
  pub iotlb_regaddr : ℕ
  pub iva_regaddr : ℕ

pub data RegType : Type 0 where
  bits32 bits64 : RegType

-- The switch on the register, the same in both functions: its width and its address.
unfoldable pub regtype_regaddr : DrhdHandle → ℕ → RegType × ℕ
regtype_regaddr dmardevice reg =
    if reg == ver_reg_off
      || reg == gcmd_reg_off
      || reg == gsts_reg_off
      || reg == fsts_reg_off
      || reg == fectl_reg_off
      || reg == pmen_reg_off
      || reg == plmbase_reg_off
      || reg == plmlimit_reg_off
    then (RegType.bits32, u32 (dmardevice.regbaseaddr + reg))
    else if reg == cap_reg_off
        || reg == ecap_reg_off
        || reg == rtaddr_reg_off
        || reg == ccmd_reg_off
        || reg == phmbase_reg_off
        || reg == phmlimit_reg_off
    then (RegType.bits64, u32 (dmardevice.regbaseaddr + reg))
    else if reg == iotlb_reg_off
    then (RegType.bits64, dmardevice.iotlb_regaddr)
    else if reg == iva_reg_off
    then (RegType.bits64, dmardevice.iva_regaddr)
    else (RegType.bits32, 0)

-- `_vtd_reg_read`: the second switch, and the function.
pub read_access : Machine → RegType → ℕ → ℕ × Machine
read_access m RegType.bits32 regaddr = readu32 m regaddr
read_access m RegType.bits64 regaddr = readu64 m regaddr

pub vtd_reg_read : Machine → DrhdHandle → ℕ → ℕ × Machine
vtd_reg_read m dmardevice reg =
    read_access m (regtype_regaddr dmardevice reg).0 (regtype_regaddr dmardevice reg).1

-- `_vtd_reg_write`: the second switch, and the function.
pub write_access : Machine → RegType → ℕ → ℕ → Machine
write_access m RegType.bits32 regaddr value = writeu32 m regaddr (u32 value)
write_access m RegType.bits64 regaddr value = writeu64 m regaddr (u32 value) (u32 (u64 value >> 32))

pub vtd_reg_write : Machine → DrhdHandle → ℕ → ℕ → Machine
vtd_reg_write m dmardevice reg value =
    write_access m (regtype_regaddr dmardevice reg).0 (regtype_regaddr dmardevice reg).1 value
