-- ===== src/Hwm/Sysmem.antt =====
-- src/hwm/xmhfhwm_cpu.c, "System memory/MMIO interfaces": the state of all devices, and the routing of
-- a read, a write or a copy to the first device that accepts the address. The access sizes decide no
-- result, only assertions: `read_asserts` and `write_asserts` are the assertions that an access of a
-- size in bits meets, and the accesses themselves are what the code does whether these hold or not.
pub mod Accesses
pub mod Transmit
pub mod Routes
use uberspark.Base.{
  ℕ, ◌+◌, Bool, true, false, Option, none, some, List, ◌++◌, u32, ◌>>◌, ◌<<◌, ◌-◌, ◌==◌, ◌||◌, ◌&&◌,
  ltb, if◌then◌else◌,
}
use uberspark.Hwm.Obj.{Memory}
use uberspark.Hwm.Call.{Call}
use uberspark.Hwm.Vtd.{Drhd}
use uberspark.Hwm.Txt.{Txt}
use uberspark.Hwm.E1000.{E1000}
use uberspark.Hwm.E1000
use uberspark.Hwm.Txt
use uberspark.Hwm.Bios
use uberspark.Hwm.Mem
use uberspark.Hwm.Vtd
use uberspark.Hwm.Lapic

-- All devices, the memory of the object, and the callbacks made so far (oldest first).
pub record Machine : Type 0 where
  pub e1000 : E1000
  pub txt : Txt
  pub dataseg : Memory
  pub vtd : List Drhd
  pub lapic_id : ℕ
  pub obj : Memory
  pub calls : List Call

-- `_impl_xmhfhwm_cpu_sysmemread`; if no device has the address, the assertion `0` fails, and the code
-- behind it returns zero.
unfoldable pub sysmemread : Machine → ℕ → ℕ × Machine
sysmemread m sysmemaddr = elim (E1000.read m.e1000 sysmemaddr 0) [
  | some (v, s) ↦ (v, record m { e1000 = s })
  | none ↦ elim (Txt.read m.txt sysmemaddr) [
    | some v ↦ (v, m)
    | none ↦ elim (Bios.read sysmemaddr) [
      | some v ↦ (v, m)
      | none ↦ elim (Mem.read m.dataseg sysmemaddr) [
        | some v ↦ (v, m)
        | none ↦ elim (Vtd.read m.vtd sysmemaddr) [
          | some v ↦ (v, m)
          | none ↦ elim (Lapic.read m.lapic_id sysmemaddr) [ some v ↦ (v, m) | none ↦ (0, m) ]
        ]
      ]
    ]
  ]
]

-- `_impl_xmhfhwm_cpu_sysmemwrite`; if no device has the address, the assertion `0` fails, and the code
-- behind it changes nothing.
unfoldable pub sysmemwrite : Machine → ℕ → ℕ → Machine
sysmemwrite m sysmemaddr write_value = elim (E1000.write m.e1000 sysmemaddr write_value) [
  | some (s, c) ↦ record m { e1000 = s; calls = m.calls ++ c }
  | none ↦ elim (Txt.write m.txt sysmemaddr write_value) [
    | some (s, c) ↦ record m { txt = s; calls = m.calls ++ c }
    | none ↦ elim (Bios.write sysmemaddr) [
      | true ↦ m
      | false ↦ elim (Vtd.write m.vtd sysmemaddr write_value) [
        | some ds ↦ record m { vtd = ds }
        | none ↦ elim (Lapic.write m.lapic_id sysmemaddr write_value) [
          | some i ↦ record m { lapic_id = i }
          | none ↦ elim (Mem.write m.dataseg sysmemaddr write_value) [
            | some d ↦ record m { dataseg = d }
            | none ↦ m
          ]
        ]
      ]
    ]
  ]
]

-- The assertions of a read of so many bits: a device has the address, and every device but the
-- network card asserts a size of 32 bits.
unfoldable pub read_asserts : Machine → ℕ → ℕ → Bool
read_asserts m bits sysmemaddr = elim (E1000.read m.e1000 sysmemaddr 0) [
  | some (v, s) ↦ true
  | none ↦ elim (Txt.read m.txt sysmemaddr) [
    | some v ↦ bits == 32
    | none ↦ elim (Bios.read sysmemaddr) [
      | some v ↦ bits == 32
      | none ↦ elim (Mem.read m.dataseg sysmemaddr) [
        | some v ↦ bits == 32
        | none ↦ elim (Vtd.read m.vtd sysmemaddr) [
          | some v ↦ bits == 32
          | none ↦ elim (Lapic.read m.lapic_id sysmemaddr) [ some v ↦ bits == 32 | none ↦ false ]
        ]
      ]
    ]
  ]
]

-- `_impl_xmhfhwm_bios_write`: the sizes that its two branches assert.
unfoldable pub bios_write_size : ℕ → ℕ → Bool
bios_write_size bits sysmemaddr =
    if sysmemaddr == Bios.vtddmartablebase
    then bits == 32
    else bits == 8 || (bits == 16 && ltb sysmemaddr (Bios.bda_base + Bios.bda_size - 2))

-- The assertions of a write of so many bits; the assertion of the local APIC is commented out.
unfoldable pub write_asserts : Machine → ℕ → ℕ → ℕ → Bool
write_asserts m bits sysmemaddr write_value = elim (E1000.write m.e1000 sysmemaddr write_value) [
  | some (s, c) ↦ true
  | none ↦ elim (Txt.write m.txt sysmemaddr write_value) [
    | some (s, c) ↦ bits == 32
    | none ↦ elim (Bios.write sysmemaddr) [
      | true ↦ bios_write_size bits sysmemaddr
      | false ↦ elim (Vtd.write m.vtd sysmemaddr write_value) [
        | some ds ↦ bits == 32
        | none ↦ elim (Lapic.write m.lapic_id sysmemaddr write_value) [
          | some i ↦ true
          | none ↦ elim (Mem.write m.dataseg sysmemaddr write_value) [
            | some d ↦ bits == 16
            | none ↦ false
          ]
        ]
      ]
    ]
  ]
]

-- sysmem_copy_t
pub data SysmemCopy : Type 0 where
  sys2obj obj2sys : SysmemCopy

-- `_impl_xmhfhwm_cpu_sysmemcopy`: TXT and BIOS take copies into the object, the memory regions
-- copies out of it. If no device has the address, the assertion `0` fails, and the code behind it
-- changes nothing; the assertions on the range of the object are left out.
unfoldable pub sysmemcopy : SysmemCopy → Machine → ℕ → ℕ → ℕ → Machine
sysmemcopy SysmemCopy.sys2obj m dstaddr srcaddr size =
    elim (Txt.copy_sys2obj m.txt m.obj dstaddr srcaddr size) [
      | some o ↦ record m { obj = o }
      | none ↦ elim (Bios.copy_sys2obj m.obj dstaddr srcaddr size) [
        | some o ↦ record m { obj = o }
        | none ↦ m
      ]
    ]
sysmemcopy SysmemCopy.obj2sys m dstaddr srcaddr size =
    elim (Mem.copy_obj2sys m.obj m.dataseg dstaddr srcaddr size) [
      | some (d, c) ↦ record m { dataseg = d; calls = m.calls ++ c }
      | none ↦ m
    ]
