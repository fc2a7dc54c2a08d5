-- ===== src/Driver/Acpi.antt =====
-- src/libs/libxmhfhw/xmhfhw_sysmem_getacpirsdp.c: the search for the root system description pointer.
pub mod Search
use uberspark.Base.{
  ℕ, zero, suc, ◌+◌, ◌*◌, ◌-◌, ◌^◌, Bool, true, false, ◌&&◌, Option, none, some, u8, u16, u32, ◌<<◌,
  ltb, ◌==◌, if◌then◌else◌,
}
use uberspark.Hwm.Obj.{Memory, load32}
use uberspark.Hwm.Sysmem.{Machine, SysmemCopy, sysmemread, sysmemcopy}

-- The effect of xmhfhw_sysmemaccess_readu16 on system memory.
unfoldable pub readu16 : Machine → ℕ → ℕ × Machine
readu16 m addr = let r = sysmemread m (u32 addr) in (u16 r.0, r.1)

abbrev pub acpi_rsdp_signature : ℕ
acpi_rsdp_signature = 0x2052_5450_2044_5352

abbrev pub sizeof_acpi_rsdp : ℕ
sizeof_acpi_rsdp = 36

-- `rsdp->signature`
unfoldable pub rsdp_signature : Memory → ℕ → ℕ
rsdp_signature obj rsdp = load32 obj rsdp + (load32 obj (rsdp + 4) << 32)

-- The loop of `_acpi_computetablechecksum`, with `checksum` as the bits of a char.
unfoldable pub sum_bytes : ℕ → Memory → ℕ → ℕ → ℕ
sum_bytes zero obj p checksum = checksum
sum_bytes (suc n) obj p checksum = sum_bytes n obj (p + 1) (u8 (checksum + obj (u32 p)))

-- `_acpi_computetablechecksum`: the char is extended by its sign.
unfoldable pub acpi_computetablechecksum : Memory → ℕ → ℕ → ℕ
acpi_computetablechecksum obj table size =
    let checksum = sum_bytes size obj table 0 in
    if ltb checksum 128 then checksum else checksum + 2 ^ 32 - 256

-- The tests in the body of both loops.
unfoldable pub accepted : Memory → ℕ → Bool
accepted obj rsdp =
    rsdp_signature obj rsdp == acpi_rsdp_signature && acpi_computetablechecksum obj rsdp 20 == 0

-- Both loops, from `i` on: whether the table was found, and the last `i`.
unfoldable pub search : ℕ → Machine → ℕ → ℕ → ℕ → ℕ → Option ((Bool × ℕ) × Machine)
search zero m rsdp base limit i = none
search (suc fuel) m rsdp base limit i = elim (ltb i limit) [
  | false ↦ some ((false, i), m)
  | true ↦
      let copied = sysmemcopy SysmemCopy.sys2obj m rsdp (u32 (base + i)) sizeof_acpi_rsdp in
      elim (accepted copied.obj rsdp) [
        | true ↦ some ((true, i), copied)
        | false ↦ search fuel copied rsdp base limit (i + 16)
      ]
]

-- The second loop and what follows it.
unfoldable pub search_bios : ℕ → Machine → ℕ → Option (ℕ × Machine)
search_bios fuel m rsdp = elim (search fuel m rsdp 0 (0xf_ffff - 8) 0xe_0000) [
  | none ↦ none
  | some ((true, i), s) ↦ some (i, s)
  | some ((false, i), s) ↦ some (0, s)
]

-- The first loop and what follows it.
unfoldable pub search_ebda : ℕ → Machine → ℕ → ℕ → Option (ℕ × Machine)
search_ebda fuel m rsdp ebdaphys = elim (search fuel m rsdp ebdaphys (1024 - 8) 0) [
  | none ↦ none
  | some ((true, i), s) ↦ some (u32 (ebdaphys + i), s)
  | some ((false, i), s) ↦ search_bios fuel s rsdp
]

-- xmhfhw_platform_x86pc_acpi_getRSDP: the address, and the machine with the table at `rsdp`.
unfoldable pub get_rsdp : ℕ → Machine → ℕ → Option (ℕ × Machine)
get_rsdp fuel m rsdp =
    let ebdaseg = readu16 m 0x40e in search_ebda fuel ebdaseg.1 rsdp (u32 (ebdaseg.0 * 16))
