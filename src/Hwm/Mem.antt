-- ===== src/Hwm/Mem.antt =====
-- src/hwm/xmhfhwm_mem.c: the model of the memory regions for starting the other processors, and of the
-- guest's interrupt vector table.
use uberspark.Base.{ℕ, ◌+◌, ◌-◌, Bool, ◌&&◌, Option, none, some, List, [], ◌∷◌}
use uberspark.Base.{sub32, ◌==◌, leb, ltb, if◌then◌else◌}
use uberspark.Hwm.Obj.{Memory, load32, memcpy}
use uberspark.Hwm.Call.{Call}

-- XMHFHWM_MEM_X86SMP_APBOOTSTRAP_*
abbrev pub dataseg_base : ℕ
dataseg_base = 0x11000

abbrev pub dataseg_size : ℕ
dataseg_size = 256

abbrev pub codeseg_base : ℕ
codeseg_base = 0x10000

abbrev pub codeseg_size : ℕ
codeseg_size = 4096

abbrev pub in_guest_ivt : ℕ → Bool
in_guest_ivt sysmemaddr = leb 0 sysmemaddr && ltb sysmemaddr (1024 - 4)

-- `_impl_xmhfhwm_mem_read` over the bytes of `xmhfhwm_mem_region_apbootstrap_dataseg`.
unfoldable pub read : Memory → ℕ → Option ℕ
read dataseg sysmemaddr =
    if sysmemaddr == dataseg_base + 0
    then some (load32 dataseg 0)
    else if sysmemaddr == dataseg_base + 8
    then some (load32 dataseg 8)
    else if sysmemaddr == dataseg_base + 32
    then some (load32 dataseg 32)
    else if in_guest_ivt sysmemaddr
    then some 0
    else none

-- `_impl_xmhfhwm_mem_write`: a write to the vector table is accepted and not kept.
unfoldable pub write : Memory → ℕ → ℕ → Option Memory
write dataseg sysmemaddr write_value = if in_guest_ivt sysmemaddr then some dataseg else none

-- `_impl_xmhfhwm_mem_sysmemcopy` for SYSMEMCOPYOBJ2SYS (the other direction is refused): `obj` is
-- the object's memory.
unfoldable pub copy_obj2sys : Memory → Memory → ℕ → ℕ → ℕ → Option (Memory × List Call)
copy_obj2sys obj dataseg dstaddr srcaddr size =
    let last = sub32 (dstaddr + size) 1 in
    if leb dataseg_base dstaddr && ltb last (dataseg_base + dataseg_size)
    then some (memcpy size dataseg (dstaddr - dataseg_base) obj srcaddr, [])
    else if leb codeseg_base dstaddr && ltb last (codeseg_base + codeseg_size)
    then some (dataseg, Call.mem_copy_to_apbootstrap_codeseg srcaddr ∷ [])
    else none
