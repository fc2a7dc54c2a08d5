-- ===== src/Hwm/Txt.antt =====
-- src/hwm/xmhfhwm_txt.c and src/hwm/include/xmhfhwm_txt.h: the model of the TXT configuration registers and
-- of the TXT heap.
use uberspark.Base.{ℕ, ◌+◌, ◌-◌, ◌&&◌, Option, none, some, List, [], ◌∷◌}
use uberspark.Base.{u32, sub32, ◌==◌, leb, ltb, if◌then◌else◌}
use uberspark.Hwm.Obj.{Memory, load32, store32, store64, memcpy}
use uberspark.Hwm.Call.{Call}

abbrev pub pub_config_regs_base : ℕ
pub_config_regs_base = 0xfed3_0000

abbrev pub priv_config_regs_base : ℕ
priv_config_regs_base = 0xfed2_0000

abbrev pub txtcr_heap_base : ℕ
txtcr_heap_base = 0x300

abbrev pub txtcr_heap_size : ℕ
txtcr_heap_size = 0x308

abbrev pub txtcr_mle_join : ℕ
txtcr_mle_join = 0x290

abbrev pub heapbase : ℕ
heapbase = 0xee00_0000

abbrev pub rlpwakeupaddr : ℕ
rlpwakeupaddr = 0xdbf0_1b10

-- TXT_CAPS_T_RLP_WAKE_MONITOR
abbrev pub caps_rlp_wake_monitor : ℕ
caps_rlp_wake_monitor = 2

-- The sizes of the four parts of `xmhfhwm_txt_heap_t` without their size fields: bios_data_t, the
-- page osmledata, os_sinit_data_t and sinit_mle_data_t.
abbrev pub sizeof_bios_data : ℕ
sizeof_bios_data = 36

abbrev pub page_size_4k : ℕ
page_size_4k = 4096

abbrev pub sizeof_os_sinit_data : ℕ
sizeof_os_sinit_data = 92

abbrev pub sizeof_sinit_mle_data : ℕ
sizeof_sinit_mle_data = 148

-- sizeof(xmhfhwm_txt_heap)
abbrev pub sizeof_heap : ℕ
sizeof_heap =
    8
    + sizeof_bios_data
    + (8 + page_size_4k)
    + (8 + sizeof_os_sinit_data)
    + (8 + sizeof_sinit_mle_data)

-- The initial contents of `xmhfhwm_txt_heap`: the four sizes, each with its own field, the
-- capabilities TXT_CAPS_T_RLP_WAKE_MONITOR and the wakeup address.
unfoldable pub txt_heap : Memory
txt_heap =
    let os_mle = 8 + sizeof_bios_data in
    let os_sinit = os_mle + (8 + page_size_4k) in
    let sinit_mle = os_sinit + (8 + sizeof_os_sinit_data) in
    let m0 = store64 (λ _. 0) 0 (sizeof_bios_data + 8) in
    let m1 = store64 m0 os_mle (page_size_4k + 8) in
    let m2 = store64 m1 os_sinit (sizeof_os_sinit_data + 8) in
    let m3 = store64 m2 sinit_mle (sizeof_sinit_mle_data + 8) in
    let m4 = store32 m3 (os_sinit + 8 + 80) caps_rlp_wake_monitor in
    store32 m4 (sinit_mle + 8 + 120) rlpwakeupaddr

-- `heap` gives the byte at each offset from `&xmhfhwm_txt_heap`.
pub record Txt : Type 0 where
  pub heap : Memory
  pub heap_base_hi : ℕ
  pub heap_base_lo : ℕ
  pub heap_size_hi : ℕ
  pub heap_size_lo : ℕ
  pub mle_join_hi : ℕ
  pub mle_join_lo : ℕ
  pub rlp_wakeup_addr : ℕ

-- `_impl_xmhfhwm_txt_read`
unfoldable pub read : Txt → ℕ → Option ℕ
read s sysmemaddr =
    if sysmemaddr == pub_config_regs_base + txtcr_heap_base
    then some s.heap_base_lo
    else if sysmemaddr == pub_config_regs_base + txtcr_heap_base + 4
    then some s.heap_base_hi
    else if sysmemaddr == pub_config_regs_base + txtcr_heap_size
    then some s.heap_size_lo
    else if sysmemaddr == pub_config_regs_base + txtcr_heap_size + 4
    then some s.heap_size_hi
    else if sysmemaddr == priv_config_regs_base + txtcr_mle_join
    then some s.mle_join_lo
    else if sysmemaddr == priv_config_regs_base + txtcr_mle_join + 4
    then some s.mle_join_hi
    else if leb heapbase sysmemaddr && ltb sysmemaddr (heapbase + sizeof_heap)
    then some (load32 s.heap (sysmemaddr - heapbase))
    else none

-- `_impl_xmhfhwm_txt_write`
unfoldable pub write : Txt → ℕ → ℕ → Option (Txt × List Call)
write s sysmemaddr write_value =
    let v = u32 write_value in
    if sysmemaddr == priv_config_regs_base + txtcr_mle_join
    then some (record s { mle_join_lo = v }, [])
    else if sysmemaddr == priv_config_regs_base + txtcr_mle_join + 4
    then some (record s { mle_join_hi = v }, [])
    else if sysmemaddr == rlpwakeupaddr
    then some
        (record s { rlp_wakeup_addr = v }, Call.txt_write_rlp_wakeup_addr s.rlp_wakeup_addr v ∷ [])
    else none

-- `_impl_xmhfhwm_txt_sysmemcopy` for SYSMEMCOPYSYS2OBJ (the other direction is refused).
unfoldable pub copy_sys2obj : Txt → Memory → ℕ → ℕ → ℕ → Option Memory
copy_sys2obj s obj dstaddr srcaddr size =
    if leb heapbase srcaddr && ltb (sub32 (srcaddr + size) 1) (heapbase + sizeof_heap)
    then some (memcpy size obj dstaddr s.heap (srcaddr - heapbase))
    else none
