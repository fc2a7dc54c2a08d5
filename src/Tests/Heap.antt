-- ===== src/Tests/Heap.antt =====
-- The theorems on src/libs/libxmhfhw/xmhfhw_cpu_txt*.c at the heap that src/hwm/xmhfhwm_txt.c
-- initializes, and those on xmhfhw_sysmem_getacpirsdp.c.
use uberspark.Base.{◌+◌, ◌≡◌, refl, arith, false, some}
use uberspark.Hwm.Txt.{heapbase, sizeof_heap, txt_heap, txtcr_mle_join}
use uberspark.Hwm.Obj.{load32, store32, store64}
use uberspark.Hwm.Sysmem.{read_asserts, write_asserts, Machine}
use uberspark.Driver.TxtHeap.{
  get_bios_data_size, get_bios_data_start, get_os_mle_data_size, get_os_mle_data_start,
  get_os_sinit_data_size, get_os_sinit_data_start, get_sinit_mle_data_start, write_pub_config_reg,
  txt_is_launched, read_priv_config_reg, write_priv_config_reg,
}
use uberspark.Driver.TxtHeap.Parts.{part, size_at, heap_parts_lem}
use uberspark.Driver.TxtHeap.Registers.{
  txt_is_launched_lem, read_priv_config_reg-write_priv_config_reg,
}
use uberspark.Hwm.Bios.{acpirsdpbase, copy_rsdp}
use uberspark.Driver.Acpi.{get_rsdp, accepted, rsdp_signature}
use uberspark.Driver.Acpi.Search.{get_rsdp_lem}
use uberspark.Tests.{machine, both-IsPlaced}

-- The machine with the contents of the heap at the start.
abbrev booted : Machine
booted = record machine { txt = record machine.txt { heap = txt_heap } }

last_part : part txt_heap 3 ≡ 4248
unfolding part size_at txt_heap load32 store32 store64
last_part = refl

heap_parts_example :
    ((get_bios_data_size booted heapbase sizeof_heap ≡ (44, booted))
      × (get_os_mle_data_size booted heapbase sizeof_heap ≡ (4104, booted))
      × (get_os_sinit_data_size booted heapbase sizeof_heap ≡ (100, booted)))
    × (get_bios_data_start heapbase sizeof_heap ≡ heapbase + 8)
    × (get_os_mle_data_start booted heapbase sizeof_heap ≡ (heapbase + 52, booted))
    × (get_os_sinit_data_start booted heapbase sizeof_heap ≡ (heapbase + 4156, booted))
    × (get_sinit_mle_data_start booted heapbase sizeof_heap ≡ (heapbase + 4256, booted))
unfolding part size_at txt_heap load32 store32 store64
heap_parts_example = heap_parts_lem booted sizeof_heap (omega (arith, last_part))

txt_is_launched_example :
    (read_asserts machine 32 0xfed3_0000 ≡ false)
    × (read_asserts machine 32 0xfed3_0004 ≡ false)
    × (write_asserts machine 32 0xfed3_0000 1 ≡ false)
    × (txt_is_launched machine ≡ (false, machine))
    × (write_pub_config_reg machine 0 1 ≡ machine)
txt_is_launched_example = txt_is_launched_lem machine both-IsPlaced 0 1 (omega arith)

read_priv_config_reg-write_priv_config_reg_example :
    (read_priv_config_reg
      (write_priv_config_reg machine txtcr_mle_join 0x1_2345_6789)
      txtcr_mle_join).0
    ≡ 0x1_2345_6789
read_priv_config_reg-write_priv_config_reg_example =
    read_priv_config_reg-write_priv_config_reg machine 0x1_2345_6789

get_rsdp_example :
    get_rsdp 65 machine 0x1000
    ≡ some (acpirsdpbase, record machine { obj = copy_rsdp machine.obj 0x1000 })
unfolding accepted rsdp_signature load32
get_rsdp_example = get_rsdp_lem machine 0x1000 (omega arith) 64 (omega arith)
