-- ===== src/Driver/TxtHeap.antt =====
-- src/libs/libxmhfhw/xmhfhw_cpu_txt*.c: the TXT configuration registers and the walk over the parts of
-- the TXT heap. A sum of several reads reads from the left to the right.
-- get_sinit_mle_data_size is left out: it calls the assembly function without CASM_FUNCCALL, so on the
-- hardware model its parameter is not on the stack.
pub mod Parts
pub mod Registers
use uberspark.Base.{ℕ, ◌+◌, Bool, u32, ◌>>◌, ◌==◌, not}
use uberspark.Hwm.Txt.{pub_config_regs_base, priv_config_regs_base, txtcr_heap_base}
use uberspark.Hwm.Sysmem.{Machine}
use uberspark.Regs.TxtSts.{unpack_txt_sts}
use uberspark.Driver.VtdReg.{readu64, writeu64}

abbrev pub txtcr_sts : ℕ
txtcr_sts = 0x0000

pub read_pub_config_reg : Machine → ℕ → ℕ × Machine
read_pub_config_reg m reg = readu64 m (pub_config_regs_base + reg)

pub read_priv_config_reg : Machine → ℕ → ℕ × Machine
read_priv_config_reg m reg = readu64 m (priv_config_regs_base + reg)

pub write_pub_config_reg : Machine → ℕ → ℕ → Machine
write_pub_config_reg m reg val = writeu64 m (pub_config_regs_base + reg) (u32 val) (u32 (val >> 32))

pub write_priv_config_reg : Machine → ℕ → ℕ → Machine
write_priv_config_reg m reg val =
    writeu64 m (priv_config_regs_base + reg) (u32 val) (u32 (val >> 32))

pub txt_is_launched : Machine → Bool × Machine
txt_is_launched m =
    let r = read_pub_config_reg m txtcr_sts in
    (not ((unpack_txt_sts r.0).senter_done_sts == 0), r.1)

pub get_txt_heap : Machine → ℕ × Machine
get_txt_heap m = let r = read_pub_config_reg m txtcr_heap_base in (u32 r.0, r.1)

-- The size of the heap is an argument that no accessor uses.
pub get_bios_data_size : Machine → ℕ → ℕ → ℕ × Machine
get_bios_data_size m heap_memaddr heap_size = readu64 m heap_memaddr

pub get_bios_data_start : ℕ → ℕ → ℕ
get_bios_data_start heap_memaddr heap_size = u32 (heap_memaddr + 8)

pub get_os_mle_data_size : Machine → ℕ → ℕ → ℕ × Machine
get_os_mle_data_size m heap_memaddr heap_size =
    let bios = get_bios_data_size m heap_memaddr heap_size in
    readu64 bios.1 (u32 (heap_memaddr + u32 bios.0))

pub get_os_mle_data_start : Machine → ℕ → ℕ → ℕ × Machine
get_os_mle_data_start m heap_memaddr heap_size =
    let bios = get_bios_data_size m heap_memaddr heap_size in
    (u32 (heap_memaddr + u32 bios.0 + 8), bios.1)

pub get_os_sinit_data_size : Machine → ℕ → ℕ → ℕ × Machine
get_os_sinit_data_size m heap_memaddr heap_size =
    let bios = get_bios_data_size m heap_memaddr heap_size in
    let os_mle = get_os_mle_data_size bios.1 heap_memaddr heap_size in
    readu64 os_mle.1 (u32 (heap_memaddr + u32 bios.0 + u32 os_mle.0))

pub get_os_sinit_data_start : Machine → ℕ → ℕ → ℕ × Machine
get_os_sinit_data_start m heap_memaddr heap_size =
    let bios = get_bios_data_size m heap_memaddr heap_size in
    let os_mle = get_os_mle_data_size bios.1 heap_memaddr heap_size in
    (u32 (heap_memaddr + u32 bios.0 + u32 os_mle.0 + 8), os_mle.1)

pub get_sinit_mle_data_start : Machine → ℕ → ℕ → ℕ × Machine
get_sinit_mle_data_start m heap_memaddr heap_size =
    let bios = get_bios_data_size m heap_memaddr heap_size in
    let os_mle = get_os_mle_data_size bios.1 heap_memaddr heap_size in
    let os_sinit = get_os_sinit_data_size os_mle.1 heap_memaddr heap_size in
    (u32 (heap_memaddr + u32 bios.0 + u32 os_mle.0 + u32 os_sinit.0 + 8), os_sinit.1)
