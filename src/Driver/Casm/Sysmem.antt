-- ===== src/Driver/Casm/Sysmem.antt =====
-- src/libs/libxmhfhw/xmhfhw_sysmem_*.cS: the accesses to system memory and the copies.
use uberspark.Base.{ℕ, List, [], ◌∷◌}
use uberspark.Hwm.Cpu.{Cpu}
use uberspark.Hwm.Cpu.Insn.{Insn, run}
use uberspark.Hwm.Cpu.Jump.{ret, retu32, retu64}

abbrev pub sysmemaccess_readu8_insns : List Insn
sysmemaccess_readu8_insns =
    Insn.pushl_esi
    ∷ (Insn.movl_mesp_esi 0x8)
    ∷ (Insn.movl_mesi_eax 0x0)
    ∷ (Insn.andl_imm_eax 0x000000FF)
    ∷ Insn.popl_esi
    ∷ []

unfoldable pub sysmemaccess_readu8 : Cpu → ℕ × Cpu
sysmemaccess_readu8 s = retu32 (run sysmemaccess_readu8_insns s)

abbrev pub sysmemaccess_readu16_insns : List Insn
sysmemaccess_readu16_insns =
    Insn.pushl_esi
    ∷ (Insn.movl_mesp_esi 0x8)
    ∷ (Insn.movl_mesi_eax 0x0)
    ∷ (Insn.andl_imm_eax 0x0000FFFF)
    ∷ Insn.popl_esi
    ∷ []

unfoldable pub sysmemaccess_readu16 : Cpu → ℕ × Cpu
sysmemaccess_readu16 s = retu32 (run sysmemaccess_readu16_insns s)

abbrev pub sysmemaccess_readu32_insns : List Insn
sysmemaccess_readu32_insns =
    Insn.pushl_esi ∷ (Insn.movl_mesp_esi 0x8) ∷ (Insn.movl_mesi_eax 0x0) ∷ Insn.popl_esi ∷ []

unfoldable pub sysmemaccess_readu32 : Cpu → ℕ × Cpu
sysmemaccess_readu32 s = retu32 (run sysmemaccess_readu32_insns s)

abbrev pub sysmemaccess_readu64_insns : List Insn
sysmemaccess_readu64_insns =
    Insn.pushl_esi
    ∷ (Insn.movl_mesp_esi 0x8)
    ∷ (Insn.movl_mesi_eax 0x0)
    ∷ (Insn.movl_mesi_edx 0x4)
    ∷ Insn.popl_esi
    ∷ []

unfoldable pub sysmemaccess_readu64 : Cpu → ℕ × Cpu
sysmemaccess_readu64 s = retu64 (run sysmemaccess_readu64_insns s)

abbrev pub sysmemaccess_writeu8_insns : List Insn
sysmemaccess_writeu8_insns =
    Insn.pushl_esi
    ∷ (Insn.movl_mesp_esi 0x8)
    ∷ (Insn.movl_mesp_eax 0xC)
    ∷ (Insn.movb_al_mesi 0x0)
    ∷ Insn.popl_esi
    ∷ []

unfoldable pub sysmemaccess_writeu8 : Cpu → Cpu
sysmemaccess_writeu8 s = ret (run sysmemaccess_writeu8_insns s)

abbrev pub sysmemaccess_writeu16_insns : List Insn
sysmemaccess_writeu16_insns =
    Insn.pushl_esi
    ∷ (Insn.movl_mesp_esi 0x8)
    ∷ (Insn.movl_mesp_eax 0xC)
    ∷ (Insn.movw_ax_mesi 0x0)
    ∷ Insn.popl_esi
    ∷ []

unfoldable pub sysmemaccess_writeu16 : Cpu → Cpu
sysmemaccess_writeu16 s = ret (run sysmemaccess_writeu16_insns s)

abbrev pub sysmemaccess_writeu32_insns : List Insn
sysmemaccess_writeu32_insns =
    Insn.pushl_esi
    ∷ (Insn.movl_mesp_esi 0x8)
    ∷ (Insn.movl_mesp_eax 0xC)
    ∷ (Insn.movl_eax_mesi 0x0)
    ∷ Insn.popl_esi
    ∷ []

unfoldable pub sysmemaccess_writeu32 : Cpu → Cpu
sysmemaccess_writeu32 s = ret (run sysmemaccess_writeu32_insns s)

abbrev pub sysmemaccess_writeu64_insns : List Insn
sysmemaccess_writeu64_insns =
    Insn.pushl_esi
    ∷ (Insn.movl_mesp_esi 0x8)
    ∷ (Insn.movl_mesp_eax 0xC)
    ∷ (Insn.movl_mesp_edx 0x10)
    ∷ (Insn.movl_eax_mesi 0x0)
    ∷ (Insn.movl_edx_mesi 0x4)
    ∷ Insn.popl_esi
    ∷ []

unfoldable pub sysmemaccess_writeu64 : Cpu → Cpu
sysmemaccess_writeu64 s = ret (run sysmemaccess_writeu64_insns s)

abbrev pub sysmemaccess_copy_insns : List Insn
sysmemaccess_copy_insns =
    Insn.pushl_esi
    ∷ Insn.pushl_edi
    ∷ (Insn.movl_mesp_edi 0xC)
    ∷ (Insn.movl_mesp_esi 0x10)
    ∷ (Insn.movl_mesp_ecx 0x14)
    ∷ Insn.cld
    ∷ Insn.rep_movsb
    ∷ Insn.popl_edi
    ∷ Insn.popl_esi
    ∷ []

unfoldable pub sysmemaccess_copy : Cpu → Cpu
sysmemaccess_copy s = ret (run sysmemaccess_copy_insns s)

abbrev pub sysmem_copy_sys2obj_insns : List Insn
sysmem_copy_sys2obj_insns =
    Insn.pushl_esi
    ∷ Insn.pushl_edi
    ∷ (Insn.movl_mesp_edi 0xC)
    ∷ (Insn.movl_mesp_esi 0x10)
    ∷ (Insn.movl_mesp_ecx 0x14)
    ∷ Insn.cld
    ∷ Insn.rep_movsb_sys2obj
    ∷ Insn.popl_edi
    ∷ Insn.popl_esi
    ∷ []

unfoldable pub sysmem_copy_sys2obj : Cpu → Cpu
sysmem_copy_sys2obj s = ret (run sysmem_copy_sys2obj_insns s)

abbrev pub sysmem_copy_obj2sys_insns : List Insn
sysmem_copy_obj2sys_insns =
    Insn.pushl_esi
    ∷ Insn.pushl_edi
    ∷ (Insn.movl_mesp_edi 0xC)
    ∷ (Insn.movl_mesp_esi 0x10)
    ∷ (Insn.movl_mesp_ecx 0x14)
    ∷ Insn.cld
    ∷ Insn.rep_movsb_obj2sys
    ∷ Insn.popl_edi
    ∷ Insn.popl_esi
    ∷ []

unfoldable pub sysmem_copy_obj2sys : Cpu → Cpu
sysmem_copy_obj2sys s = ret (run sysmem_copy_obj2sys_insns s)
