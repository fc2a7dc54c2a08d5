-- ===== src/Driver/Casm/Regs.antt =====
-- src/libs/libxmhfhw/xmhfhw_cpu_{read,write,reload}*.cS: control registers, flags, stack pointer and
-- segment selectors.
use uberspark.Base.{ℕ, List, [], ◌∷◌}
use uberspark.Hwm.Cpu.{Cpu}
use uberspark.Hwm.Cpu.Insn.{Insn, run}
use uberspark.Hwm.Cpu.Jump.{lret, ret, retu32, retu64}

abbrev pub read_cr0_insns : List Insn
read_cr0_insns = Insn.xorl_edx_edx ∷ Insn.movl_cr0_eax ∷ []

unfoldable pub read_cr0 : Cpu → ℕ × Cpu
read_cr0 s = retu64 (run read_cr0_insns s)

abbrev pub read_cr2_insns : List Insn
read_cr2_insns = Insn.movl_cr2_eax ∷ []

unfoldable pub read_cr2 : Cpu → ℕ × Cpu
read_cr2 s = retu32 (run read_cr2_insns s)

abbrev pub read_cr3_insns : List Insn
read_cr3_insns = Insn.xorl_edx_edx ∷ Insn.movl_cr3_eax ∷ []

unfoldable pub read_cr3 : Cpu → ℕ × Cpu
read_cr3 s = retu64 (run read_cr3_insns s)

abbrev pub read_cr4_insns : List Insn
read_cr4_insns = Insn.xorl_edx_edx ∷ Insn.movl_cr4_eax ∷ []

unfoldable pub read_cr4 : Cpu → ℕ × Cpu
read_cr4 s = retu64 (run read_cr4_insns s)

abbrev pub write_cr0_insns : List Insn
write_cr0_insns = (Insn.movl_mesp_eax 0x4) ∷ Insn.movl_eax_cr0 ∷ []

unfoldable pub write_cr0 : Cpu → Cpu
write_cr0 s = ret (run write_cr0_insns s)

abbrev pub write_cr3_insns : List Insn
write_cr3_insns = (Insn.movl_mesp_eax 0x4) ∷ Insn.movl_eax_cr3 ∷ []

unfoldable pub write_cr3 : Cpu → Cpu
write_cr3 s = ret (run write_cr3_insns s)

abbrev pub write_cr4_insns : List Insn
write_cr4_insns = (Insn.movl_mesp_eax 0x4) ∷ Insn.movl_eax_cr4 ∷ []

unfoldable pub write_cr4 : Cpu → Cpu
write_cr4 s = ret (run write_cr4_insns s)

abbrev pub read_eflags_insns : List Insn
read_eflags_insns = Insn.pushfl ∷ Insn.popl_eax ∷ []

unfoldable pub read_eflags : Cpu → ℕ × Cpu
read_eflags s = retu32 (run read_eflags_insns s)

abbrev pub write_eflags_insns : List Insn
write_eflags_insns = (Insn.pushl_mesp 0x4) ∷ Insn.popfl ∷ []

unfoldable pub write_eflags : Cpu → Cpu
write_eflags s = ret (run write_eflags_insns s)

abbrev pub read_esp_insns : List Insn
read_esp_insns = Insn.movl_esp_eax ∷ []

unfoldable pub read_esp : Cpu → ℕ × Cpu
read_esp s = retu32 (run read_esp_insns s)

abbrev pub read_rsp_insns : List Insn
read_rsp_insns = Insn.xorl_edx_edx ∷ Insn.movl_esp_eax ∷ []

unfoldable pub read_rsp : Cpu → ℕ × Cpu
read_rsp s = retu64 (run read_rsp_insns s)

abbrev pub read_segreg_cs_insns : List Insn
read_segreg_cs_insns = Insn.movl_cs_eax ∷ []

unfoldable pub read_segreg_cs : Cpu → ℕ × Cpu
read_segreg_cs s = retu32 (run read_segreg_cs_insns s)

abbrev pub read_segreg_ds_insns : List Insn
read_segreg_ds_insns = Insn.movl_ds_eax ∷ []

unfoldable pub read_segreg_ds : Cpu → ℕ × Cpu
read_segreg_ds s = retu32 (run read_segreg_ds_insns s)

abbrev pub read_segreg_es_insns : List Insn
read_segreg_es_insns = Insn.movl_es_eax ∷ []

unfoldable pub read_segreg_es : Cpu → ℕ × Cpu
read_segreg_es s = retu32 (run read_segreg_es_insns s)

abbrev pub read_segreg_fs_insns : List Insn
read_segreg_fs_insns = Insn.movl_fs_eax ∷ []

unfoldable pub read_segreg_fs : Cpu → ℕ × Cpu
read_segreg_fs s = retu32 (run read_segreg_fs_insns s)

abbrev pub read_segreg_gs_insns : List Insn
read_segreg_gs_insns = Insn.movl_gs_eax ∷ []

unfoldable pub read_segreg_gs : Cpu → ℕ × Cpu
read_segreg_gs s = retu32 (run read_segreg_gs_insns s)

abbrev pub read_segreg_ss_insns : List Insn
read_segreg_ss_insns = Insn.movl_ss_eax ∷ []

unfoldable pub read_segreg_ss : Cpu → ℕ × Cpu
read_segreg_ss s = retu32 (run read_segreg_ss_insns s)

abbrev pub read_tr_sel_insns : List Insn
read_tr_sel_insns = Insn.xorl_eax_eax ∷ Insn.str_ax ∷ []

unfoldable pub read_tr_sel : Cpu → ℕ × Cpu
read_tr_sel s = retu32 (run read_tr_sel_insns s)

abbrev pub cpu_reloadcs_insns : List Insn
cpu_reloadcs_insns = Insn.popl_eax ∷ (Insn.pushl_mesp 0x0) ∷ Insn.pushl_eax ∷ []

unfoldable pub cpu_reloadcs : Cpu → Cpu
cpu_reloadcs s = lret (run cpu_reloadcs_insns s)

abbrev pub cpu_reloaddsregs_insns : List Insn
cpu_reloaddsregs_insns =
    (Insn.movl_mesp_eax 0x4)
    ∷ Insn.movw_ax_ds
    ∷ Insn.movw_ax_es
    ∷ Insn.movw_ax_fs
    ∷ Insn.movw_ax_gs
    ∷ Insn.movw_ax_ss
    ∷ []

unfoldable pub cpu_reloaddsregs : Cpu → Cpu
cpu_reloaddsregs s = ret (run cpu_reloaddsregs_insns s)
