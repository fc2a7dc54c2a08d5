-- ===== src/Driver/Casm/Tables.antt =====
-- src/libs/libxmhfhw/xmhfhw_cpu_get{gdt,idt,tss}base.cS and xmhfhw_cpu_load{gdt,idt,tr}.cS.
use uberspark.Base.{ℕ, List, [], ◌∷◌}
use uberspark.Hwm.Cpu.{Cpu}
use uberspark.Hwm.Cpu.Insn.{Insn, run}
use uberspark.Hwm.Cpu.Jump.{ret, retu32, retu64}

abbrev pub getgdtbase_insns : List Insn
getgdtbase_insns =
    (Insn.subl_imm_esp 0x8)
    ∷ (Insn.sgdt_mesp 0x0)
    ∷ (Insn.movl_mesp_eax 0x2)
    ∷ (Insn.addl_imm_esp 0x8)
    ∷ []

unfoldable pub getgdtbase : Cpu → ℕ × Cpu
getgdtbase s = retu32 (run getgdtbase_insns s)

abbrev pub getidtbase_insns : List Insn
getidtbase_insns =
    (Insn.subl_imm_esp 0x8)
    ∷ (Insn.sidt_mesp 0x0)
    ∷ (Insn.movl_mesp_eax 0x2)
    ∷ (Insn.addl_imm_esp 0x8)
    ∷ []

unfoldable pub getidtbase : Cpu → ℕ × Cpu
getidtbase s = retu32 (run getidtbase_insns s)

abbrev pub gettssbase_insns : List Insn
gettssbase_insns =
    (Insn.subl_imm_esp 0x8)
    ∷ (Insn.sgdt_mesp 0x0)
    ∷ (Insn.movl_mesp_ecx 0x2)
    ∷ Insn.xorl_eax_eax
    ∷ Insn.str_ax
    ∷ Insn.addl_eax_ecx
    ∷ (Insn.movl_mecx_eax 0x0)
    ∷ (Insn.addl_imm_ecx 0x4)
    ∷ (Insn.movl_mecx_edx 0x0)
    ∷ Insn.movl_edx_ecx
    ∷ (Insn.andl_imm_edx 0xFF000000)
    ∷ (Insn.andl_imm_ecx 0x000000FF)
    ∷ (Insn.shl_imm_ecx 16)
    ∷ (Insn.shr_imm_eax 16)
    ∷ Insn.orl_ecx_eax
    ∷ Insn.orl_edx_eax
    ∷ Insn.xorl_edx_edx
    ∷ (Insn.addl_imm_esp 0x8)
    ∷ []

unfoldable pub gettssbase : Cpu → ℕ × Cpu
gettssbase s = retu64 (run gettssbase_insns s)

abbrev pub cpu_load_gdt_insns : List Insn
cpu_load_gdt_insns = (Insn.movl_mesp_ecx 0x4) ∷ (Insn.lgdt_mecx 0x0) ∷ []

unfoldable pub cpu_load_gdt : Cpu → Cpu
cpu_load_gdt s = ret (run cpu_load_gdt_insns s)

abbrev pub cpu_load_idt_insns : List Insn
cpu_load_idt_insns = (Insn.movl_mesp_ecx 0x4) ∷ (Insn.lidt_mecx 0x0) ∷ []

unfoldable pub cpu_load_idt : Cpu → Cpu
cpu_load_idt s = ret (run cpu_load_idt_insns s)

abbrev pub cpu_load_tr_insns : List Insn
cpu_load_tr_insns = (Insn.movl_mesp_eax 0x4) ∷ Insn.ltr_ax ∷ []

unfoldable pub cpu_load_tr : Cpu → Cpu
cpu_load_tr s = ret (run cpu_load_tr_insns s)
