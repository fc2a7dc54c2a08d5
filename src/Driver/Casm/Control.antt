-- ===== src/Driver/Casm/Control.antt =====
-- src/libs/libxmhfhw/xmhfhw_cpu_{hlt,pause,wbinvd,disableintr,enableintr,invvpid,vmread,vmwrite}.cS.
use uberspark.Base.{ℕ, List, [], ◌∷◌}
use uberspark.Hwm.Cpu.{Cpu}
use uberspark.Hwm.Cpu.Insn.{Insn, run}
use uberspark.Hwm.Cpu.Jump.{ret, retu32}

abbrev pub cpu_hlt_insns : List Insn
cpu_hlt_insns = Insn.hlt ∷ []

unfoldable pub cpu_hlt : Cpu → Cpu
cpu_hlt s = ret (run cpu_hlt_insns s)

abbrev pub cpu_relax_insns : List Insn
cpu_relax_insns = Insn.pause ∷ []

unfoldable pub cpu_relax : Cpu → Cpu
cpu_relax s = ret (run cpu_relax_insns s)

abbrev pub wbinvd_insns : List Insn
wbinvd_insns = Insn.wbinvd ∷ []

unfoldable pub wbinvd : Cpu → Cpu
wbinvd s = ret (run wbinvd_insns s)

abbrev pub cpu_disable_intr_insns : List Insn
cpu_disable_intr_insns = Insn.cli ∷ []

unfoldable pub cpu_disable_intr : Cpu → Cpu
cpu_disable_intr s = ret (run cpu_disable_intr_insns s)

abbrev pub enable_intr_insns : List Insn
enable_intr_insns = Insn.sti ∷ []

unfoldable pub enable_intr : Cpu → Cpu
enable_intr s = ret (run enable_intr_insns s)

abbrev pub cpu_invvpid_insns : List Insn
cpu_invvpid_insns =
    (Insn.subl_imm_esp 0x10)
    ∷ (Insn.movl_mesp_edx 0x14)
    ∷ (Insn.movl_mesp_eax 0x18)
    ∷ (Insn.movl_eax_mesp 0x0)
    ∷ (Insn.movl_imm_mesp 0x0 0x4)
    ∷ (Insn.movl_mesp_eax 0x1C)
    ∷ (Insn.movl_eax_mesp 0x8)
    ∷ (Insn.movl_mesp_eax 0x20)
    ∷ (Insn.movl_eax_mesp 0xC)
    ∷ (Insn.invvpid_mesp_edx 0x0)
    ∷ (Insn.addl_imm_esp 0x10)
    ∷ []

unfoldable pub cpu_invvpid : Cpu → Cpu
cpu_invvpid s = ret (run cpu_invvpid_insns s)

abbrev pub vmread_insns : List Insn
vmread_insns = (Insn.movl_mesp_ecx 0x4) ∷ Insn.vmread_ecx_eax ∷ []

unfoldable pub vmread : Cpu → ℕ × Cpu
vmread s = retu32 (run vmread_insns s)

abbrev pub vmwrite_insns : List Insn
vmwrite_insns = (Insn.movl_mesp_ecx 0x4) ∷ (Insn.movl_mesp_eax 0x8) ∷ Insn.vmwrite_eax_ecx ∷ []

unfoldable pub vmwrite : Cpu → Cpu
vmwrite s = ret (run vmwrite_insns s)
