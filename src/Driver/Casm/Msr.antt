-- ===== src/Driver/Casm/Msr.antt =====
-- src/libs/libxmhfhw/xmhfhw_cpu_{rdmsr,wrmsr,rdtsc,xgetbv,xsetbv,cpuid,getsec}.cS and the port accesses
-- xmhfhw_cpu_{in,out}{b,w,l}.cS.
use uberspark.Base.{ℕ, List, [], ◌∷◌}
use uberspark.Hwm.Cpu.{Cpu}
use uberspark.Hwm.Cpu.Insn.{Insn, run}
use uberspark.Hwm.Cpu.Jump.{ret, retu32, retu64}

abbrev pub rdmsr64_insns : List Insn
rdmsr64_insns = (Insn.movl_mesp_ecx 0x4) ∷ Insn.rdmsr ∷ []

unfoldable pub rdmsr64 : Cpu → ℕ × Cpu
rdmsr64 s = retu64 (run rdmsr64_insns s)

abbrev pub wrmsr64_insns : List Insn
wrmsr64_insns =
    (Insn.movl_mesp_ecx 0x4) ∷ (Insn.movl_mesp_eax 0x8) ∷ (Insn.movl_mesp_edx 0xC) ∷ Insn.wrmsr ∷ []

unfoldable pub wrmsr64 : Cpu → Cpu
wrmsr64 s = ret (run wrmsr64_insns s)

abbrev pub rdtsc64_insns : List Insn
rdtsc64_insns = Insn.rdtsc ∷ []

unfoldable pub rdtsc64 : Cpu → ℕ × Cpu
rdtsc64 s = retu64 (run rdtsc64_insns s)

abbrev pub xgetbv_insns : List Insn
xgetbv_insns = (Insn.movl_mesp_ecx 0x4) ∷ Insn.xgetbv ∷ []

unfoldable pub xgetbv : Cpu → ℕ × Cpu
xgetbv s = retu64 (run xgetbv_insns s)

abbrev pub xsetbv_insns : List Insn
xsetbv_insns =
    (Insn.movl_mesp_ecx 0x4)
    ∷ (Insn.movl_mesp_eax 0x8)
    ∷ (Insn.movl_mesp_edx 0xC)
    ∷ Insn.xsetbv
    ∷ []

unfoldable pub xsetbv : Cpu → Cpu
xsetbv s = ret (run xsetbv_insns s)

abbrev pub cpu_cpuid_insns : List Insn
cpu_cpuid_insns =
    Insn.pushl_esi
    ∷ Insn.pushl_ebx
    ∷ (Insn.movl_mesp_eax 0xc)
    ∷ (Insn.movl_mesp_ecx 0x18)
    ∷ (Insn.movl_mecx_ecx 0x0)
    ∷ Insn.cpuid
    ∷ (Insn.movl_mesp_esi 0x14)
    ∷ (Insn.movl_ebx_mesi 0x0)
    ∷ (Insn.movl_mesp_esi 0x18)
    ∷ (Insn.movl_ecx_mesi 0x0)
    ∷ Insn.movl_eax_ecx
    ∷ (Insn.movl_mesp_esi 0x10)
    ∷ (Insn.movl_ecx_mesi 0x0)
    ∷ Insn.movl_edx_ecx
    ∷ (Insn.movl_mesp_esi 0x1c)
    ∷ (Insn.movl_ecx_mesi 0x0)
    ∷ Insn.popl_ebx
    ∷ Insn.popl_esi
    ∷ []

unfoldable pub cpu_cpuid : Cpu → Cpu
cpu_cpuid s = ret (run cpu_cpuid_insns s)

abbrev pub cpu_getsec_insns : List Insn
cpu_getsec_insns =
    Insn.pushl_esi
    ∷ Insn.pushl_ebx
    ∷ (Insn.movl_mesp_eax 0xC)
    ∷ (Insn.movl_meax_eax 0x0)
    ∷ (Insn.movl_mesp_ebx 0x10)
    ∷ (Insn.movl_mebx_ebx 0x0)
    ∷ (Insn.movl_mesp_ecx 0x14)
    ∷ (Insn.movl_mecx_ecx 0x0)
    ∷ (Insn.movl_mesp_edx 0x18)
    ∷ (Insn.movl_medx_edx 0x0)
    ∷ Insn.getsec
    ∷ (Insn.movl_mesp_esi 0xC)
    ∷ (Insn.movl_eax_mesi 0x0)
    ∷ (Insn.movl_mesp_esi 0x10)
    ∷ (Insn.movl_ebx_mesi 0x0)
    ∷ (Insn.movl_mesp_esi 0x14)
    ∷ (Insn.movl_ecx_mesi 0x0)
    ∷ (Insn.movl_mesp_esi 0x18)
    ∷ (Insn.movl_edx_mesi 0x0)
    ∷ Insn.popl_ebx
    ∷ Insn.popl_esi
    ∷ []

unfoldable pub cpu_getsec : Cpu → Cpu
cpu_getsec s = ret (run cpu_getsec_insns s)

abbrev pub inb_insns : List Insn
inb_insns = (Insn.movl_mesp_edx 0x4) ∷ Insn.xorl_eax_eax ∷ Insn.inb_dx_al ∷ Insn.xorl_edx_edx ∷ []

unfoldable pub inb : Cpu → ℕ × Cpu
inb s = retu32 (run inb_insns s)

abbrev pub inw_insns : List Insn
inw_insns = (Insn.movl_mesp_edx 0x4) ∷ Insn.xorl_eax_eax ∷ Insn.inw_dx_ax ∷ Insn.xorl_edx_edx ∷ []

unfoldable pub inw : Cpu → ℕ × Cpu
inw s = retu32 (run inw_insns s)

abbrev pub inl_insns : List Insn
inl_insns = (Insn.movl_mesp_edx 0x4) ∷ Insn.xorl_eax_eax ∷ Insn.inl_dx_eax ∷ Insn.xorl_edx_edx ∷ []

unfoldable pub inl : Cpu → ℕ × Cpu
inl s = retu32 (run inl_insns s)

abbrev pub outb_insns : List Insn
outb_insns = (Insn.movl_mesp_eax 0x4) ∷ (Insn.movl_mesp_edx 0x8) ∷ Insn.outb_al_dx ∷ []

unfoldable pub outb : Cpu → Cpu
outb s = ret (run outb_insns s)

abbrev pub outw_insns : List Insn
outw_insns = (Insn.movl_mesp_eax 0x4) ∷ (Insn.movl_mesp_edx 0x8) ∷ Insn.outw_ax_dx ∷ []

unfoldable pub outw : Cpu → Cpu
outw s = ret (run outw_insns s)

abbrev pub outl_insns : List Insn
outl_insns = (Insn.movl_mesp_eax 0x4) ∷ (Insn.movl_mesp_edx 0x8) ∷ Insn.outl_eax_dx ∷ []

unfoldable pub outl : Cpu → Cpu
outl s = ret (run outl_insns s)
