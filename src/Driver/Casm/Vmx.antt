-- ===== src/Driver/Casm/Vmx.antt =====
-- src/libs/libxmhfhw/xmhfhw_cpu_{vmxon,vmclear,vmptrld,invept,bsrl}.cS: the functions whose code
-- jumps to a label, or whose instruction may have no result.
use uberspark.Base.{ℕ, List, [], ◌∷◌, if◌then◌else◌, Option}
use mathlib.Core.Option
use uberspark.Hwm.Cpu.{Cpu}
use uberspark.Hwm.Cpu.Alu.{bsrl_mesp_eax}
use uberspark.Hwm.Cpu.Insn.{Insn, run}
use uberspark.Hwm.Cpu.Jump.{jc, jz, jbe, retu32}

-- `jbe error; movl $1, %eax; jmp done; error: movl $0, %eax; done:`.
unfoldable pub one_unless_jbe : Cpu → Cpu
one_unless_jbe s =
    if jbe s then run (Insn.movl_imm_eax 0x0 ∷ []) s else run (Insn.movl_imm_eax 0x1 ∷ []) s

unfoldable pub vmx_vmxon : Cpu → ℕ × Cpu
vmx_vmxon s = retu32 (one_unless_jbe (run (Insn.vmxon_mesp 0x4 ∷ []) s))

unfoldable pub vmx_vmclear : Cpu → ℕ × Cpu
vmx_vmclear s = retu32 (one_unless_jbe (run (Insn.vmclear_mesp 0x4 ∷ []) s))

unfoldable pub vmx_vmptrld : Cpu → ℕ × Cpu
vmx_vmptrld s = retu32 (one_unless_jbe (run (Insn.vmptrld_mesp 0x4 ∷ []) s))

-- The descriptor built on the stack, up to the jumps.
unfoldable pub invept_insns : List Insn
invept_insns =
    Insn.subl_imm_esp 0x10
    ∷ Insn.movl_mesp_edx 0x14
    ∷ Insn.movl_mesp_eax 0x1C
    ∷ Insn.movl_eax_mesp 0x0
    ∷ Insn.movl_mesp_eax 0x20
    ∷ Insn.movl_eax_mesp 0x4
    ∷ Insn.movl_imm_mesp 0x0 0x8
    ∷ Insn.movl_imm_mesp 0x0 0xC
    ∷ Insn.invept_mesp_edx 0x0
    ∷ []

unfoldable pub vmx_invept : Cpu → ℕ × Cpu
vmx_invept s =
    let t = run invept_insns s in
    let e =
      if jc t
      then run (Insn.movl_imm_eax 0x1 ∷ []) t
      else if jz t
      then run (Insn.movl_imm_eax 0x1 ∷ []) t
      else run (Insn.xorl_eax_eax ∷ []) t in
    retu32 (run (Insn.addl_imm_esp 0x10 ∷ []) e)

unfoldable pub bsrl : Cpu → Option (ℕ × Cpu)
bsrl s = Option.map retu32 (bsrl_mesp_eax 0x4 s)
