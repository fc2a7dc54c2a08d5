-- ===== src/Hwm/Cpu/Insn.antt =====
-- The instruction macros of src/hwm/include/xmhfhwm_cpu.h as data, each the call of one function of
-- src/hwm/xmhfhwm_cpu.c, and straight-line code as a list of them.
use uberspark.Base.{ℕ, List, [], ◌∷◌}
use uberspark.Hwm.Cpu.{Cpu}
use uberspark.Hwm.Cpu.Moves
use uberspark.Hwm.Cpu.Stack
use uberspark.Hwm.Cpu.Alu
use uberspark.Hwm.Cpu.Msr
use uberspark.Hwm.Cpu.System
use uberspark.Hwm.Cpu.Sysmem
use uberspark.Hwm.Sysmem.{SysmemCopy}

pub data Insn : Type 0 where
  movl_mesp_eax movl_mesp_ebx movl_mesp_ecx movl_mesp_edx movl_meax_edx movl_meax_edi movl_meax_esi
        movl_meax_ebp movl_meax_ebx movl_meax_eax movl_meax_ecx movl_ecx_meax movl_edx_meax
        movl_mebx_ebx movl_mecx_ecx movl_medx_edx movl_mesp_esi movl_ebx_mesi movl_ecx_mesi
        movl_mecx_eax movl_mecx_edx movl_eax_mesp movw_mesp_ax movl_imm_eax movl_imm_esi
        movl_imm_edi movl_imm_ecx movl_imm_edx movl_imm_ebx movl_mesp_edi movw_imm_ax addl_imm_esp
        movl_meax_esp subl_imm_esp pushl_mesp pushl_mem movl_imm_esp pushl_imm addl_imm_ecx
        addl_imm_eax andl_imm_edx andl_imm_ecx shl_imm_ecx orl_imm_eax shr_imm_eax andl_imm_eax
        sgdt_mesp sidt_mesp invept_mesp_edx invvpid_mesp_edx invvpid_mesp_ecx lgdt_mecx lidt_mecx
        vmxon_mesp vmclear_mesp vmptrld_mesp movl_mesi_eax movl_mesi_edx movl_eax_mesi movl_edx_mesi
        movb_al_mesi movw_ax_mesi :
      ℕ → Insn
  movl_eax_ebx movl_eax_edi movl_edx_ecx movl_eax_ecx movl_esp_eax movl_esp_ecx movl_esp_edx
        movl_edx_esp movl_eax_esp pushl_esi pushl_ebx popl_eax popl_esi popl_ebx popl_edx
        addl_eax_esp pushfl popfl pushl_edi popl_edi pushl_ebp pushl_eax pushl_edx pushl_esp
        pushl_ecx popl_ebp pushal xorl_eax_eax xorl_edx_edx addl_eax_ecx orl_ecx_eax orl_edx_eax cld
        mull_ecx addl_ecx_eax cpuid inb_dx_al inl_dx_eax inw_dx_ax outb_al_dx outl_eax_dx outw_ax_dx
        wrmsr rdmsr rdtsc xgetbv xsetbv hlt cli sti getsec str_ax ltr_ax pause movl_cr0_eax
        movl_cr2_eax movl_cr3_eax movl_cr4_eax movl_cs_eax movl_ds_eax movl_es_eax movl_fs_eax
        movl_gs_eax movl_ss_eax vmwrite_eax_ecx vmread_ecx_eax wbinvd movl_eax_cr0 movl_eax_cr3
        movl_ebx_cr3 movl_eax_cr4 vmlaunch vmresume movw_ax_ds movw_ds_ax movw_ax_es movw_ax_fs
        movw_ax_gs movw_ax_ss iretl :
      Insn
  movl_imm_meax movl_imm_mesp cmpl_imm_meax btl_imm_mecx btrl_imm_mecx btsl_imm_mecx : ℕ → ℕ → Insn
  lock rep_movsb rep_movsb_sys2obj rep_movsb_obj2sys : Insn

unfoldable pub exec : Insn → Cpu → Cpu
exec (Insn.movl_mesp_eax i) s = Moves.movl_mesp_eax i s
exec (Insn.movl_mesp_ebx i) s = Moves.movl_mesp_ebx i s
exec (Insn.movl_mesp_ecx i) s = Moves.movl_mesp_ecx i s
exec (Insn.movl_mesp_edx i) s = Moves.movl_mesp_edx i s
exec Insn.movl_eax_ebx s = Moves.movl_eax_ebx s
exec Insn.movl_eax_edi s = Moves.movl_eax_edi s
exec (Insn.movl_imm_meax v i) s = Moves.movl_imm_meax v i s
exec (Insn.movl_meax_edx i) s = Moves.movl_meax_edx i s
exec (Insn.movl_meax_edi i) s = Moves.movl_meax_edi i s
exec (Insn.movl_meax_esi i) s = Moves.movl_meax_esi i s
exec (Insn.movl_meax_ebp i) s = Moves.movl_meax_ebp i s
exec (Insn.movl_meax_ebx i) s = Moves.movl_meax_ebx i s
exec (Insn.movl_meax_eax i) s = Moves.movl_meax_eax i s
exec (Insn.movl_meax_ecx i) s = Moves.movl_meax_ecx i s
exec (Insn.movl_ecx_meax i) s = Moves.movl_ecx_meax i s
exec (Insn.movl_edx_meax i) s = Moves.movl_edx_meax i s
exec (Insn.movl_mebx_ebx i) s = Moves.movl_mebx_ebx i s
exec (Insn.movl_mecx_ecx i) s = Moves.movl_mecx_ecx i s
exec (Insn.movl_medx_edx i) s = Moves.movl_medx_edx i s
exec (Insn.movl_mesp_esi i) s = Moves.movl_mesp_esi i s
exec (Insn.movl_ebx_mesi i) s = Moves.movl_ebx_mesi i s
exec (Insn.movl_ecx_mesi i) s = Moves.movl_ecx_mesi i s
exec (Insn.movl_mecx_eax i) s = Moves.movl_mecx_eax i s
exec (Insn.movl_mecx_edx i) s = Moves.movl_mecx_edx i s
exec Insn.movl_edx_ecx s = Moves.movl_edx_ecx s
exec Insn.movl_eax_ecx s = Moves.movl_eax_ecx s
exec (Insn.movl_eax_mesp i) s = Moves.movl_eax_mesp i s
exec (Insn.movl_imm_mesp v i) s = Moves.movl_imm_mesp v i s
exec (Insn.movw_mesp_ax i) s = Moves.movw_mesp_ax i s
exec (Insn.movl_imm_eax v) s = Moves.movl_imm_eax v s
exec (Insn.movl_imm_esi v) s = Moves.movl_imm_esi v s
exec (Insn.movl_imm_edi v) s = Moves.movl_imm_edi v s
exec (Insn.movl_imm_ecx v) s = Moves.movl_imm_ecx v s
exec (Insn.movl_imm_edx v) s = Moves.movl_imm_edx v s
exec (Insn.movl_imm_ebx v) s = Moves.movl_imm_ebx v s
exec Insn.movl_esp_eax s = Moves.movl_esp_eax s
exec Insn.movl_esp_ecx s = Moves.movl_esp_ecx s
exec (Insn.movl_mesp_edi i) s = Moves.movl_mesp_edi i s
exec Insn.movl_esp_edx s = Moves.movl_esp_edx s
exec (Insn.movw_imm_ax v) s = Moves.movw_imm_ax v s
exec (Insn.addl_imm_esp v) s = Stack.addl_imm_esp v s
exec (Insn.movl_meax_esp i) s = Stack.movl_meax_esp i s
exec (Insn.subl_imm_esp v) s = Stack.subl_imm_esp v s
exec Insn.movl_edx_esp s = Stack.movl_edx_esp s
exec Insn.movl_eax_esp s = Stack.movl_eax_esp s
exec (Insn.pushl_mesp i) s = Stack.pushl_mesp i s
exec (Insn.pushl_mem v) s = Stack.pushl_mem v s
exec Insn.pushl_esi s = Stack.pushl_esi s
exec Insn.pushl_ebx s = Stack.pushl_ebx s
exec Insn.popl_eax s = Stack.popl_eax s
exec Insn.popl_esi s = Stack.popl_esi s
exec Insn.popl_ebx s = Stack.popl_ebx s
exec Insn.popl_edx s = Stack.popl_edx s
exec Insn.addl_eax_esp s = Stack.addl_eax_esp s
exec (Insn.movl_imm_esp v) s = Stack.movl_imm_esp v s
exec Insn.pushfl s = Stack.pushfl s
exec Insn.popfl s = Stack.popfl s
exec Insn.pushl_edi s = Stack.pushl_edi s
exec Insn.popl_edi s = Stack.popl_edi s
exec Insn.pushl_ebp s = Stack.pushl_ebp s
exec Insn.pushl_eax s = Stack.pushl_eax s
exec Insn.pushl_edx s = Stack.pushl_edx s
exec Insn.pushl_esp s = Stack.pushl_esp s
exec (Insn.pushl_imm v) s = Stack.pushl_imm v s
exec Insn.pushl_ecx s = Stack.pushl_ecx s
exec Insn.popl_ebp s = Stack.popl_ebp s
exec Insn.pushal s = Stack.pushal s
exec (Insn.cmpl_imm_meax v i) s = Alu.cmpl_imm_meax v i s
exec Insn.xorl_eax_eax s = Alu.xorl_eax_eax s
exec Insn.xorl_edx_edx s = Alu.xorl_edx_edx s
exec Insn.addl_eax_ecx s = Alu.addl_eax_ecx s
exec (Insn.addl_imm_ecx v) s = Alu.addl_imm_ecx v s
exec (Insn.addl_imm_eax v) s = Alu.addl_imm_eax v s
exec (Insn.andl_imm_edx v) s = Alu.andl_imm_edx v s
exec (Insn.andl_imm_ecx v) s = Alu.andl_imm_ecx v s
exec (Insn.shl_imm_ecx v) s = Alu.shl_imm_ecx v s
exec (Insn.orl_imm_eax v) s = Alu.orl_imm_eax v s
exec (Insn.shr_imm_eax v) s = Alu.shr_imm_eax v s
exec Insn.orl_ecx_eax s = Alu.orl_ecx_eax s
exec Insn.orl_edx_eax s = Alu.orl_edx_eax s
exec (Insn.btl_imm_mecx v i) s = Alu.btl_imm_mecx v i s
exec (Insn.btrl_imm_mecx v i) s = Alu.btrl_imm_mecx v i s
exec (Insn.btsl_imm_mecx v i) s = Alu.btsl_imm_mecx v i s
exec Insn.cld s = Alu.cld s
exec (Insn.andl_imm_eax v) s = Alu.andl_imm_eax v s
exec Insn.mull_ecx s = Alu.mull_ecx s
exec Insn.addl_ecx_eax s = Alu.addl_ecx_eax s
exec Insn.cpuid s = Msr.cpuid s
exec Insn.inb_dx_al s = Msr.inb_dx_al s
exec Insn.inl_dx_eax s = Msr.inl_dx_eax s
exec Insn.inw_dx_ax s = Msr.inw_dx_ax s
exec Insn.outb_al_dx s = Msr.outb_al_dx s
exec Insn.outl_eax_dx s = Msr.outl_eax_dx s
exec Insn.outw_ax_dx s = Msr.outw_ax_dx s
exec Insn.wrmsr s = Msr.wrmsr s
exec Insn.rdmsr s = Msr.rdmsr s
exec Insn.rdtsc s = Msr.rdtsc s
exec Insn.xgetbv s = Msr.xgetbv s
exec Insn.xsetbv s = Msr.xsetbv s
exec Insn.hlt s = System.hlt s
exec Insn.cli s = System.cli s
exec Insn.sti s = System.sti s
exec (Insn.sgdt_mesp i) s = System.sgdt_mesp i s
exec (Insn.sidt_mesp i) s = System.sidt_mesp i s
exec Insn.getsec s = System.getsec s
exec Insn.str_ax s = System.str_ax s
exec (Insn.invept_mesp_edx i) s = System.invept_mesp_edx i s
exec (Insn.invvpid_mesp_edx i) s = System.invvpid_mesp_edx i s
exec (Insn.invvpid_mesp_ecx i) s = System.invvpid_mesp_ecx i s
exec (Insn.lgdt_mecx i) s = System.lgdt_mecx i s
exec (Insn.lidt_mecx i) s = System.lidt_mecx i s
exec Insn.ltr_ax s = System.ltr_ax s
exec Insn.pause s = System.pause s
exec Insn.movl_cr0_eax s = System.movl_cr0_eax s
exec Insn.movl_cr2_eax s = System.movl_cr2_eax s
exec Insn.movl_cr3_eax s = System.movl_cr3_eax s
exec Insn.movl_cr4_eax s = System.movl_cr4_eax s
exec Insn.movl_cs_eax s = System.movl_cs_eax s
exec Insn.movl_ds_eax s = System.movl_ds_eax s
exec Insn.movl_es_eax s = System.movl_es_eax s
exec Insn.movl_fs_eax s = System.movl_fs_eax s
exec Insn.movl_gs_eax s = System.movl_gs_eax s
exec Insn.movl_ss_eax s = System.movl_ss_eax s
exec (Insn.vmxon_mesp i) s = System.vmxon_mesp i s
exec Insn.vmwrite_eax_ecx s = System.vmwrite_eax_ecx s
exec Insn.vmread_ecx_eax s = System.vmread_ecx_eax s
exec (Insn.vmclear_mesp i) s = System.vmclear_mesp i s
exec (Insn.vmptrld_mesp i) s = System.vmptrld_mesp i s
exec Insn.wbinvd s = System.wbinvd s
exec Insn.movl_eax_cr0 s = System.movl_eax_cr0 s
exec Insn.movl_eax_cr3 s = System.movl_eax_cr3 s
exec Insn.movl_ebx_cr3 s = System.movl_ebx_cr3 s
exec Insn.movl_eax_cr4 s = System.movl_eax_cr4 s
exec Insn.vmlaunch s = System.vmlaunch s
exec Insn.vmresume s = System.vmresume s
exec Insn.movw_ax_ds s = System.movw_ax_ds s
exec Insn.movw_ds_ax s = System.movw_ds_ax s
exec Insn.movw_ax_es s = System.movw_ax_es s
exec Insn.movw_ax_fs s = System.movw_ax_fs s
exec Insn.movw_ax_gs s = System.movw_ax_gs s
exec Insn.movw_ax_ss s = System.movw_ax_ss s
exec Insn.iretl s = System.iretl s
exec (Insn.movl_mesi_eax i) s = Sysmem.movl_mesi_eax i s
exec (Insn.movl_mesi_edx i) s = Sysmem.movl_mesi_edx i s
exec (Insn.movl_eax_mesi i) s = Sysmem.movl_eax_mesi i s
exec (Insn.movl_edx_mesi i) s = Sysmem.movl_edx_mesi i s
exec (Insn.movb_al_mesi i) s = Sysmem.movb_al_mesi i s
exec (Insn.movw_ax_mesi i) s = Sysmem.movw_ax_mesi i s
exec Insn.lock s = s
exec Insn.rep_movsb s = Sysmem.rep_movsb s
exec Insn.rep_movsb_sys2obj s = Sysmem.rep_movsb_sysmem SysmemCopy.sys2obj s
exec Insn.rep_movsb_obj2sys s = Sysmem.rep_movsb_sysmem SysmemCopy.obj2sys s

unfoldable pub run : List Insn → Cpu → Cpu
run [] s = s
run (i ∷ is) s = run is (exec i s)
