-- ===== src/Hwm/Cpu/System.antt =====
-- src/hwm/xmhfhwm_cpu.c: control, segment and descriptor table registers, virtual machine
-- instructions. What the source leaves to do does nothing here either.
use uberspark.Base.{ℕ, u16, u32, bit_and, bit_or, clear, ◌==◌, if◌then◌else◌, ◌+◌}
use uberspark.Hwm.Call.{Call}
use uberspark.Hwm.Cpu.{
  Cpu, load, load_u16, store, store16_at, report, CpuState, eflags_cf, eflags_zf, eflags_if,
  vmcs_host_rip, vmcs_host_rsp, vmcs_host_cr3,
}

abbrev pub hlt : Cpu → Cpu
hlt s = record s { state = CpuState.halt }

abbrev pub cli : Cpu → Cpu
cli s = record s { eflags = clear s.eflags eflags_if }

abbrev pub sti : Cpu → Cpu
sti s = record s { eflags = bit_or s.eflags eflags_if }

abbrev pub sgdt_mesp : ℕ → Cpu → Cpu
sgdt_mesp index s =
    store (store16_at s (u32 (s.esp + index)) s.gdtr_limit) (u32 (s.esp + index + 2)) s.gdtr_base

abbrev pub sidt_mesp : ℕ → Cpu → Cpu
sidt_mesp index s =
    store (store16_at s (u32 (s.esp + index)) s.idtr_limit) (u32 (s.esp + index + 4)) s.idtr_base

abbrev pub getsec : Cpu → Cpu
getsec s = if s.ebx == 0 then record s { eax = 0 } else s

abbrev pub str_ax : Cpu → Cpu
str_ax s = record s { eax = bit_or (bit_and s.eax 0xFFFF0000) (u16 s.tr_selector) }

abbrev pub invept_mesp_edx : ℕ → Cpu → Cpu
invept_mesp_edx index s = s

abbrev pub invvpid_mesp_edx : ℕ → Cpu → Cpu
invvpid_mesp_edx index s = s

abbrev pub invvpid_mesp_ecx : ℕ → Cpu → Cpu
invvpid_mesp_ecx index s = record s { eflags = clear (clear s.eflags eflags_cf) eflags_zf }

abbrev pub lgdt_mecx : ℕ → Cpu → Cpu
lgdt_mecx index s = record s {
  gdtr_base = load s (u32 (s.ecx + index + 2));
  gdtr_limit = load_u16 s (u32 (s.ecx + index));
}

abbrev pub lidt_mecx : ℕ → Cpu → Cpu
lidt_mecx index s = record s {
  idtr_base = load s (u32 (s.ecx + index + 2));
  idtr_limit = load_u16 s (u32 (s.ecx + index));
}

abbrev pub ltr_ax : Cpu → Cpu
ltr_ax s = record s { tr_selector = u16 (bit_and s.eax 0x0000FFFF) }

abbrev pub pause : Cpu → Cpu
pause s = s

abbrev pub movl_cr0_eax : Cpu → Cpu
movl_cr0_eax s = record s { eax = s.cr0 }

abbrev pub movl_cr2_eax : Cpu → Cpu
movl_cr2_eax s = record s { eax = s.cr2 }

abbrev pub movl_cr3_eax : Cpu → Cpu
movl_cr3_eax s = record s { eax = s.cr3 }

abbrev pub movl_cr4_eax : Cpu → Cpu
movl_cr4_eax s = record s { eax = s.cr4 }

abbrev pub movl_cs_eax : Cpu → Cpu
movl_cs_eax s = record s { eax = s.cs_selector }

abbrev pub movl_ds_eax : Cpu → Cpu
movl_ds_eax s = record s { eax = s.ds_selector }

abbrev pub movl_es_eax : Cpu → Cpu
movl_es_eax s = record s { eax = s.es_selector }

abbrev pub movl_fs_eax : Cpu → Cpu
movl_fs_eax s = record s { eax = s.fs_selector }

abbrev pub movl_gs_eax : Cpu → Cpu
movl_gs_eax s = record s { eax = s.gs_selector }

abbrev pub movl_ss_eax : Cpu → Cpu
movl_ss_eax s = record s { eax = s.ss_selector }

abbrev pub vmxon_mesp : ℕ → Cpu → Cpu
vmxon_mesp index s = record s { eflags = clear (clear s.eflags eflags_cf) eflags_zf }

abbrev pub vmwrite_eax_ecx : Cpu → Cpu
vmwrite_eax_ecx s =
    let s' = report s (Call.cpu_vmwrite s.ecx s.eax) in
    if s.ecx == vmcs_host_rip
    then record s' { host_rip = s.eax }
    else if s.ecx == vmcs_host_rsp
    then record s' { host_rsp = s.eax }
    else if s.ecx == vmcs_host_cr3
    then record s' { host_cr3 = s.eax }
    else s'

abbrev pub vmread_ecx_eax : Cpu → Cpu
vmread_ecx_eax s =
    if s.ecx == vmcs_host_rip
    then record s { eax = s.host_rip }
    else if s.ecx == vmcs_host_rsp
    then record s { eax = s.host_rsp }
    else if s.ecx == vmcs_host_cr3
    then record s { eax = s.host_cr3 }
    else s

abbrev pub vmclear_mesp : ℕ → Cpu → Cpu
vmclear_mesp index s = s

abbrev pub vmptrld_mesp : ℕ → Cpu → Cpu
vmptrld_mesp index s = s

abbrev pub wbinvd : Cpu → Cpu
wbinvd s = s

abbrev pub movl_eax_cr0 : Cpu → Cpu
movl_eax_cr0 s = record s { cr0 = s.eax }

abbrev pub movl_eax_cr3 : Cpu → Cpu
movl_eax_cr3 s = record (report s (Call.cpu_writecr3 s.cr3 s.eax)) { cr3 = s.eax }

abbrev pub movl_ebx_cr3 : Cpu → Cpu
movl_ebx_cr3 s = record (report s (Call.cpu_writecr3 s.cr3 s.ebx)) { cr3 = s.ebx }

abbrev pub movl_eax_cr4 : Cpu → Cpu
movl_eax_cr4 s = record s { cr4 = s.eax }

abbrev pub vmlaunch : Cpu → Cpu
vmlaunch s = report s Call.slabep

abbrev pub vmresume : Cpu → Cpu
vmresume s = report s Call.slabep

abbrev pub movw_ax_ds : Cpu → Cpu
movw_ax_ds s = record s { ds_selector = bit_and s.eax 0x0000FFFF }

abbrev pub movw_ds_ax : Cpu → Cpu
movw_ds_ax s = record s { eax = bit_or (bit_and s.eax 0xFFFF0000) (u16 s.ds_selector) }

abbrev pub movw_ax_es : Cpu → Cpu
movw_ax_es s = record s { es_selector = bit_and s.eax 0x0000FFFF }

abbrev pub movw_ax_fs : Cpu → Cpu
movw_ax_fs s = record s { fs_selector = bit_and s.eax 0x0000FFFF }

abbrev pub movw_ax_gs : Cpu → Cpu
movw_ax_gs s = record s { gs_selector = bit_and s.eax 0x0000FFFF }

abbrev pub movw_ax_ss : Cpu → Cpu
movw_ax_ss s = record s { ss_selector = bit_and s.eax 0x0000FFFF }

abbrev pub iretl : Cpu → Cpu
iretl s = report s Call.slabep
