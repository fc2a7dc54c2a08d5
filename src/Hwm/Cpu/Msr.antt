-- ===== src/Hwm/Cpu/Msr.antt =====
-- src/hwm/xmhfhwm_cpu.c: processor identification, model specific registers, extended control
-- register, time stamp and ports.
use uberspark.Base.{u16, u32, u64, bit_and, bit_or, ◌<<◌, ◌>>◌, ◌==◌, if◌then◌else◌, ◌+◌}
use uberspark.Hwm.Cpu.{
  Cpu, edx_eax, pci_config_addr_port, intel_string_dword1, intel_string_dword2, intel_string_dword3,
  msr_efer, msr_apic_base, ia32_sysenter_cs_msr, ia32_sysenter_eip_msr, ia32_sysenter_esp_msr,
  ia32_vmx_procbased_ctls2_msr, ia32_mtrrcap,
}

abbrev pub cpuid : Cpu → Cpu
cpuid s =
    if s.eax == 0
    then record s {
      ebx = intel_string_dword1;
      ecx = intel_string_dword3;
      edx = intel_string_dword2;
    }
    else if s.eax == 1
    then record s { ecx = bit_or (1 << 5) (1 << 26); edx = 1 << 12 }
    else record s { ebx = 0; edx = 0 }

abbrev pub inb_dx_al : Cpu → Cpu
inb_dx_al s = record s { eax = bit_and s.eax 0xFFFFFF00 }

abbrev pub inl_dx_eax : Cpu → Cpu
inl_dx_eax s = record s { eax = if u16 s.edx == pci_config_addr_port then s.pci_config_addr else 0 }

abbrev pub inw_dx_ax : Cpu → Cpu
inw_dx_ax s = record s { eax = bit_and s.eax 0xFFFF0000 }

abbrev pub outb_al_dx : Cpu → Cpu
outb_al_dx s = s

abbrev pub outl_eax_dx : Cpu → Cpu
outl_eax_dx s =
    if u16 s.edx == pci_config_addr_port then record s { pci_config_addr = s.eax } else s

abbrev pub outw_ax_dx : Cpu → Cpu
outw_ax_dx s = s

abbrev pub wrmsr : Cpu → Cpu
wrmsr s =
    let value = edx_eax s in
    if s.ecx == msr_efer
    then record s { efer = value }
    else if s.ecx == msr_apic_base
    then record s { apic_base = value }
    else if s.ecx == ia32_sysenter_cs_msr
    then record s { sysenter_cs = value }
    else if s.ecx == ia32_sysenter_eip_msr
    then record s { sysenter_eip = value }
    else if s.ecx == ia32_sysenter_esp_msr
    then record s { sysenter_esp_hi = s.edx; sysenter_esp_lo = s.eax }
    else s

abbrev pub rdmsr : Cpu → Cpu
rdmsr s =
    if s.ecx == msr_apic_base
    then record s { edx = u32 (s.apic_base >> 32); eax = bit_or (u32 s.apic_base) 0x100 }
    else if s.ecx == msr_efer
    then record s { edx = u32 (s.efer >> 32); eax = u32 s.efer }
    else if s.ecx == ia32_vmx_procbased_ctls2_msr
    then record s { edx = u32 (s.procbased_ctls2 >> 32); eax = u32 s.procbased_ctls2 }
    else if s.ecx == ia32_mtrrcap
    then record s { edx = u32 (s.mtrrcap >> 32); eax = u32 s.mtrrcap }
    else if s.ecx == ia32_sysenter_cs_msr
    then record s { edx = u32 (s.sysenter_cs >> 32); eax = u32 s.sysenter_cs }
    else if s.ecx == ia32_sysenter_eip_msr
    then record s { edx = u32 (s.sysenter_eip >> 32); eax = u32 s.sysenter_eip }
    else if s.ecx == ia32_sysenter_esp_msr
    then record s { edx = s.sysenter_esp_hi; eax = s.sysenter_esp_lo }
    else s

abbrev pub rdtsc : Cpu → Cpu
rdtsc s = record s { edx = u32 (s.tsc >> 32); eax = u32 s.tsc; tsc = u64 (s.tsc + 1) }

abbrev pub xgetbv : Cpu → Cpu
xgetbv s = if s.ecx == 1 then record s { eax = u32 s.xcr0; edx = u32 (s.xcr0 >> 32) } else s

abbrev pub xsetbv : Cpu → Cpu
xsetbv s = if s.ecx == 1 then record s { xcr0 = edx_eax s } else s
