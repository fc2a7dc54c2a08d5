-- ===== src/Hwm/Cpu.antt =====
-- src/hwm/xmhfhwm_cpu.c and src/hwm/include/xmhfhwm_cpu.h: the registers of the processor model, and
-- the accesses that its instructions share. The children hold one function per instruction.
pub mod Moves
pub mod Stack
pub mod Alu
pub mod Msr
pub mod System
pub mod Sysmem
pub mod Insn
pub mod Jump
pub mod Ranges
use uberspark.Base.{ℕ, ◌+◌, u16, u32, u64, sub32, ◌<<◌, List, []}
use uberspark.Base.{◌++◌, ◌∷◌, bit_or}
use uberspark.Hwm.Obj.{load32, load16, store32, store16}
use uberspark.Hwm.Call.{Call}
use uberspark.Hwm.Sysmem.{Machine}

pub data CpuState : Type 0 where
  halt running : CpuState

-- physmem_extent_t: what the extent test reads of it.
pub record PhysmemExtent : Type 0 where
  pub addr_start : ℕ
  pub addr_end : ℕ

-- The global variables of the file, with the devices and the memory of the object. Of the table of
-- extents, the entries up to its total.
pub record Cpu : Type 0 where
  pub eip : ℕ
  pub esp : ℕ
  pub ebp : ℕ
  pub eax : ℕ
  pub ebx : ℕ
  pub ecx : ℕ
  pub edx : ℕ
  pub esi : ℕ
  pub edi : ℕ
  pub eflags : ℕ
  pub gdtr_limit : ℕ
  pub gdtr_base : ℕ
  pub idtr_limit : ℕ
  pub idtr_base : ℕ
  pub tr_selector : ℕ
  pub cr0 : ℕ
  pub cr2 : ℕ
  pub cr3 : ℕ
  pub cr4 : ℕ
  pub cs_selector : ℕ
  pub ds_selector : ℕ
  pub es_selector : ℕ
  pub fs_selector : ℕ
  pub gs_selector : ℕ
  pub ss_selector : ℕ
  pub xcr0 : ℕ
  pub state : CpuState
  pub efer : ℕ
  pub procbased_ctls2 : ℕ
  pub mtrrcap : ℕ
  pub apic_base : ℕ
  pub sysenter_cs : ℕ
  pub sysenter_eip : ℕ
  pub sysenter_esp_hi : ℕ
  pub sysenter_esp_lo : ℕ
  pub tsc : ℕ
  pub host_rip : ℕ
  pub host_rsp : ℕ
  pub host_cr3 : ℕ
  pub pci_config_addr : ℕ
  pub extents : List PhysmemExtent
  pub machine : Machine

abbrev pub eflags_cf : ℕ
eflags_cf = 0x00000001

abbrev pub eflags_zf : ℕ
eflags_zf = 0x00000040

abbrev pub eflags_if : ℕ
eflags_if = 0x00000200

abbrev pub eflags_df : ℕ
eflags_df = 0x00000400

abbrev pub pci_config_addr_port : ℕ
pci_config_addr_port = 0x0cf8

abbrev pub intel_string_dword1 : ℕ
intel_string_dword1 = 0x756E6547

abbrev pub intel_string_dword2 : ℕ
intel_string_dword2 = 0x49656E69

abbrev pub intel_string_dword3 : ℕ
intel_string_dword3 = 0x6C65746E

abbrev pub msr_efer : ℕ
msr_efer = 0xc0000080

abbrev pub msr_apic_base : ℕ
msr_apic_base = 0x0000001B

abbrev pub ia32_sysenter_cs_msr : ℕ
ia32_sysenter_cs_msr = 0x174

abbrev pub ia32_sysenter_eip_msr : ℕ
ia32_sysenter_eip_msr = 0x176

abbrev pub ia32_sysenter_esp_msr : ℕ
ia32_sysenter_esp_msr = 0x175

abbrev pub ia32_vmx_procbased_ctls2_msr : ℕ
ia32_vmx_procbased_ctls2_msr = 0x48B

abbrev pub ia32_mtrrcap : ℕ
ia32_mtrrcap = 0xfe

abbrev pub vmcs_host_rip : ℕ
vmcs_host_rip = 0x6C16

abbrev pub vmcs_host_rsp : ℕ
vmcs_host_rsp = 0x6C14

abbrev pub vmcs_host_cr3 : ℕ
vmcs_host_cr3 = 0x6C02

-- `*((uint32_t *)p)` and `*((uint16_t *)p)`.
abbrev pub load : Cpu → ℕ → ℕ
load s p = u32 (load32 s.machine.obj p)

abbrev pub load_u16 : Cpu → ℕ → ℕ
load_u16 s p = u16 (load16 s.machine.obj p)

abbrev pub store : Cpu → ℕ → ℕ → Cpu
store s p v = record s { machine = record s.machine { obj = store32 s.machine.obj p v } }

abbrev pub store16_at : Cpu → ℕ → ℕ → Cpu
store16_at s p v = record s { machine = record s.machine { obj = store16 s.machine.obj p v } }

-- The two statements of each push.
abbrev pub push : Cpu → ℕ → Cpu
push s value = store (record s { esp = sub32 s.esp 4 }) (sub32 s.esp 4) value

abbrev pub report : Cpu → Call → Cpu
report s c = record s { machine = record s.machine { calls = s.machine.calls ++ (c ∷ []) } }

-- The stack pointer set under the eyes of the verification driver.
abbrev pub set_esp : Cpu → ℕ → Cpu
set_esp s v = record (report s (Call.writeesp s.esp v)) { esp = v }

-- `(uint64_t)edx << 32 | (uint64_t)eax`.
abbrev pub edx_eax : Cpu → ℕ
edx_eax s = bit_or (u64 (s.edx << 32)) s.eax
