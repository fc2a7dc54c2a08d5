-- ===== src/Hwm/Cpu/Ranges.antt =====
-- src/hwm/xmhfhwm_cpu.c: every register of the processor model holds a value of its C type, and every
-- instruction keeps it so.
use uberspark.Base.{
  ℕ, ◌<◌, ◌^◌, ◌+◌, ◌-◌, ◌/◌, arith, bit_or, bit_and, bit_or-lt, bit_and-le, ◌<<◌, clear, u16, u32,
  u64, List, [], ◌∷◌,
}
use native.Mathlib.Nat.{div-le_self}
use uberspark.Hwm.Cpu.{Cpu, load_u16, edx_eax, eflags_cf, eflags_zf, eflags_if, eflags_df}
use uberspark.Hwm.Cpu.Insn.{Insn, exec, run}

-- The width of each register, by its declaration.
pub record InRange (s : Cpu) : Type 0 where
  pub eip_u32 : s.eip < 2 ^ 32
  pub esp_u32 : s.esp < 2 ^ 32
  pub ebp_u32 : s.ebp < 2 ^ 32
  pub eax_u32 : s.eax < 2 ^ 32
  pub ebx_u32 : s.ebx < 2 ^ 32
  pub ecx_u32 : s.ecx < 2 ^ 32
  pub edx_u32 : s.edx < 2 ^ 32
  pub esi_u32 : s.esi < 2 ^ 32
  pub edi_u32 : s.edi < 2 ^ 32
  pub eflags_u32 : s.eflags < 2 ^ 32
  pub gdtr_base_u32 : s.gdtr_base < 2 ^ 32
  pub idtr_base_u32 : s.idtr_base < 2 ^ 32
  pub cr0_u32 : s.cr0 < 2 ^ 32
  pub cr2_u32 : s.cr2 < 2 ^ 32
  pub cr3_u32 : s.cr3 < 2 ^ 32
  pub cr4_u32 : s.cr4 < 2 ^ 32
  pub cs_selector_u32 : s.cs_selector < 2 ^ 32
  pub ds_selector_u32 : s.ds_selector < 2 ^ 32
  pub es_selector_u32 : s.es_selector < 2 ^ 32
  pub fs_selector_u32 : s.fs_selector < 2 ^ 32
  pub gs_selector_u32 : s.gs_selector < 2 ^ 32
  pub ss_selector_u32 : s.ss_selector < 2 ^ 32
  pub sysenter_esp_hi_u32 : s.sysenter_esp_hi < 2 ^ 32
  pub sysenter_esp_lo_u32 : s.sysenter_esp_lo < 2 ^ 32
  pub host_rip_u32 : s.host_rip < 2 ^ 32
  pub host_rsp_u32 : s.host_rsp < 2 ^ 32
  pub host_cr3_u32 : s.host_cr3 < 2 ^ 32
  pub pci_config_addr_u32 : s.pci_config_addr < 2 ^ 32
  pub gdtr_limit_u16 : s.gdtr_limit < 2 ^ 16
  pub idtr_limit_u16 : s.idtr_limit < 2 ^ 16
  pub tr_selector_u16 : s.tr_selector < 2 ^ 16
  pub xcr0_u64 : s.xcr0 < 2 ^ 64
  pub efer_u64 : s.efer < 2 ^ 64
  pub procbased_ctls2_u64 : s.procbased_ctls2 < 2 ^ 64
  pub mtrrcap_u64 : s.mtrrcap < 2 ^ 64
  pub apic_base_u64 : s.apic_base < 2 ^ 64
  pub sysenter_cs_u64 : s.sysenter_cs < 2 ^ 64
  pub sysenter_eip_u64 : s.sysenter_eip < 2 ^ 64
  pub tsc_u64 : s.tsc < 2 ^ 64

or_u32 : (x y : ℕ) → x < 2 ^ 32 → y < 2 ^ 32 → bit_or x y < 2 ^ 32
or_u32 x y h g = bit_or-lt 32 x y h g

or_u64 : (x y : ℕ) → x < 2 ^ 64 → y < 2 ^ 64 → bit_or x y < 2 ^ 64
or_u64 x y h g = bit_or-lt 64 x y h g

and_u32 : (x y : ℕ) → x < 2 ^ 32 → bit_and x y < 2 ^ 32
and_u32 x y h = omega (arith, bit_and-le x y)

shr_u32 : (x k : ℕ) → x < 2 ^ 32 → x / 2 ^ k < 2 ^ 32
shr_u32 x k h = omega (arith, div-le_self x (2 ^ k))

-- A new low half of eax.
low_u32 : (x v : ℕ) → x < 2 ^ 32 → bit_or (bit_and x 0xFFFF0000) (u16 v) < 2 ^ 32
low_u32 x v h = or_u32 _ _ (and_u32 x _ h) (omega arith)

-- The flags that an instruction sets or clears.
module _ (s : Cpu) (h : InRange s) where
  pair_u64 : edx_eax s < 2 ^ 64
  pair_u64 = ground (arith, or_u64 (u64 (s.edx << 32)) s.eax)

  set_u32 : (mask : ℕ) → mask < 2 ^ 32 → bit_or s.eflags mask < 2 ^ 32
  set_u32 mask g = ground (arith, or_u32 s.eflags mask)

  clear_u32 : (mask : ℕ) → clear s.eflags mask < 2 ^ 32
  clear_u32 mask = ground (arith, and_u32 s.eflags (2 ^ 32 - 1 - mask))

  clear_both : clear (clear s.eflags eflags_cf) eflags_zf < 2 ^ 32
  clear_both = and_u32 _ _ (clear_u32 eflags_cf)

-- One instruction on registers within their widths leaves every register within its width.
pub exec-InRange : (i : Insn) (s : Cpu) → InRange s → InRange (exec i s)
unfolding exec
exec-InRange (Insn.movw_mesp_ax k) s h =
    ground (arith, low_u32 s.eax (load_u16 s (u32 (s.esp + k))) h.eax_u32)
exec-InRange (Insn.movw_imm_ax v) s h = ground (arith, low_u32 s.eax v h.eax_u32)
exec-InRange Insn.movw_ds_ax s h = ground (arith, low_u32 s.eax s.ds_selector h.eax_u32)
exec-InRange Insn.str_ax s h = ground (arith, low_u32 s.eax s.tr_selector h.eax_u32)
exec-InRange (Insn.cmpl_imm_meax v k) s h = ground (arith, set_u32 s h eflags_zf)
exec-InRange Insn.sti s h = ground (arith, set_u32 s h eflags_if)
exec-InRange Insn.cli s h = ground (arith, clear_u32 s h eflags_if)
exec-InRange Insn.cld s h = ground (arith, clear_u32 s h eflags_df)
exec-InRange (Insn.btl_imm_mecx v k) s h =
    ground (arith, set_u32 s h eflags_cf, clear_u32 s h eflags_cf)
exec-InRange (Insn.btrl_imm_mecx v k) s h =
    ground (arith, set_u32 s h eflags_cf, clear_u32 s h eflags_cf)
exec-InRange (Insn.btsl_imm_mecx v k) s h =
    ground (arith, set_u32 s h eflags_cf, clear_u32 s h eflags_cf)
exec-InRange (Insn.invvpid_mesp_ecx k) s h = ground (arith, clear_both s h)
exec-InRange (Insn.vmxon_mesp k) s h = ground (arith, clear_both s h)
exec-InRange (Insn.andl_imm_eax v) s h = ground (arith, bit_and-le s.eax v)
exec-InRange (Insn.andl_imm_ecx v) s h = ground (arith, bit_and-le s.ecx v)
exec-InRange (Insn.andl_imm_edx v) s h = ground (arith, bit_and-le s.edx v)
exec-InRange (Insn.orl_imm_eax v) s h = ground (arith, or_u32 s.eax (u32 v))
exec-InRange Insn.orl_ecx_eax s h = ground (arith, or_u32 s.eax s.ecx)
exec-InRange Insn.orl_edx_eax s h = ground (arith, or_u32 s.eax s.edx)
exec-InRange Insn.inb_dx_al s h = ground (arith, bit_and-le s.eax 0xFFFFFF00)
exec-InRange Insn.inw_dx_ax s h = ground (arith, bit_and-le s.eax 0xFFFF0000)
exec-InRange Insn.movw_ax_ds s h = ground (arith, bit_and-le s.eax 0x0000FFFF)
exec-InRange Insn.movw_ax_es s h = ground (arith, bit_and-le s.eax 0x0000FFFF)
exec-InRange Insn.movw_ax_fs s h = ground (arith, bit_and-le s.eax 0x0000FFFF)
exec-InRange Insn.movw_ax_gs s h = ground (arith, bit_and-le s.eax 0x0000FFFF)
exec-InRange Insn.movw_ax_ss s h = ground (arith, bit_and-le s.eax 0x0000FFFF)
exec-InRange Insn.ltr_ax s h = ground arith
exec-InRange Insn.wrmsr s h = ground (arith, pair_u64 s h)
exec-InRange Insn.xsetbv s h = ground (arith, pair_u64 s h)
exec-InRange Insn.rdmsr s h = ground (arith, or_u32 (u32 s.apic_base) 0x100)
exec-InRange (Insn.shr_imm_eax v) s h = ground (arith, shr_u32 s.eax v)
exec-InRange _ s h = ground arith

-- If every register is within the width of its C type before straight-line code, then after it
-- too, whatever the instructions, their immediate values and the answers of the devices.
pub run-InRange : (is : List Insn) (s : Cpu) → InRange s → InRange (run is s)
unfolding run
run-InRange [] s h = h
run-InRange (i ∷ is) s h = run-InRange is (exec i s) (exec-InRange i s h)
