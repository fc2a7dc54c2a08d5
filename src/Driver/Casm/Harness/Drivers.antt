-- ===== src/Driver/Casm/Harness/Drivers.antt =====
-- src/libs/libxmhfhw/verify/xmhfhw_casmfuncs_driver.c: the drivers, each with its parameters.
use uberspark.Base.{ℕ, u8, u16, [], ◌∷◌}
use mathlib.Core.Option
use uberspark.Driver.Casm.Harness.{Driver, calling, valued, casm_noparam}
use uberspark.Driver.Casm.Control.{
  cpu_disable_intr, enable_intr, cpu_relax, vmread, vmwrite, wbinvd,
}
use uberspark.Driver.Casm.Lock.{spin_lock, spin_unlock}
use uberspark.Driver.Casm.Msr.{
  cpu_cpuid, cpu_getsec, inb, inl, inw, outb, outl, outw, rdmsr64, rdtsc64, wrmsr64, xgetbv, xsetbv,
}
use uberspark.Driver.Casm.Regs.{
  read_cr0, read_cr2, read_cr3, read_cr4, read_segreg_cs, read_segreg_ds, read_segreg_es,
  read_segreg_fs, read_segreg_gs, read_segreg_ss, read_eflags, read_esp, read_rsp, read_tr_sel,
  write_cr0, write_cr3, write_cr4, write_eflags,
}
use uberspark.Driver.Casm.Sysmem.{
  sysmemaccess_copy, sysmemaccess_readu8, sysmemaccess_readu16, sysmemaccess_readu32,
  sysmemaccess_readu64, sysmemaccess_writeu8, sysmemaccess_writeu16, sysmemaccess_writeu32,
  sysmemaccess_writeu64,
}
use uberspark.Driver.Casm.Tables.{
  getgdtbase, getidtbase, gettssbase, cpu_load_gdt, cpu_load_idt, cpu_load_tr,
}
use uberspark.Driver.Casm.Vmx.{bsrl, vmx_invept, vmx_vmclear, vmx_vmptrld, vmx_vmxon}

abbrev pub drv_bsrl : ℕ → Driver
drv_bsrl param1 = record { params = param1 ∷ []; body = λ s. Option.map (λ r. r.1) (bsrl s) }

abbrev pub drv_cpuid : ℕ → ℕ → ℕ → ℕ → ℕ → Driver
drv_cpuid op eax ebx ecx edx = calling (op ∷ eax ∷ ebx ∷ ecx ∷ edx ∷ []) cpu_cpuid

abbrev pub drv_disableintr : Driver
drv_disableintr = calling (casm_noparam ∷ []) cpu_disable_intr

abbrev pub drv_enableintr : Driver
drv_enableintr = calling (casm_noparam ∷ []) enable_intr

abbrev pub drv_getgdtbase : Driver
drv_getgdtbase = valued (casm_noparam ∷ []) getgdtbase

abbrev pub drv_getidtbase : Driver
drv_getidtbase = valued (casm_noparam ∷ []) getidtbase

abbrev pub drv_getsec : ℕ → ℕ → ℕ → ℕ → Driver
drv_getsec eax ebx ecx edx = calling (eax ∷ ebx ∷ ecx ∷ edx ∷ []) cpu_getsec

abbrev pub drv_gettssbase : Driver
drv_gettssbase = valued (casm_noparam ∷ []) gettssbase

abbrev pub drv_inb : ℕ → Driver
drv_inb port = valued (port ∷ []) inb

abbrev pub drv_inl : ℕ → Driver
drv_inl port = valued (port ∷ []) inl

abbrev pub drv_invept : ℕ → ℕ → ℕ → ℕ → Driver
drv_invept n1 n2 n3 n4 = valued (n1 ∷ n2 ∷ n3 ∷ n4 ∷ []) vmx_invept

abbrev pub drv_inw : ℕ → Driver
drv_inw port = valued (port ∷ []) inw

abbrev pub drv_loadgdt : ℕ → Driver
drv_loadgdt gdtdesc = calling (gdtdesc ∷ []) cpu_load_gdt

abbrev pub drv_loadidt : ℕ → Driver
drv_loadidt idtdesc = calling (idtdesc ∷ []) cpu_load_idt

abbrev pub drv_loadtr : Driver
drv_loadtr = calling (0 ∷ []) cpu_load_tr

abbrev pub drv_outb : ℕ → ℕ → Driver
drv_outb value port = calling (value ∷ port ∷ []) outb

abbrev pub drv_outl : ℕ → ℕ → Driver
drv_outl value port = calling (value ∷ port ∷ []) outl

abbrev pub drv_outw : ℕ → ℕ → Driver
drv_outw value port = calling (value ∷ port ∷ []) outw

abbrev pub drv_pause : Driver
drv_pause = calling (casm_noparam ∷ []) cpu_relax

abbrev pub drv_rdmsr : ℕ → Driver
drv_rdmsr msr = valued (msr ∷ []) rdmsr64

abbrev pub drv_rdtsc : Driver
drv_rdtsc = valued (casm_noparam ∷ []) rdtsc64

abbrev pub drv_readcr0 : Driver
drv_readcr0 = valued (casm_noparam ∷ []) read_cr0

abbrev pub drv_readcr2 : Driver
drv_readcr2 = valued (casm_noparam ∷ []) read_cr2

abbrev pub drv_readcr3 : Driver
drv_readcr3 = valued (casm_noparam ∷ []) read_cr3

abbrev pub drv_readcr4 : Driver
drv_readcr4 = valued (casm_noparam ∷ []) read_cr4

abbrev pub drv_readcs : Driver
drv_readcs = valued (casm_noparam ∷ []) read_segreg_cs

abbrev pub drv_readds : Driver
drv_readds = valued (casm_noparam ∷ []) read_segreg_ds

abbrev pub drv_reades : Driver
drv_reades = valued (casm_noparam ∷ []) read_segreg_es

abbrev pub drv_readfs : Driver
drv_readfs = valued (casm_noparam ∷ []) read_segreg_fs

abbrev pub drv_readgs : Driver
drv_readgs = valued (casm_noparam ∷ []) read_segreg_gs

abbrev pub drv_readss : Driver
drv_readss = valued (casm_noparam ∷ []) read_segreg_ss

abbrev pub drv_readeflags : Driver
drv_readeflags = valued (casm_noparam ∷ []) read_eflags

abbrev pub drv_readesp : Driver
drv_readesp = valued (casm_noparam ∷ []) read_esp

abbrev pub drv_readrsp : Driver
drv_readrsp = valued (casm_noparam ∷ []) read_rsp

abbrev pub drv_readtr : Driver
drv_readtr = valued (casm_noparam ∷ []) read_tr_sel

abbrev pub drv_spinlock : ℕ → ℕ → Driver
drv_spinlock fuel smplock = record { params = smplock ∷ []; body = spin_lock fuel }

abbrev pub drv_spinunlock : ℕ → Driver
drv_spinunlock smplock = calling (smplock ∷ []) spin_unlock

abbrev pub drv_vmclear : ℕ → Driver
drv_vmclear buf_vmcs = valued (buf_vmcs ∷ []) vmx_vmclear

abbrev pub drv_vmptrld : ℕ → Driver
drv_vmptrld buf_vmcs = valued (buf_vmcs ∷ []) vmx_vmptrld

abbrev pub drv_vmread : ℕ → Driver
drv_vmread encoding = valued (encoding ∷ []) vmread

abbrev pub drv_vmwrite : ℕ → ℕ → Driver
drv_vmwrite encoding value = calling (encoding ∷ value ∷ []) vmwrite

abbrev pub drv_vmxon : ℕ → Driver
drv_vmxon buf_vmxon = valued (buf_vmxon ∷ []) vmx_vmxon

abbrev pub drv_wbinvd : Driver
drv_wbinvd = calling (casm_noparam ∷ []) wbinvd

abbrev pub drv_writecr0 : ℕ → Driver
drv_writecr0 value = calling (value ∷ []) write_cr0

abbrev pub drv_writecr3 : ℕ → Driver
drv_writecr3 value = calling (value ∷ []) write_cr3

abbrev pub drv_writecr4 : ℕ → Driver
drv_writecr4 value = calling (value ∷ []) write_cr4

abbrev pub drv_writeeflags : ℕ → Driver
drv_writeeflags value = calling (value ∷ []) write_eflags

abbrev pub drv_wrmsr : ℕ → ℕ → ℕ → Driver
drv_wrmsr n1 n2 n3 = calling (n1 ∷ n2 ∷ n3 ∷ []) wrmsr64

abbrev pub drv_xgetbv : Driver
drv_xgetbv = valued (1 ∷ []) xgetbv

abbrev pub drv_xsetbv : ℕ → ℕ → Driver
drv_xsetbv n2 n3 = calling (1 ∷ n2 ∷ n3 ∷ []) xsetbv

abbrev pub drv_sysmemaccess_bcopy : ℕ → ℕ → Driver
drv_sysmemaccess_bcopy sysmem_dst sysmem_src =
    calling (sysmem_dst ∷ sysmem_src ∷ 128 ∷ []) sysmemaccess_copy

abbrev pub drv_sysmemaccess_readu8 : ℕ → Driver
drv_sysmemaccess_readu8 sysmem_dst = valued (sysmem_dst ∷ []) sysmemaccess_readu8

abbrev pub drv_sysmemaccess_readu16 : ℕ → Driver
drv_sysmemaccess_readu16 sysmem_dst = valued (sysmem_dst ∷ []) sysmemaccess_readu16

abbrev pub drv_sysmemaccess_readu32 : ℕ → Driver
drv_sysmemaccess_readu32 sysmem_dst = valued (sysmem_dst ∷ []) sysmemaccess_readu32

abbrev pub drv_sysmemaccess_readu64 : ℕ → Driver
drv_sysmemaccess_readu64 sysmem_dst = valued (sysmem_dst ∷ []) sysmemaccess_readu64

abbrev pub drv_sysmemaccess_writeu8 : ℕ → ℕ → Driver
drv_sysmemaccess_writeu8 sysmem_dst n = calling (sysmem_dst ∷ (u8 n) ∷ []) sysmemaccess_writeu8

abbrev pub drv_sysmemaccess_writeu16 : ℕ → ℕ → Driver
drv_sysmemaccess_writeu16 sysmem_dst n = calling (sysmem_dst ∷ (u16 n) ∷ []) sysmemaccess_writeu16

abbrev pub drv_sysmemaccess_writeu32 : ℕ → ℕ → Driver
drv_sysmemaccess_writeu32 sysmem_dst n = calling (sysmem_dst ∷ n ∷ []) sysmemaccess_writeu32

abbrev pub drv_sysmemaccess_writeu64 : ℕ → ℕ → ℕ → Driver
drv_sysmemaccess_writeu64 sysmem_dst val_lo val_hi =
    calling (sysmem_dst ∷ val_lo ∷ val_hi ∷ []) sysmemaccess_writeu64
