-- ===== src/Tests/Processor.antt =====
-- The theorems on the processor model at concrete inputs: a processor that src/hwm/xmhfhwm_cpu.c has
-- just initialized, with a stack.
use uberspark.Base.{
  ◌*◌, ◌/◌, ◌%◌, ℕ, suc, ◌+◌, ◌≡◌, ◌<◌, ◌≤◌, ◌^◌, ◌⊎◌, inl, inr, refl, arith, u32, u64, ◌<<◌, some,
  none, true, [], ◌∷◌,
}
use uberspark.Hwm.Obj.{load32, store32}
use uberspark.Hwm.Cpu.{Cpu, CpuState, load}
use uberspark.Hwm.Cpu.Insn.{run, exec}
use uberspark.Hwm.Cpu.Jump.{ret}
use uberspark.Hwm.Cpu.Ranges.{InRange}
use uberspark.Hwm.Sysmem.{sysmemread}
use uberspark.Driver.VtdReg.{readu32, readu64, writeu32, writeu64}
use uberspark.Driver.Casm.{casm_call, casm_funccall}
use uberspark.Driver.Casm.Sysmem.{
  sysmemaccess_readu32, sysmemaccess_readu64, sysmemaccess_writeu32, sysmemaccess_writeu64,
}
use uberspark.Driver.Casm.Msr.{rdmsr64, wrmsr64}
use uberspark.Driver.Casm.Lock.{spin_lock, spin_unlock}
use uberspark.Driver.Casm.Vmx.{bsrl}
use uberspark.Driver.Casm.Calls.{after_call, casm_funccall-reads}
use uberspark.Driver.Casm.Writes.{casm_call-writes}
use uberspark.Driver.Casm.MsrCalls.{rdmsr64-wrmsr64}
use uberspark.Driver.Casm.LockLaws.{
  taken, lock_at, spin_lock-free, spin_lock-excludes, spin_unlock-admits,
}
use uberspark.Driver.Casm.Scan.{bsrl_lem}
use uberspark.Driver.Pci.{bus_init, type1_write, pci_type1_address}
use uberspark.Driver.Pci.Address.{pci_type1_address_lem}
use uberspark.Driver.Pci.Bus.{bus_init_lem, type1_write_lem}
use uberspark.Driver.Platform.{udelay}
use uberspark.Driver.Platform.Polling.{udelay-none}
use uberspark.Tests.{machine}

abbrev pub boot : Cpu
boot = record {
  eip = 0;
  esp = 0x8000;
  ebp = 0;
  eax = 0;
  ebx = 0;
  ecx = 0;
  edx = 7;
  esi = 5;
  edi = 0;
  eflags = 0;
  gdtr_limit = 0;
  gdtr_base = 0;
  idtr_limit = 0;
  idtr_base = 0;
  tr_selector = 0;
  cr0 = 0;
  cr2 = 0;
  cr3 = 0;
  cr4 = 0;
  cs_selector = 0;
  ds_selector = 0;
  es_selector = 0;
  fs_selector = 0;
  gs_selector = 0;
  ss_selector = 0;
  xcr0 = 0;
  state = CpuState.running;
  efer = 0;
  procbased_ctls2 = 0x0000008200000000;
  mtrrcap = 0x0000000000000d0a;
  apic_base = 0xFEE00000;
  sysenter_cs = 0;
  sysenter_eip = 0;
  sysenter_esp_hi = 0;
  sysenter_esp_lo = 0;
  tsc = 0;
  host_rip = 0;
  host_rsp = 0;
  host_cr3 = 0;
  pci_config_addr = 0;
  extents = [];
  machine = machine;
}

pub boot-InRange : InRange boot
boot-InRange = ground arith

casm_funccall-reads_example :
    (casm_funccall (0xFED90008 ∷ []) (λ t. (sysmemaccess_readu64 t).1) boot ≡ (
      let lo = sysmemread boot.machine (u32 0xFED90008) in
      let hi = sysmemread lo.1 (u32 (0xFED90008 + 4)) in
      (
        (readu64 boot.machine 0xFED90008).0,
        after_call boot (0xFED90008 ∷ []) (u32 lo.0) (u32 hi.0) (readu64 boot.machine 0xFED90008).1,
      )))
    × (casm_funccall (0xFED90008 ∷ []) (λ t. (sysmemaccess_readu32 t).1) boot ≡ (
        let r = readu32 boot.machine 0xFED90008 in
        (u64 (boot.edx << 32) + u32 r.0, after_call boot (0xFED90008 ∷ []) (u32 r.0) boot.edx r.1)))
casm_funccall-reads_example =
    casm_funccall-reads boot 0xFED90008 (omega arith) (omega arith) (omega arith)

casm_call-writes_example :
    (casm_call (0xFED90020 ∷ 0x1000 ∷ 1 ∷ []) sysmemaccess_writeu64 boot
      ≡ after_call boot
          (0xFED90020 ∷ 0x1000 ∷ 1 ∷ [])
          0x1000
          1
          (writeu64 boot.machine 0xFED90020 0x1000 1))
    × (casm_call (0xFED90020 ∷ 0x1000 ∷ []) sysmemaccess_writeu32 boot
        ≡ after_call boot
            (0xFED90020 ∷ 0x1000 ∷ [])
            0x1000
            boot.edx
            (writeu32 boot.machine 0xFED90020 0x1000))
casm_call-writes_example =
    casm_call-writes boot 0xFED90020 (omega arith) (omega arith) (omega arith) 0x1000 1
      (omega arith) (omega arith)

rdmsr64-wrmsr64_example :
    (casm_funccall
      (0x176 ∷ [])
      (λ t. (rdmsr64 t).1)
      (casm_call (0x176 ∷ 0x8000 ∷ 2 ∷ []) wrmsr64 boot)).0
    ≡ 0x8000 + (2 << 32)
rdmsr64-wrmsr64_example =
    rdmsr64-wrmsr64 boot 0x176 0x8000 2 (omega arith) (omega arith) (omega arith)
      (inr (inr (inl refl)))

-- A caller with a free lock at 0x100 as its parameter.
abbrev asking : Cpu
asking = record boot {
  machine = record machine { obj = store32 (store32 machine.obj 0x8004 0x100) 0x100 1 };
}

abbrev holder : Cpu
holder = ret (taken (record asking { ecx = lock_at asking }))

spin_lock-excludes_example : spin_lock 1000 (record asking { machine = holder.machine }) ≡ none
unfolding load32 store32 spin_unlock run exec
spin_lock-excludes_example =
    spin_lock-excludes asking holder (record asking { machine = holder.machine }) 1 1000
      (spin_lock-free asking 0 refl) refl refl

spin_unlock-admits_example :
    (t : Cpu) × (spin_lock 1 (record asking { machine = (spin_unlock asking).machine }) ≡ some t)
unfolding load32 store32 spin_unlock run exec
spin_unlock-admits_example =
    spin_unlock-admits asking (record asking { machine = (spin_unlock asking).machine }) 0 refl refl

bsrl_example :
    ((load asking (u32 (asking.esp + 4)) ≡ 0) × (bsrl asking ≡ none))
    ⊎ ((i : ℕ) × (2 ^ i ≤ load asking (u32 (asking.esp + 4)))
        × (load asking (u32 (asking.esp + 4)) < 2 ^ suc i)
        × (bsrl asking ≡ some (i, ret (record asking { eax = i }))))
bsrl_example = bsrl_lem asking

bus_init_example :
    ((bus_init boot).0 ≡ true)
    × ((bus_init boot).1.pci_config_addr ≡ 0)
    × ((bus_init boot).1.esp ≡ 0x8000)
bus_init_example = bus_init_lem boot (omega arith) (omega arith)

-- A device that does not fit its field is written to all the same.
type1_write_example :
    (type1_write 2 33 7 0x3fe 4 0xabcd boot).pci_config_addr ≡ pci_type1_address 2 33 7 0x3fe
type1_write_example = type1_write_lem boot 2 33 7 0x3fe 0xabcd (omega arith)

-- A delay on the hardware model.
udelay-none_example : udelay 10 20 boot ≡ none
udelay-none_example = udelay-none 10 20 boot

pci_type1_address_example :
    (pci_type1_address 2 31 7 0x3fe / 2 ^ 31 ≡ 1)
    × (pci_type1_address 2 31 7 0x3fe / 2 ^ 16 % 256 ≡ 2)
    × (pci_type1_address 2 31 7 0x3fe / 2 ^ 11 % 32 ≡ 31)
    × (pci_type1_address 2 31 7 0x3fe / 2 ^ 8 % 8 ≡ 7)
    × (pci_type1_address 2 31 7 0x3fe / 2 ^ 24 % 16 * 256 + pci_type1_address 2 31 7 0x3fe % 256
        ≡ 0x3fc)
pci_type1_address_example =
    pci_type1_address_lem 2 31 7 0x3fe (omega arith) (omega arith) (omega arith) (omega arith)
