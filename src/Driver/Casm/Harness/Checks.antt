-- ===== src/Driver/Casm/Harness/Checks.antt =====
-- src/libs/libxmhfhw/verify/xmhfhw_casmfuncs_driver.c: `main` comes to its end with every assertion true.
use uberspark.Base.{
  ◌⨾◌, ℕ, suc, subst, [], ◌∷◌, ◌+◌, ◌^◌, ◌≤◌, ◌<◌, ◌≡◌, ◌≢◌, ◌⊎◌, inl, inr, refl, ap, sym, ◌∙◌,
  arith, u32, All, Bool, true, ◌&&◌, ◌==◌, some, ◌%◌, has,
}
use mathlib.Core.List.{append-nil}
use uberspark.Hwm.Obj.{load32}
use uberspark.Driver.Casm.LockLaws.{odd-has}
use uberspark.Hwm.Cpu.{Cpu, load}
use uberspark.Hwm.Cpu.Ranges.{InRange}
use uberspark.Driver.Casm.{casm_ret_eip}
use uberspark.Driver.Casm.Abi.Slots.{IsAway}
use uberspark.Driver.Casm.Harness.{Harness, drive_all}
use uberspark.Driver.Casm.Harness.Drivers
use uberspark.Driver.Casm.Harness.Laws.{
  Conforms, SafeAll, frame, conforming-SafeAll, cons-SafeAll, nothing-SafeAll,
}
use uberspark.Driver.Casm.Harness.RegisterDrivers
use uberspark.Driver.Casm.Harness.MemoryDrivers
use uberspark.Driver.Casm.Harness.PortDrivers
use uberspark.Driver.Casm.Harness.Branches
use uberspark.Driver.Casm.Harness.Locking.{drv_spinlock-Safe}
use uberspark.Driver.Casm.Harness.Main.{Objects, before_lock, after_lock, calls, populated, main}

-- A word of an object that meets neither the stack of the harness nor the watched byte.
abbrev pub IsPlaced : ℕ → Objects → ℕ → Type 0
IsPlaced watched o w = IsAway (frame watched 0 o.uobj_stack (o.uobj_stack + 4096)) w

-- What C guarantees of the objects and framac_nondetu32(), and what the harness asks of it: the stack is
-- within the address space, `bsrl` is not called with 0.
pub record Placed (nondet : ℕ → ℕ) (o : Objects) : Type 0 where
  pub stack_fits : o.uobj_stack + 4096 < 2 ^ 32
  pub nondet_u32 : (k : ℕ) → nondet k < 2 ^ 32
  pub bsrl_some : nondet 0 ≢ 0
  pub eax_away : IsPlaced o.smplock o o.eax
  pub ebx_away : IsPlaced o.smplock o o.ebx
  pub ecx_away : IsPlaced o.smplock o o.ecx
  pub edx_away : IsPlaced o.smplock o o.edx
  pub smplock_away : IsPlaced (2 ^ 32) o o.smplock
  pub gdtdesc_u32 : o.gdtdesc < 2 ^ 32
  pub idtdesc_u32 : o.idtdesc < 2 ^ 32
  pub buf_vmcs_u32 : o.buf_vmcs < 2 ^ 32
  pub buf_vmxon_u32 : o.buf_vmxon < 2 ^ 32

byte-free : (s : Cpu) (w : ℕ) → w < 2 ^ 32 → s.machine.obj w % 2 ≡ 1 → has (load s w) 1 ≡ true
unfolding load32
byte-free s w small odd =
    let here : u32 w ≡ w = omega (arith, small) in
    let same : s.machine.obj (u32 w) ≡ s.machine.obj w = ap s.machine.obj here in
    odd-has (load s w) (omega (arith, same, odd))

module _ (nondet : ℕ → ℕ) (o : Objects) (p : Placed nondet o) where
  abbrev lo : ℕ
  lo = o.uobj_stack

  abbrev top : ℕ
  top = o.uobj_stack + 4096

  space : lo + 64 ≤ top
  space = omega arith

  lock_out : (o.smplock < lo) ⊎ (top ≤ o.smplock)
  lock_out = elim (p.smplock_away.0) [ inl h ↦ inl (omega (arith, h)) | inr h ↦ inr h ]

  before_lock-Conforms : All (Conforms o.smplock top) (before_lock nondet o)
  before_lock-Conforms =
      let watched = o.smplock in
      let out = lock_out in
      (Branches.drv_bsrl-Conforms watched lo top out space (nondet 0) p.bsrl_some (p.nondet_u32 0))
      ⨾ (MemoryDrivers.drv_cpuid-Conforms watched lo top out space (nondet 1) o.eax o.ebx o.ecx
          o.edx (p.nondet_u32 1) (p.eax_away) (p.ebx_away) (p.ecx_away) (p.edx_away))
      ⨾ (PortDrivers.drv_disableintr-Conforms watched lo top out space)
      ⨾ (PortDrivers.drv_enableintr-Conforms watched lo top out space)
      ⨾ (MemoryDrivers.drv_getgdtbase-Conforms watched lo top out space)
      ⨾ (MemoryDrivers.drv_getidtbase-Conforms watched lo top out space)
      ⨾ (PortDrivers.drv_inb-Conforms watched lo top out space (nondet 2) (p.nondet_u32 2))
      ⨾ (PortDrivers.drv_inl-Conforms watched lo top out space (nondet 3) (p.nondet_u32 3))
      ⨾ (Branches.drv_invept-Conforms watched lo top out space (nondet 4) (nondet 5) (nondet 6)
          (nondet 7) (p.nondet_u32 4) (p.nondet_u32 5) (p.nondet_u32 6) (p.nondet_u32 7))
      ⨾ (PortDrivers.drv_inw-Conforms watched lo top out space (nondet 8) (p.nondet_u32 8))
      ⨾ (MemoryDrivers.drv_loadgdt-Conforms watched lo top out space o.gdtdesc p.gdtdesc_u32)
      ⨾ (MemoryDrivers.drv_loadidt-Conforms watched lo top out space o.idtdesc p.idtdesc_u32)
      ⨾ (MemoryDrivers.drv_loadtr-Conforms watched lo top out space)
      ⨾ (PortDrivers.drv_outb-Conforms watched lo top out space (nondet 9) (nondet 10)
          (p.nondet_u32 9) (p.nondet_u32 10))
      ⨾ (PortDrivers.drv_outl-Conforms watched lo top out space (nondet 11) (nondet 12)
          (p.nondet_u32 11) (p.nondet_u32 12))
      ⨾ (PortDrivers.drv_outw-Conforms watched lo top out space (nondet 13) (nondet 14)
          (p.nondet_u32 13) (p.nondet_u32 14))
      ⨾ (PortDrivers.drv_pause-Conforms watched lo top out space)
      ⨾ (PortDrivers.drv_rdmsr-Conforms watched lo top out space (nondet 15) (p.nondet_u32 15))
      ⨾ (PortDrivers.drv_rdtsc-Conforms watched lo top out space)
      ⨾ (RegisterDrivers.drv_readcr0-Conforms watched lo top out space)
      ⨾ (RegisterDrivers.drv_readcr2-Conforms watched lo top out space)
      ⨾ (RegisterDrivers.drv_readcr3-Conforms watched lo top out space)
      ⨾ (RegisterDrivers.drv_readcr4-Conforms watched lo top out space)
      ⨾ (RegisterDrivers.drv_readcs-Conforms watched lo top out space)
      ⨾ (RegisterDrivers.drv_readds-Conforms watched lo top out space)
      ⨾ (RegisterDrivers.drv_reades-Conforms watched lo top out space)
      ⨾ (RegisterDrivers.drv_readfs-Conforms watched lo top out space)
      ⨾ (RegisterDrivers.drv_readgs-Conforms watched lo top out space)
      ⨾ (RegisterDrivers.drv_readss-Conforms watched lo top out space)
      ⨾ (RegisterDrivers.drv_readeflags-Conforms watched lo top out space)
      ⨾ (RegisterDrivers.drv_readesp-Conforms watched lo top out space)
      ⨾ (RegisterDrivers.drv_readrsp-Conforms watched lo top out space)
      ⨾ (RegisterDrivers.drv_readtr-Conforms watched lo top out space)
      ⨾ tt

  after_lock-Conforms : All (Conforms (2 ^ 32) top) (after_lock nondet o)
  after_lock-Conforms =
      let watched : ℕ = 2 ^ 32 in
      let out : (watched < lo) ⊎ (top ≤ watched) = inr (omega (arith, p.stack_fits)) in
      (Branches.drv_spinunlock-Conforms watched lo top out space o.smplock (p.smplock_away))
      ⨾ (Branches.drv_vmclear-Conforms watched lo top out space o.buf_vmcs p.buf_vmcs_u32)
      ⨾ (Branches.drv_vmptrld-Conforms watched lo top out space o.buf_vmcs p.buf_vmcs_u32)
      ⨾ (PortDrivers.drv_vmread-Conforms watched lo top out space (nondet 16) (p.nondet_u32 16))
      ⨾ (PortDrivers.drv_vmwrite-Conforms watched lo top out space (nondet 17) (nondet 18)
          (p.nondet_u32 17) (p.nondet_u32 18))
      ⨾ (Branches.drv_vmxon-Conforms watched lo top out space o.buf_vmxon p.buf_vmxon_u32)
      ⨾ (PortDrivers.drv_wbinvd-Conforms watched lo top out space)
      ⨾ (RegisterDrivers.drv_writecr0-Conforms watched lo top out space (nondet 19)
          (p.nondet_u32 19))
      ⨾ (RegisterDrivers.drv_writecr3-Conforms watched lo top out space (nondet 20)
          (p.nondet_u32 20))
      ⨾ (RegisterDrivers.drv_writecr4-Conforms watched lo top out space (nondet 21)
          (p.nondet_u32 21))
      ⨾ (RegisterDrivers.drv_writeeflags-Conforms watched lo top out space (nondet 22)
          (p.nondet_u32 22))
      ⨾ (PortDrivers.drv_wrmsr-Conforms watched lo top out space (nondet 23) (nondet 24) (nondet 25)
          (p.nondet_u32 23) (p.nondet_u32 24) (p.nondet_u32 25))
      ⨾ (PortDrivers.drv_xgetbv-Conforms watched lo top out space)
      ⨾ (PortDrivers.drv_xsetbv-Conforms watched lo top out space (nondet 26) (nondet 27)
          (p.nondet_u32 26) (p.nondet_u32 27))
      ⨾ tt

  -- The lock and what follows it.
  from_lock :
      (fuel : ℕ) (t : Harness)
      → InRange t.cpu
      → t.cpu.esp ≡ top
      → t.cpu.machine.obj o.smplock % 2 ≡ 1
      → SafeAll (Drivers.drv_spinlock (suc fuel) o.smplock ∷ after_lock nondet o) t
  from_lock fuel t r at_top odd =
      let watched : ℕ = 2 ^ 32 in
      let first =
        drv_spinlock-Safe watched lo fuel o.smplock t r (inr (omega (arith, at_top, p.stack_fits)))
          (omega (arith, at_top))
          (subst (λ e. IsAway (record (frame watched 0 lo top) { top = e }) o.smplock) (sym at_top)
            p.smplock_away)
          (byte-free t.cpu o.smplock (omega (arith, p.smplock_away.1.0)) odd) in
      cons-SafeAll watched (Drivers.drv_spinlock (suc fuel) o.smplock) (after_lock nondet o) t first
        (subst (λ es. SafeAll es first.after) (append-nil (after_lock nondet o))
          (conforming-SafeAll watched top (after_lock nondet o) [] first.after after_lock-Conforms
            first.after_in_range (first.esp_restored ∙ at_top) first.eip_restored
            (λ u q e b k. nothing-SafeAll u q b)))

populated-InRange : (o : Objects) (h : Harness) → InRange h.cpu → InRange (populated o h).cpu
unfolding populated
populated-InRange o h r = ground arith

last_checks :
    (e e' p : ℕ) → e ≡ e' → p ≡ casm_ret_eip → (true && (e == e') && (p == casm_ret_eip)) ≡ true
last_checks e e' p h g = ground arith

main-driven :
    (fuel : ℕ) (nondet : ℕ → ℕ) (o : Objects) (h u : Harness)
    → drive_all (calls nondet o fuel) (populated o h) ≡ some (true, u)
    → u.cpu.esp ≡ (populated o h).cpu.esp
    → u.cpu.eip ≡ casm_ret_eip
    → main fuel nondet o h ≡ some (true, u)
unfolding main
main-driven fuel nondet o h u e at_top back = rw (e) (
    ap (λ (b : Bool). some (b, u))
      (last_checks u.cpu.esp (populated o h).cpu.esp u.cpu.eip at_top back))

-- `main` of the harness comes to its end and every assertion in it is true, those of each driver
-- and the last two: for all results of framac_nondetu32() that are 32-bit numbers, except 0 for
-- `bsrl`, for objects that are apart in memory, if the registers hold values of their C types and
-- the lock word is odd at the start, and with fuel for one round of the lock.
pub main-Checks :
    (fuel : ℕ) (nondet : ℕ → ℕ) (o : Objects) (h : Harness)
    → Placed nondet o
    → InRange h.cpu
    → h.cpu.machine.obj o.smplock % 2 ≡ 1
    → (t : Harness) × (main (suc fuel) nondet o h ≡ some (true, t))
unfolding populated
main-Checks fuel nondet o h p r odd =
    let start = populated o h in
    let at_top : start.cpu.esp ≡ o.uobj_stack + 4096 = omega (arith, p.stack_fits) in
    let all =
      conforming-SafeAll o.smplock (o.uobj_stack + 4096) (before_lock nondet o)
        (Drivers.drv_spinlock (suc fuel) o.smplock ∷ after_lock nondet o) start
        (before_lock-Conforms nondet o p) (populated-InRange o h r) at_top refl
        (λ t q e b k. from_lock nondet o p fuel t q e (ap (λ (x : ℕ). x % 2) k ∙ odd)) in
    (all.last, main-driven (suc fuel) nondet o h all.last all.all_driven all.last_esp all.last_eip)
