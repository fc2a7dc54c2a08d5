-- ===== src/Driver/Casm/Harness/Main.antt =====
-- src/libs/libxmhfhw/verify/xmhfhw_casmfuncs_driver.c: `main`, the calls that it makes; those that are
-- commented out in it are no part of it.
use uberspark.Base.{ℕ, ◌+◌, u32, List, [], ◌∷◌, ◌++◌, Bool, ◌&&◌, ◌==◌, Option}
use mathlib.Core.Option
use uberspark.Driver.Casm.{casm_ret_eip}
use uberspark.Driver.Casm.Harness.{Harness, Driver, drive_all}
use uberspark.Driver.Casm.Harness.Drivers

-- The addresses of the C objects that the harness passes or uses.
pub record Objects : Type 0 where
  pub eax : ℕ
  pub ebx : ℕ
  pub ecx : ℕ
  pub edx : ℕ
  pub gdtdesc : ℕ
  pub idtdesc : ℕ
  pub smplock : ℕ
  pub buf_vmcs : ℕ
  pub buf_vmxon : ℕ
  pub uobj_stack : ℕ

-- The calls of `main` in its order, those before the lock, the lock and those after it; each call of
-- framac_nondetu32() has an index.
module _ (nondet : ℕ → ℕ) (o : Objects) where
  abbrev pub before_lock : List Driver
  before_lock =
      (Drivers.drv_bsrl (nondet 0))
      ∷ (Drivers.drv_cpuid (nondet 1) o.eax o.ebx o.ecx o.edx)
      ∷ Drivers.drv_disableintr
      ∷ Drivers.drv_enableintr
      ∷ Drivers.drv_getgdtbase
      ∷ Drivers.drv_getidtbase
      ∷ (Drivers.drv_inb (nondet 2))
      ∷ (Drivers.drv_inl (nondet 3))
      ∷ (Drivers.drv_invept (nondet 4) (nondet 5) (nondet 6) (nondet 7))
      ∷ (Drivers.drv_inw (nondet 8))
      ∷ (Drivers.drv_loadgdt o.gdtdesc)
      ∷ (Drivers.drv_loadidt o.idtdesc)
      ∷ Drivers.drv_loadtr
      ∷ (Drivers.drv_outb (nondet 9) (nondet 10))
      ∷ (Drivers.drv_outl (nondet 11) (nondet 12))
      ∷ (Drivers.drv_outw (nondet 13) (nondet 14))
      ∷ Drivers.drv_pause
      ∷ (Drivers.drv_rdmsr (nondet 15))
      ∷ Drivers.drv_rdtsc
      ∷ Drivers.drv_readcr0
      ∷ Drivers.drv_readcr2
      ∷ Drivers.drv_readcr3
      ∷ Drivers.drv_readcr4
      ∷ Drivers.drv_readcs
      ∷ Drivers.drv_readds
      ∷ Drivers.drv_reades
      ∷ Drivers.drv_readfs
      ∷ Drivers.drv_readgs
      ∷ Drivers.drv_readss
      ∷ Drivers.drv_readeflags
      ∷ Drivers.drv_readesp
      ∷ Drivers.drv_readrsp
      ∷ Drivers.drv_readtr
      ∷ []

  abbrev pub after_lock : List Driver
  after_lock =
      (Drivers.drv_spinunlock o.smplock)
      ∷ (Drivers.drv_vmclear o.buf_vmcs)
      ∷ (Drivers.drv_vmptrld o.buf_vmcs)
      ∷ (Drivers.drv_vmread (nondet 16))
      ∷ (Drivers.drv_vmwrite (nondet 17) (nondet 18))
      ∷ (Drivers.drv_vmxon o.buf_vmxon)
      ∷ Drivers.drv_wbinvd
      ∷ (Drivers.drv_writecr0 (nondet 19))
      ∷ (Drivers.drv_writecr3 (nondet 20))
      ∷ (Drivers.drv_writecr4 (nondet 21))
      ∷ (Drivers.drv_writeeflags (nondet 22))
      ∷ (Drivers.drv_wrmsr (nondet 23) (nondet 24) (nondet 25))
      ∷ Drivers.drv_xgetbv
      ∷ (Drivers.drv_xsetbv (nondet 26) (nondet 27))
      ∷ []

  abbrev pub calls : ℕ → List Driver
  calls fuel = before_lock ++ (Drivers.drv_spinlock fuel o.smplock ∷ after_lock)

-- The stack pointer and the program counter are set, the drivers run, and the last two assertions.
unfoldable pub populated : Objects → Harness → Harness
populated o h = record h {
  cpu = record h.cpu { esp = u32 (o.uobj_stack + 4096); eip = casm_ret_eip };
}

unfoldable pub main : ℕ → (ℕ → ℕ) → Objects → Harness → Option (Bool × Harness)
main fuel nondet o h =
    Option.map
      (λ r. (r.0 && (r.1.cpu.esp == (populated o h).cpu.esp) && (r.1.cpu.eip == casm_ret_eip), r.1))
      (drive_all (calls nondet o fuel) (populated o h))
