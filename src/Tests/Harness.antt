-- ===== src/Tests/Harness.antt =====
-- The theorems on src/libs/libxmhfhw/verify/xmhfhw_casmfuncs_driver.c at a concrete processor and memory.
use uberspark.Base.{ℕ, ◌+◌, ◌≡◌, ◌≤◌, ◌<◌, ◌⊎◌, ◌^◌, inr, refl, arith, [], ◌∷◌, some, true}
use uberspark.Hwm.Cpu.Insn.{run}
use uberspark.Hwm.Cpu.Jump.{ret}
use uberspark.Driver.Casm.{casm_call}
use uberspark.Driver.Casm.Msr.{cpu_cpuid_insns}
use uberspark.Driver.Casm.Abi.{Ty, check, step}
use uberspark.Driver.Casm.Abi.Convention.{obeys, Preserved, casm_call-Preserved}
use uberspark.Driver.Casm.Harness.{Harness}
use uberspark.Driver.Casm.Harness.Main.{Objects, main}
use uberspark.Driver.Casm.Harness.Checks.{Placed, main-Checks}
use uberspark.Tests.Processor.{boot, boot-InRange}

-- cpuid with its four results at 0x9000, the byte 0x9010 watched.
cpuid-obeys : obeys cpu_cpuid_insns 8 (Ty.any ∷ Ty.away ∷ Ty.away ∷ Ty.away ∷ Ty.away ∷ []) ≡ true
unfolding obeys check step
cpuid-obeys = refl

casm_call-Preserved_example :
    Preserved 0x9010 boot (
      casm_call
        (1 ∷ 0x9000 ∷ 0x9004 ∷ 0x9008 ∷ 0x900C ∷ [])
        (λ t. ret (run cpu_cpuid_insns t))
        boot)
casm_call-Preserved_example =
    casm_call-Preserved 0x7000 0x9010 8 boot cpu_cpuid_insns
      (1 ∷ 0x9000 ∷ 0x9004 ∷ 0x9008 ∷ 0x900C ∷ [])
      (Ty.any ∷ Ty.away ∷ Ty.away ∷ Ty.away ∷ Ty.away ∷ []) cpuid-obeys refl boot-InRange
      (inr (omega arith)) (omega arith)
      (
        omega arith,
        (
          tt,
          (
            omega arith,
            (
              away 0x9000 (omega arith) (omega arith),
              (
                omega arith,
                (
                  away 0x9004 (omega arith) (omega arith),
                  (
                    omega arith,
                    (
                      away 0x9008 (omega arith) (omega arith),
                      (omega arith, (away 0x900C (omega arith) (omega arith), tt)),
                    ),
                  ),
                ),
              ),
            ),
          ),
        ),
      )
  where
    away :
        (w : ℕ)
        → 0x8000 ≤ w
        → w + 4 ≤ 0x9010
        → ((w + 4 ≤ 0x7000) ⊎ (0x8000 ≤ w)) × ((w + 4 ≤ 2 ^ 32) × ((0x9010 < w) ⊎ (w + 4 ≤ 0x9010)))
    away w l g = (inr l, (omega (arith, g), inr g))

abbrev objects : Objects
objects = record {
  eax = 0x9000;
  ebx = 0x9004;
  ecx = 0x9008;
  edx = 0x900C;
  gdtdesc = 0x9010;
  idtdesc = 0x9018;
  smplock = 0x9020;
  buf_vmcs = 0x9100;
  buf_vmxon = 0x9180;
  uobj_stack = 0x7000;
}

abbrev nondet : ℕ → ℕ
nondet k = 6

placed : Placed nondet objects
placed = record {
  stack_fits = omega arith;
  nondet_u32 = λ k. omega arith;
  bsrl_some = λ e. omega (arith, e);
  eax_away = (inr (omega arith), (omega arith, inr (omega arith)));
  ebx_away = (inr (omega arith), (omega arith, inr (omega arith)));
  ecx_away = (inr (omega arith), (omega arith, inr (omega arith)));
  edx_away = (inr (omega arith), (omega arith, inr (omega arith)));
  smplock_away = (inr (omega arith), (omega arith, inr (omega arith)));
  gdtdesc_u32 = omega arith;
  idtdesc_u32 = omega arith;
  buf_vmcs_u32 = omega arith;
  buf_vmxon_u32 = omega arith;
}

-- Every byte of memory is 1, so the lock is free.
abbrev harness : ℕ → ℕ → Harness
harness esp eip = record {
  cpu = record boot { esp = esp; eip = eip; machine = record boot.machine { obj = λ a. 1 } };
  saved_cpu_gprs_ebx = 0;
  saved_cpu_gprs_esi = 0;
  saved_cpu_gprs_edi = 0;
}

main-Checks_example : (t : Harness) × (main 1 nondet objects (harness 0 0) ≡ some (true, t))
main-Checks_example = main-Checks 0 nondet objects (harness 0 0) placed (ground arith) refl
