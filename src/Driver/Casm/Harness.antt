-- ===== src/Driver/Casm/Harness.antt =====
-- src/libs/libxmhfhw/verify/xmhfhw_casmfuncs_driver.c: the harness that calls each assembly function and
-- checks the registers that the C compiler relies on. A result of framac_nondetu32() and the address
-- of a C object are parameters; a call may be without result (`bsrl` of 0, a lock that stays busy).
pub mod Drivers
pub mod Laws
pub mod Main
pub mod Calling
pub mod RegisterDrivers
pub mod MemoryDrivers
pub mod PortDrivers
pub mod Branches
pub mod Locking
pub mod Checks
use uberspark.Base.{ℕ, List, [], ◌∷◌, Bool, true, ◌&&◌, ◌==◌, Option, none, some}
use mathlib.Core.Option
use uberspark.Hwm.Cpu.{Cpu}
use uberspark.Hwm.Cpu.Stack.{pushl_mem}
use uberspark.Driver.Casm.{casm_ret_eip, param_setup, param_teardown}

-- The processor and the three variables of the harness.
pub record Harness : Type 0 where
  pub cpu : Cpu
  pub saved_cpu_gprs_ebx : ℕ
  pub saved_cpu_gprs_esi : ℕ
  pub saved_cpu_gprs_edi : ℕ

unfoldable pub cabi_establish : Harness → Harness
cabi_establish h = record {
  cpu = record h.cpu { ebx = 5; esi = 6; edi = 7 };
  saved_cpu_gprs_ebx = 5;
  saved_cpu_gprs_esi = 6;
  saved_cpu_gprs_edi = 7;
}

-- Do the three assertions hold?
unfoldable pub cabi_check : Harness → Bool
cabi_check h =
    (h.saved_cpu_gprs_ebx == h.cpu.ebx)
    && (h.saved_cpu_gprs_esi == h.cpu.esi)
    && (h.saved_cpu_gprs_edi == h.cpu.edi)

-- A driver's call: the parameters and the function.
pub record Driver : Type 0 where
  pub params : List ℕ
  pub body : Cpu → Option Cpu

-- CASM_FUNCCALL of a function that may have no result.
unfoldable pub casm_call_of : Driver → Cpu → Option Cpu
casm_call_of d s =
    Option.map (param_teardown d.params) (d.body (pushl_mem casm_ret_eip (param_setup d.params s)))

-- The three statements of each driver: do the assertions hold, and the state after them.
unfoldable pub drive : Driver → Harness → Option (Bool × Harness)
drive d h =
    Option.map (λ t. let after = record (cabi_establish h) { cpu = t } in (cabi_check after, after))
      (casm_call_of d (cabi_establish h).cpu)

-- After a driver, the others, if it has returned.
unfoldable pub and_then :
    Option (Bool × Harness) → (Harness → Option (Bool × Harness)) → Option (Bool × Harness)
and_then none others = none
and_then (some (ok, h)) others = Option.map (λ r. (ok && r.0, r.1)) (others h)

unfoldable pub drive_all : List Driver → Harness → Option (Bool × Harness)
drive_all [] h = some (true, h)
drive_all (d ∷ ds) h = and_then (drive d h) (drive_all ds)

-- A function that returns, with and without a value.
abbrev pub calling : List ℕ → (Cpu → Cpu) → Driver
calling params f = record { params = params; body = λ s. some (f s) }

abbrev pub valued {ℓ} : {A : Type ℓ} → List ℕ → (Cpu → A × Cpu) → Driver
valued params f = record { params = params; body = λ s. some (f s).1 }

-- CASM_NOPARAM of src/hwm/include/xmhfhwm_casm.h: the null pointer is pushed.
abbrev pub casm_noparam : ℕ
casm_noparam = 0
