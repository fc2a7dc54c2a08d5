-- ===== src/Driver/Casm/Harness/Calling.antt =====
-- The harness: a driver of a function that amounts to code that the check accepts.
use uberspark.Base.{ℕ, ◌⊎◌, ◌+◌, ◌≤◌, ◌<◌, ◌≡◌, ap, arith, List, length, true, some}
use uberspark.Hwm.Cpu.{Cpu}
use uberspark.Hwm.Cpu.Insn.{Insn, run}
use uberspark.Hwm.Cpu.Jump.{ret}
use uberspark.Driver.Casm.Abi.{Ty}
use uberspark.Driver.Casm.Abi.Convention.{obeys, Params}
use uberspark.Driver.Casm.Harness.{calling}
use uberspark.Driver.Casm.Harness.Laws.{Conforms, frame, Straight-Conforms}

-- A function that amounts to code that the check accepts.
pub calling-Conforms :
    (watched lo top : ℕ) (ps : List ℕ) (tys : List Ty) (f : Cpu → Cpu) (is : List Insn)
    → (watched < lo) ⊎ (top ≤ watched)
    → lo + 64 ≤ top
    → length ps ≤ 5
    → length ps ≡ length tys
    → ((byte : ℕ) → Params (frame watched byte lo top) ps tys)
    → obeys is 8 tys ≡ true
    → ((s : Cpu) → f s ≡ ret (run is s))
    → Conforms watched top (calling ps f)
calling-Conforms watched lo top ps tys f is out space few same fit ok amounts =
    Straight-Conforms watched lo top (calling ps f) tys out (omega (arith, space, few)) same fit
      (λ h r. record { code = is; accepted = ok; amounts = ap some (amounts _) })
