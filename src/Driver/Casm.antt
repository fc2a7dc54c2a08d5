-- ===== src/Driver/Casm.antt =====
-- CASM_FUNCCALL of src/hwm/include/xmhfhwm_cpu.h: how C calls a function written in the assembly
-- macros (CASM_FUNCDEF), on the processor model: the parameters and a return address are pushed, the
-- body runs, and the parameters are taken off again.
pub mod Sysmem
pub mod Msr
pub mod Regs
pub mod Tables
pub mod Control
pub mod Vmx
pub mod Lock
pub mod Frame
pub mod Calls
pub mod Writes
pub mod Scan
pub mod MsrCalls
pub mod Ports
pub mod LockLaws
pub mod Abi
pub mod Harness
use uberspark.Base.{ℕ, List, [], ◌∷◌}
use uberspark.Hwm.Cpu.{Cpu, edx_eax}
use uberspark.Hwm.Cpu.Stack.{pushl_mem, addl_imm_esp}

abbrev pub casm_ret_eip : ℕ
casm_ret_eip = 0xDEADBEEF

-- CASM_FUNCCALL_PARAMSETUP over the reversed parameters: the first one is pushed last.
unfoldable pub param_setup : List ℕ → Cpu → Cpu
param_setup [] s = s
param_setup (p ∷ ps) s = pushl_mem p (param_setup ps s)

-- CASM_FUNCCALL_PARAMTEARDOWN for each parameter.
unfoldable pub param_teardown : List ℕ → Cpu → Cpu
param_teardown [] s = s
param_teardown (p ∷ ps) s = param_teardown ps (addl_imm_esp 4 s)

-- CASM_FUNCCALL and CASM_FUNCCALL32: the state after the call; the value is read off it.
unfoldable pub casm_call : List ℕ → (Cpu → Cpu) → Cpu → Cpu
casm_call ps body s = param_teardown ps (body (pushl_mem casm_ret_eip (param_setup ps s)))

unfoldable pub casm_funccall : List ℕ → (Cpu → Cpu) → Cpu → ℕ × Cpu
casm_funccall ps body s = let r = casm_call ps body s in (edx_eax r, r)

unfoldable pub casm_funccall32 : List ℕ → (Cpu → Cpu) → Cpu → ℕ × Cpu
casm_funccall32 ps body s = let r = casm_call ps body s in (r.eax, r)
