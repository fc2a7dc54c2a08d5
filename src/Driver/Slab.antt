-- ===== src/Driver/Slab.antt =====
-- src/libs/libxmhfgeec/xmhfgeec_slabstubs_vft.cS: the stubs by which a verified slab is entered and calls
-- the sentinel. The slab's own code, slab_main, is a parameter. The jump to the sentinel calls the
-- verification driver and halts the processor, and the C code of the model then goes on with the next
-- label, so a run is the list of the states that the driver is called with, and the last state.
pub mod Answers
pub mod Entry
pub mod Harness
use uberspark.Base.{ℕ, ◌+◌, u32, if◌then◌else◌, List, [], ◌∷◌}
use uberspark.Hwm.Cpu.{Cpu, load}
use uberspark.Hwm.Cpu.Insn.{Insn, run}
use uberspark.Hwm.Cpu.Jump.{ret, je}
use uberspark.Hwm.Cpu.Stack.{pushl_mem, pushl_mesp, addl_imm_esp}
use uberspark.Hwm.Cpu.System.{hlt}
use uberspark.Driver.Casm.{casm_ret_eip}

-- The calls of src/libs/libxmhfgeec/include/xmhfgeec.h that the stubs look at, and their answers.
abbrev pub sentinel_call_from_vft_prog : ℕ
sentinel_call_from_vft_prog = 0

abbrev pub sentinel_call_exception : ℕ
sentinel_call_exception = 4

abbrev pub sentinel_ret_exception : ℕ
sentinel_ret_exception = 5

abbrev pub sentinel_call_intercept : ℕ
sentinel_call_intercept = 6

abbrev pub sentinel_ret_intercept : ℕ
sentinel_ret_intercept = 7

abbrev pub sentinel_call_uvt_uvu_prog_to_vft_prog : ℕ
sentinel_call_uvt_uvu_prog_to_vft_prog = 8

abbrev pub sentinel_ret_uvt_uvu_prog_to_vft_prog : ℕ
sentinel_ret_uvt_uvu_prog_to_vft_prog = 9

pub record Outcome : Type 0 where
  pub callbacks : List Cpu
  pub final : Cpu

-- `jmpxsentinel`, and what the code behind it does then.
abbrev pub jmpxsentinel : (Cpu → Outcome) → Cpu → Outcome
jmpxsentinel next s =
    let rest = next (hlt s) in record { callbacks = s ∷ rest.callbacks; final = rest.final }

-- The code of a label: the answer is put into the parameters and the two slabs change places.
abbrev pub answer_insns : ℕ → List Insn
answer_insns code =
    Insn.movl_imm_meax code 0x0
    ∷ Insn.movl_meax_edx 0x4
    ∷ Insn.movl_meax_ecx 0x8
    ∷ Insn.movl_ecx_meax 0x4
    ∷ Insn.movl_edx_meax 0x8
    ∷ []

unfoldable pub call_vft_to_vft_prog : Cpu → Outcome
call_vft_to_vft_prog s = record { callbacks = []; final = ret s }

unfoldable pub call_intercept : Cpu → Outcome
call_intercept s = jmpxsentinel call_vft_to_vft_prog (run (answer_insns sentinel_ret_intercept) s)

unfoldable pub call_exception : Cpu → Outcome
call_exception s = jmpxsentinel call_intercept (run (answer_insns sentinel_ret_exception) s)

unfoldable pub call_uvt_uvu_prog_to_vft_prog : Cpu → Outcome
call_uvt_uvu_prog_to_vft_prog s =
    jmpxsentinel call_exception (run (answer_insns sentinel_ret_uvt_uvu_prog_to_vft_prog) s)

-- The comparison with a call and the jump to its label.
abbrev pub compared : ℕ → Cpu → Cpu
compared code s = run (Insn.cmpl_imm_meax code 0x0 ∷ []) s

-- The stub from the load of the parameters on.
unfoldable pub dispatch : Cpu → Outcome
dispatch s =
    let a = compared sentinel_call_uvt_uvu_prog_to_vft_prog (run (Insn.movl_mesp_eax 0x4 ∷ []) s) in
    if je a
    then call_uvt_uvu_prog_to_vft_prog a
    else let b = compared sentinel_call_exception a in
      if je b
      then call_exception b
      else let c = compared sentinel_call_intercept b in
        if je c then call_intercept c else call_vft_to_vft_prog c

-- `call_c_1p`: the return address is pushed, and the C function is called with the word above it.
unfoldable pub call_c_1p : (ℕ → Cpu → Cpu) → Cpu → Cpu
call_c_1p fn_name s = let t = pushl_mem casm_ret_eip s in fn_name (load t (u32 (t.esp + 4))) t

unfoldable pub slab_entrystub : (ℕ → Cpu → Cpu) → Cpu → Outcome
slab_entrystub slab_main s = dispatch (addl_imm_esp 0x4 (call_c_1p slab_main (pushl_mesp 0x4 s)))

-- The function ends without a return.
unfoldable pub slab_callsentinel : Cpu → Outcome
slab_callsentinel s =
    jmpxsentinel (λ t. record { callbacks = []; final = t })
      (run (Insn.movl_mesp_eax 0x4 ∷ Insn.movl_imm_meax sentinel_call_from_vft_prog 0x0 ∷ []) s)
