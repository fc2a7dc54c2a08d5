-- ===== src/Tests/Slab.antt =====
-- The theorems on src/libs/libxmhfgeec/xmhfgeec_slabstubs_vft.cS at a concrete processor and memory.
use uberspark.Base.{[], sub32, ℕ, ◌+◌, ◌≡◌, ◌≢◌, ◌==◌, has, false, if◌then◌else◌, refl, arith, u32}
use uberspark.Hwm.Obj.{Memory, load32, store32}
use uberspark.Driver.Casm.{param_setup}
use uberspark.Hwm.Cpu.{Cpu, load, eflags_zf}
use uberspark.Hwm.Cpu.Stack.{addl_imm_esp}
use uberspark.Driver.Slab.{slab_entrystub}
use uberspark.Driver.Slab.Answers.{Answered, ReturnsTo}
use uberspark.Driver.Slab.Entry.{called, slab_entrystub_lem}
use uberspark.Driver.Slab.Harness.{harness_main, looking, initialized, harness_main_lem}
use uberspark.Driver.Casm.{casm_ret_eip}
use uberspark.Tests.Processor.{boot}

-- The parameters at 0x9000 with the exception call, from slab 5 to slab 6, and their address on the stack.
abbrev params : Memory
params a =
    if a == 0x9000
    then 4
    else if a == 0x9004
    then 5
    else if a == 0x9008
    then 6
    else if a == 0x8005
    then 0x90
    else 0

abbrev entering : Cpu
entering = record boot { machine = record boot.machine { obj = params } }

-- A slab that does nothing but return.
abbrev idle : ℕ → Cpu → Cpu
idle p s = record s { esp = u32 (s.esp + 4) }

parameter : load entering (u32 (entering.esp + 4)) ≡ 0x9000
unfolding load32
parameter = refl

popped : (idle 0x9000 (called 0x9000 entering)).esp ≡ 0x7FFC
unfolding param_setup
popped = refl

kept : load (idle 0x9000 (called 0x9000 entering)) (u32 (0x8000 + 4)) ≡ 0x9000
unfolding param_setup load32 store32
kept = refl

clear_zf : has (idle 0x9000 (called 0x9000 entering)).eflags eflags_zf ≡ false
unfolding param_setup
clear_zf = refl

slab_entrystub_example :
    (let t = idle 0x9000 (called 0x9000 entering) in
      let o = slab_entrystub idle entering in
      (load t 0x9000 ≡ 8 → Answered 9 2 0x9000 t.machine.obj o)
      × (load t 0x9000 ≡ 4 → Answered 5 1 0x9000 t.machine.obj o)
      × (load t 0x9000 ≡ 6 → Answered 7 0 0x9000 t.machine.obj o)
      × (load t 0x9000 ≢ 8
          → load t 0x9000 ≢ 4
          → load t 0x9000 ≢ 6
          → ReturnsTo (addl_imm_esp 4 t) o))
slab_entrystub_example =
    slab_entrystub_lem idle entering 0x9000 parameter (omega arith) (omega arith) popped kept
      clear_zf

-- The exception call, with no word at the return address.
looking_at : load (looking 4 0 0x9000 0x8000 boot) casm_ret_eip ≡ 0
unfolding param_setup initialized load32 store32
looking_at = refl

harness_main_example :
    (let o = harness_main 4 0 0x9000 0x8000 boot in
      (o.callbacks ≡ []) × (o.final.esp ≡ sub32 0x8000 4) × (o.final.eip ≡ 0x9000))
harness_main_example =
    harness_main_lem 4 0 0x9000 0x8000 boot (omega arith) (omega arith) refl
      (λ e. omega (arith, e, looking_at)) (λ e. omega (arith, e, looking_at))
      (λ e. omega (arith, e, looking_at))
