-- ===== src/Driver/Slab/Harness.antt =====
-- src/libs/libxmhfgeec/verify/xmhfgeec_slabstubs_vft_driver.c: the harness of the entry stub, with its
-- own slab_main, which does nothing. The call that it puts into the parameters is a build option.
use uberspark.Base.{
  ℕ, ◌+◌, ◌*◌, ◌^◌, ◌<◌, ◌≡◌, ◌≢◌, refl, ap, ◌∙◌, arith, u32, sub32, has, false, [], ◌∷◌,
}
use uberspark.Hwm.Cpu.{Cpu, load, store, eflags_zf}
use uberspark.Hwm.Cpu.Stack.{addl_imm_esp}
use uberspark.Driver.Casm.{casm_ret_eip, param_setup, param_teardown}
use uberspark.Driver.Casm.Frame.{load-param_setup}
use uberspark.Driver.Slab.{Outcome, dispatch, call_c_1p, slab_entrystub}
use uberspark.Driver.Slab.Answers.{ReturnsTo, dispatch_lem}

-- slab_main of the harness.
abbrev pub slab_main : ℕ → Cpu → Cpu
slab_main sp s = s

-- The parameters at their address, and the stack pointer of the processor.
unfoldable pub initialized : ℕ → ℕ → ℕ → ℕ → Cpu → Cpu
initialized slab_ctype cpuid sp tos s =
    let a = store s sp slab_ctype in
    let b = store a (u32 (sp + 4)) 5 in
    let c = store b (u32 (sp + 8)) 6 in
    let d = store c (u32 (sp + 12)) 0 in
    let e = store d (u32 (sp + 16)) cpuid in record e { esp = tos }

-- `main`: CASM_FUNCCALL of the stub with the address of the parameters.
unfoldable pub harness_main : ℕ → ℕ → ℕ → ℕ → Cpu → Outcome
harness_main slab_ctype cpuid sp tos s =
    let o =
      slab_entrystub slab_main
        (param_setup (casm_ret_eip ∷ sp ∷ []) (initialized slab_ctype cpuid sp tos s)) in
    record o { final = param_teardown (sp ∷ []) o.final }

-- The state in which the stub looks for its parameters: two return addresses and the address of the
-- parameters twice have been pushed, and one return address is taken off.
abbrev pub looking : ℕ → ℕ → ℕ → ℕ → Cpu → Cpu
looking slab_ctype cpuid sp tos s = addl_imm_esp 4 (
    param_setup (casm_ret_eip ∷ sp ∷ casm_ret_eip ∷ sp ∷ [])
      (initialized slab_ctype cpuid sp tos s))

entered :
    (slab_ctype cpuid sp tos : ℕ) (s : Cpu)
    → sp < 2 ^ 32
    → tos < 2 ^ 32
    → slab_entrystub slab_main
        (param_setup (casm_ret_eip ∷ sp ∷ []) (initialized slab_ctype cpuid sp tos s))
      ≡ dispatch (looking slab_ctype cpuid sp tos s)
unfolding slab_entrystub call_c_1p param_setup initialized
entered slab_ctype cpuid sp tos s hsp htos =
    let i = initialized slab_ctype cpuid sp tos s in
    let e = param_setup (casm_ret_eip ∷ sp ∷ []) i in
    let pushed : load e (u32 (e.esp + 4)) ≡ sp =
      load-param_setup (casm_ret_eip ∷ sp ∷ []) 1 sp i refl hsp (omega arith) htos in
    ap (λ (v : ℕ). dispatch (addl_imm_esp 4 (param_setup (casm_ret_eip ∷ v ∷ []) e))) pushed

looking-eflags :
    (slab_ctype cpuid sp tos : ℕ) (s : Cpu) → (looking slab_ctype cpuid sp tos s).eflags ≡ s.eflags
unfolding param_setup initialized
looking-eflags slab_ctype cpuid sp tos s = refl

depth :
    (slab_ctype cpuid sp tos : ℕ) (s : Cpu)
    → tos < 2 ^ 32
    → u32 (u32 ((looking slab_ctype cpuid sp tos s).esp + 4) + 4) ≡ sub32 tos 4
unfolding param_setup initialized
depth slab_ctype cpuid sp tos s h = omega (arith, h)

-- In the harness the stub takes the return address for the address of its parameters: if the word
-- there is no call and ZF is clear, then whatever call the harness makes, the sentinel is not
-- called, the stack pointer is one word below the top of the stack, as the harness asserts, and
-- the program counter holds the address of the parameters instead of the return address.
pub harness_main_lem :
    (slab_ctype cpuid sp tos : ℕ) (s : Cpu)
    → sp < 2 ^ 32
    → tos < 2 ^ 32
    → has s.eflags eflags_zf ≡ false
    → load (looking slab_ctype cpuid sp tos s) casm_ret_eip ≢ 8
    → load (looking slab_ctype cpuid sp tos s) casm_ret_eip ≢ 4
    → load (looking slab_ctype cpuid sp tos s) casm_ret_eip ≢ 6
    → (let o = harness_main slab_ctype cpuid sp tos s in
        (o.callbacks ≡ []) × (o.final.esp ≡ sub32 tos 4) × (o.final.eip ≡ sp))
unfolding harness_main param_teardown initialized
harness_main_lem slab_ctype cpuid sp tos s hsp htos zf a b c =
    let i = initialized slab_ctype cpuid sp tos s in
    let q = param_setup (casm_ret_eip ∷ sp ∷ casm_ret_eip ∷ sp ∷ []) i in
    let l = looking slab_ctype cpuid sp tos s in
    let place : u32 (u32 (q.esp + 4) + 4) ≡ u32 (q.esp + 4 * 2) = omega arith in
    let param : load l (u32 (l.esp + 4)) ≡ casm_ret_eip =
      ap (load q) place
      ∙ load-param_setup (casm_ret_eip ∷ sp ∷ casm_ret_eip ∷ sp ∷ []) 2 casm_ret_eip i refl
          (omega arith) (omega arith) htos in
    let r : ReturnsTo l (dispatch l) =
      (dispatch_lem l casm_ret_eip param (omega arith)
          (ap (λ (v : ℕ). has v eflags_zf) (looking-eflags slab_ctype cpuid sp tos s) ∙ zf)).3
        a b c in
    let found : load l l.esp ≡ sp =
      load-param_setup (casm_ret_eip ∷ sp ∷ casm_ret_eip ∷ sp ∷ []) 1 sp i refl hsp (omega arith)
        htos in
    let stub = entered slab_ctype cpuid sp tos s hsp htos in
    (
      ap Outcome.callbacks stub ∙ r.silent,
      ap (λ (o : Outcome). u32 (o.final.esp + 4)) stub
          ∙ ap (λ (e : ℕ). u32 (e + 4)) r.esp_popped
          ∙ depth slab_ctype cpuid sp tos s htos,
      ap (λ (o : Outcome). o.final.eip) stub ∙ r.eip_popped ∙ found,
    )
