-- ===== src/Driver/Slab/Entry.antt =====
-- The entry stub with the slab's own code.
use uberspark.Base.{
  ℕ, ◌+◌, ◌^◌, ◌≤◌, ◌<◌, ◌≡◌, ◌≢◌, refl, ap, ◌∙◌, arith, u32, sub32, has, false, [], ◌∷◌,
}
use uberspark.Hwm.Cpu.{Cpu, load, eflags_zf}
use uberspark.Hwm.Cpu.Stack.{addl_imm_esp}
use uberspark.Driver.Casm.{casm_ret_eip, param_setup}
use uberspark.Driver.Casm.Frame.{load-param_setup}
use uberspark.Driver.Slab.{dispatch, call_c_1p, slab_entrystub}
use uberspark.Driver.Slab.Answers.{Answered, ReturnsTo, dispatch_lem}

-- The state that slab_main is called in: its parameter and the return address are on the stack.
abbrev pub called : ℕ → Cpu → Cpu
called p s = param_setup (casm_ret_eip ∷ p ∷ []) s

entered :
    (slab_main : ℕ → Cpu → Cpu) (s : Cpu) (p : ℕ)
    → load s (u32 (s.esp + 4)) ≡ p
    → s.esp < 2 ^ 32
    → slab_entrystub slab_main s ≡ dispatch (addl_imm_esp 4 (slab_main p (called p s)))
unfolding slab_entrystub call_c_1p param_setup
entered slab_main s p param small =
    let pushed : load (called p s) (u32 ((called p s).esp + 4)) ≡ p =
      load-param_setup (casm_ret_eip ∷ p ∷ []) 1 p s refl (omega (arith, param)) (omega arith)
        small in
    ap (λ (v : ℕ). dispatch (addl_imm_esp 4 (call_c_1p slab_main (param_setup (v ∷ []) s)))) param
    ∙ ap (λ (q : ℕ). dispatch (addl_imm_esp 4 (slab_main q (called p s)))) pushed

-- The entry stub answers the call that slab_main leaves in the parameters: if slab_main takes its
-- return address off the stack, leaves the stub's parameter where it is and returns with ZF clear,
-- then the verification driver is called first with the answer to a call from an unverified slab,
-- an exception or an intercept in the parameters, with the two slabs exchanged, and after it two,
-- one and no more times; for every other call the stub returns to its caller, with no callback.
pub slab_entrystub_lem :
    (slab_main : ℕ → Cpu → Cpu) (s : Cpu) (p : ℕ)
    → load s (u32 (s.esp + 4)) ≡ p
    → s.esp < 2 ^ 32
    → p + 12 ≤ 2 ^ 32
    → (slab_main p (called p s)).esp ≡ sub32 s.esp 4
    → load (slab_main p (called p s)) (u32 (s.esp + 4)) ≡ p
    → has (slab_main p (called p s)).eflags eflags_zf ≡ false
    → (let t = slab_main p (called p s) in
        let o = slab_entrystub slab_main s in
        (load t p ≡ 8 → Answered 9 2 p t.machine.obj o)
        × (load t p ≡ 4 → Answered 5 1 p t.machine.obj o)
        × (load t p ≡ 6 → Answered 7 0 p t.machine.obj o)
        × (load t p ≢ 8 → load t p ≢ 4 → load t p ≢ 6 → ReturnsTo (addl_imm_esp 4 t) o))
slab_entrystub_lem slab_main s p param small fits popped kept zf =
    let t = slab_main p (called p s) in
    let back : u32 (t.esp + 4) ≡ s.esp = omega (arith, popped, small) in
    rw (entered slab_main s p param small)
      (dispatch_lem (addl_imm_esp 4 t) p (ap (λ (e : ℕ). load t (u32 (e + 4))) back ∙ kept) fits zf)
