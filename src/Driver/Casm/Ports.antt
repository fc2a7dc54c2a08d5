-- ===== src/Driver/Casm/Ports.antt =====
-- src/libs/libxmhfhw/xmhfhw_cpu_{inl,outl}.cS called by CASM_FUNCCALL.
use uberspark.Base.{ℕ, ◌^◌, ◌<◌, ◌≡◌, refl, ap, ◌∙◌, arith, List, [], ◌∷◌}
use uberspark.Hwm.Cpu.{Cpu}
use uberspark.Hwm.Cpu.Msr.{inl_dx_eax, outl_eax_dx}
use uberspark.Hwm.Cpu.Insn.{exec, run}
use uberspark.Hwm.Cpu.Jump.{ret}
use uberspark.Driver.Casm.{param_setup, param_teardown, casm_call}
use uberspark.Driver.Casm.Frame.{leave_leaf_lem}
use uberspark.Driver.Casm.Msr.{inl, outl}
use uberspark.Driver.Casm.MsrCalls.{leaf_frame, returned, param}

outl-stack : (t : Cpu) → ((outl_eax_dx t).esp ≡ t.esp) × ((outl_eax_dx t).machine ≡ t.machine)
outl-stack t = ground arith

pub call-outl :
    (s : Cpu) (value port : ℕ)
    → value < 2 ^ 32
    → port < 2 ^ 32
    → s.esp < 2 ^ 32
    → casm_call (value ∷ port ∷ []) outl s
      ≡ returned s
          (value ∷ port ∷ [])
          (outl_eax_dx (record (leaf_frame s (value ∷ port ∷ [])) { eax = value; edx = port }))
unfolding casm_call outl exec run param_teardown param_setup
call-outl s value port hv hp hs =
    let ps : List ℕ = value ∷ port ∷ [] in
    let f = leaf_frame s ps in
    let t = record f { eax = value; edx = port } in
    (λ i. param_teardown ps (
      ret (
        outl_eax_dx (record f {
          eax = param s ps 0 value refl hv (omega arith) hs i;
          edx = param s ps 1 port refl hp (omega arith) hs i;
        }))))
    ∙ leave_leaf_lem s (outl_eax_dx t) ps hs (omega arith) (outl-stack t).0
        (ap (λ m. m.obj) (outl-stack t).1)

-- The state in which inl reads the port.
abbrev pub reading : Cpu → ℕ → Cpu
reading s port = record (inl_dx_eax (record (leaf_frame s (port ∷ [])) { eax = 0; edx = port })) {
  edx = 0;
}

reading-stack :
    (s : Cpu) (port : ℕ)
    → ((reading s port).esp ≡ (leaf_frame s (port ∷ [])).esp)
      × ((reading s port).machine ≡ (leaf_frame s (port ∷ [])).machine)
reading-stack s port = (refl, refl)

pub call-inl :
    (s : Cpu) (port : ℕ)
    → port < 2 ^ 32
    → s.esp < 2 ^ 32
    → casm_call (port ∷ []) (λ t. (inl t).1) s ≡ returned s (port ∷ []) (reading s port)
unfolding casm_call inl exec run param_teardown param_setup
call-inl s port hp hs =
    let f = leaf_frame s (port ∷ []) in
    (λ i. param_teardown (port ∷ []) (
      ret
        (record (inl_dx_eax
          (record f { edx = param s (port ∷ []) 0 port refl hp (omega arith) hs i; eax = 0 })) {
            edx = 0;
          })))
    ∙ leave_leaf_lem s (reading s port) (port ∷ []) hs (omega arith) (reading-stack s port).0
        (ap (λ m. m.obj) (reading-stack s port).1)
