-- ===== src/Driver/Casm/Calls.antt =====
-- src/libs/libxmhfhw/xmhfhw_sysmem_{read,write}u{32,64}.cS called by CASM_FUNCCALL: what a whole call
-- does, against the accesses that src/libs/libxmhfhw/xmhfhw_vtd_*.c are modelled with.
use uberspark.Base.{
  ℕ, suc, ◌+◌, ◌*◌, ◌^◌, ◌≤◌, ◌<◌, ◌≡◌, refl, ap, ◌∙◌, arith, u32, u64, ◌<<◌, List, [], ◌∷◌, ◌++◌,
  some, get_elem?, bit_or, bit_or-add,
}
use uberspark.Hwm.Cpu.{Cpu, load, edx_eax}
use uberspark.Hwm.Cpu.Stack.{popl_esi}
use uberspark.Hwm.Cpu.Jump.{ret}
use uberspark.Hwm.Cpu.Insn.{exec, run}
use uberspark.Hwm.Sysmem.{Machine, sysmemread}
use uberspark.Driver.VtdReg.{readu32, readu64}
use uberspark.Driver.Casm.{param_setup, param_teardown, casm_call, casm_funccall, casm_ret_eip}
use uberspark.Driver.Casm.Frame.{load-param_setup, teardown_calls, leave_lem, read-obj_out}
use uberspark.Driver.Casm.Sysmem.{sysmemaccess_readu32, sysmemaccess_readu64}

-- The stack as the body of a call sees it: esi, the return address and the parameters.
abbrev pub frame : Cpu → List ℕ → Cpu
frame s ps = param_setup (s.esi ∷ casm_ret_eip ∷ ps) s

-- What is left of a call: the answer in the registers, the frame below the stack pointer.
abbrev pub after_call : Cpu → List ℕ → ℕ → ℕ → Machine → Cpu
after_call s ps a d m = record s {
  eax = a;
  edx = d;
  eip = casm_ret_eip;
  machine = record m {
    obj = (frame s ps).machine.obj;
    calls = m.calls ++ teardown_calls ps (param_setup ps s).esp;
  };
}

-- Parameter k of a call, as the body reads it.
pub param :
    (s : Cpu) (ps : List ℕ) (k p : ℕ)
    → get_elem? ps k ≡ some p
    → p < 2 ^ 32
    → 4 * k + 12 ≤ 2 ^ 32
    → s.esp < 2 ^ 32
    → load (frame s ps) (u32 ((frame s ps).esp + 4 * suc (suc k))) ≡ p
param s ps k p e hp hk hs = load-param_setup _ (suc (suc k)) p s e hp (omega arith) hs

pub at_addr : (a : ℕ) → u32 (a + 0) ≡ u32 a
at_addr a = omega arith

-- The value that CASM_FUNCCALL reads off edx and eax.
pub edx_eax-add : (d a : ℕ) → a < 2 ^ 32 → bit_or (u64 (d << 32)) a ≡ u64 (d << 32) + a
edx_eax-add d a h = bit_or-add 32 (u64 (d << 32)) a (omega arith) h

module _ (s : Cpu) (addr : ℕ) (ha : addr < 2 ^ 32) (hsp : s.esp < 2 ^ 32)
    (hsi : s.esi < 2 ^ 32) where
  read_finish : ℕ → ℕ → Machine → Cpu
  read_finish a d m =
      param_teardown (addr ∷ []) (
        ret (popl_esi (record (frame s (addr ∷ [])) { esi = addr; eax = a; edx = d; machine = m })))

  call-readu32 :
      casm_call (addr ∷ []) (λ t. (sysmemaccess_readu32 t).1) s
      ≡ after_call s (addr ∷ []) (u32 (readu32 s.machine addr).0) s.edx (readu32 s.machine addr).1
  unfolding casm_call param_setup param_teardown sysmemaccess_readu32 exec run readu32 read_finish
  call-readu32 =
      let f = frame s (addr ∷ []) in
      let finish : ℕ × Machine → Cpu = λ r. read_finish (u32 r.0) s.edx r.1 in
      ap (λ (a : ℕ). finish (sysmemread f.machine (u32 (a + 0))))
        (param s (addr ∷ []) 0 addr refl ha (omega arith) hsp)
      ∙ ap (λ (a : ℕ). finish (sysmemread f.machine a)) (at_addr addr)
      ∙ ap finish (read-obj_out s.machine f.machine.obj (u32 addr))
      ∙ leave_lem s (addr ∷ []) (u32 (sysmemread s.machine (u32 addr)).0) s.edx addr
          (sysmemread s.machine (u32 addr)).1 hsp hsi (omega arith)

  read_both : ℕ → Cpu
  read_both a =
      let lo = sysmemread (frame s (addr ∷ [])).machine (u32 (a + 0)) in
      let hi = sysmemread lo.1 (u32 (a + 4)) in read_finish (u32 lo.0) (u32 hi.0) hi.1

  call-readu64 : casm_call (addr ∷ []) (λ t. (sysmemaccess_readu64 t).1) s ≡ (
      let lo = sysmemread s.machine (u32 addr) in
      let hi = sysmemread lo.1 (u32 (addr + 4)) in
      after_call s (addr ∷ []) (u32 lo.0) (u32 hi.0) hi.1)
  unfolding casm_call param_setup param_teardown sysmemaccess_readu64 exec run read_finish read_both
  call-readu64 =
      let f = frame s (addr ∷ []) in
      let lo = sysmemread s.machine (u32 addr) in
      let hi = sysmemread lo.1 (u32 (addr + 4)) in
      ap read_both (param s (addr ∷ []) 0 addr refl ha (omega arith) hsp)
      ∙ ap
          (λ (a : ℕ).
            let r = sysmemread f.machine a in
            let q = sysmemread r.1 (u32 (addr + 4)) in read_finish (u32 r.0) (u32 q.0) q.1)
          (at_addr addr)
      ∙ ap
          (λ (r : ℕ × Machine).
            let q = sysmemread r.1 (u32 (addr + 4)) in read_finish (u32 r.0) (u32 q.0) q.1)
          (read-obj_out s.machine f.machine.obj (u32 addr))
      ∙ ap (λ (q : ℕ × Machine). read_finish (u32 lo.0) (u32 q.0) q.1)
          (read-obj_out lo.1 f.machine.obj (u32 (addr + 4)))
      ∙ leave_lem s (addr ∷ []) (u32 lo.0) (u32 hi.0) addr hi.1 hsp hsi (omega arith)

  -- For an address, a stack pointer and an esi below 2 ^ 32, CASM_FUNCCALL of the assembly
  -- functions that read system memory does what the VT-d driver is modelled with: readu64 gives
  -- the value of its two reads, low word first; readu32 gives its value in the low half, with the
  -- old edx in the high half. Of the processor, only eax, edx and the return address in eip are
  -- changed; esi and the stack pointer are restored, the frame stays below the stack pointer, and
  -- one move of the stack pointer is reported for the parameter.
  pub casm_funccall-reads :
      (casm_funccall (addr ∷ []) (λ t. (sysmemaccess_readu64 t).1) s ≡ (
        let lo = sysmemread s.machine (u32 addr) in
        let hi = sysmemread lo.1 (u32 (addr + 4)) in
        (
          (readu64 s.machine addr).0,
          after_call s (addr ∷ []) (u32 lo.0) (u32 hi.0) (readu64 s.machine addr).1,
        )))
      × (casm_funccall (addr ∷ []) (λ t. (sysmemaccess_readu32 t).1) s ≡ (
          let r = readu32 s.machine addr in
          (u64 (s.edx << 32) + u32 r.0, after_call s (addr ∷ []) (u32 r.0) s.edx r.1)))
  unfolding casm_funccall readu32 readu64
  casm_funccall-reads =
      let lo = sysmemread s.machine (u32 addr) in
      let hi = sysmemread lo.1 (u32 (addr + 4)) in
      (
        ap (λ (r : Cpu). (edx_eax r, r)) call-readu64
            ∙ ap (λ (v : ℕ). (v, after_call s (addr ∷ []) (u32 lo.0) (u32 hi.0) hi.1))
                (edx_eax-add (u32 hi.0) (u32 lo.0) (omega arith) ∙ omega arith),
        ap (λ (r : Cpu). (edx_eax r, r)) call-readu32
            ∙ ap (λ (v : ℕ). (v, after_call s (addr ∷ []) (u32 lo.0) s.edx lo.1))
                (edx_eax-add s.edx (u32 lo.0) (omega arith)),
      )
