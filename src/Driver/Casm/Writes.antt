-- ===== src/Driver/Casm/Writes.antt =====
-- src/libs/libxmhfhw/xmhfhw_sysmem_write{u32,u64}.cS called by CASM_FUNCCALL, against the accesses of
-- src/libs/libxmhfhw/xmhfhw_vtd_writereg.c.
use uberspark.Base.{ℕ, ◌+◌, ◌^◌, ◌<◌, ◌≡◌, refl, ap, sym, ◌∙◌, arith, u32, List, [], ◌∷◌}
use uberspark.Hwm.Cpu.{Cpu, load}
use uberspark.Hwm.Cpu.Stack.{popl_esi}
use uberspark.Hwm.Cpu.Jump.{ret}
use uberspark.Hwm.Cpu.Insn.{exec, run}
use uberspark.Hwm.Sysmem.{Machine, sysmemwrite}
use uberspark.Driver.VtdReg.{writeu32, writeu64}
use uberspark.Driver.Casm.{param_setup, param_teardown, casm_call}
use uberspark.Driver.Casm.Frame.{leave_lem, write-obj_out}
use uberspark.Driver.Casm.Sysmem.{sysmemaccess_writeu32, sysmemaccess_writeu64}
use uberspark.Driver.Casm.Calls.{frame, after_call, param, at_addr}

module _ (s : Cpu) (addr : ℕ) (ha : addr < 2 ^ 32) (hsp : s.esp < 2 ^ 32)
    (hsi : s.esi < 2 ^ 32) where
  call-writeu32 :
      (val : ℕ)
      → val < 2 ^ 32
      → casm_call (addr ∷ val ∷ []) sysmemaccess_writeu32 s
        ≡ after_call s (addr ∷ val ∷ []) val s.edx (writeu32 s.machine addr val)
  unfolding casm_call param_setup param_teardown sysmemaccess_writeu32 exec run writeu32
  call-writeu32 val hv =
      let ps : List ℕ = addr ∷ val ∷ [] in
      let f = frame s ps in
      let finish : ℕ → Machine → Cpu =
        λ a m. param_teardown ps (ret (popl_esi (record f { esi = addr; eax = a; machine = m }))) in
      let same : u32 val ≡ val = omega arith in
      ap
        (λ (a : ℕ).
          let v = load f (u32 (f.esp + 12)) in
          param_teardown ps (
            ret (
              popl_esi
                (record f { esi = a; eax = v; machine = sysmemwrite f.machine (u32 (a + 0)) v }))))
        (param s ps 0 addr refl ha (omega arith) hsp)
      ∙ ap (λ (v : ℕ). finish v (sysmemwrite f.machine (u32 (addr + 0)) v))
          (param s ps 1 val refl hv (omega arith) hsp)
      ∙ ap (λ (a : ℕ). finish val (sysmemwrite f.machine a val)) (at_addr addr)
      ∙ ap (finish val) (write-obj_out s.machine f.machine.obj (u32 addr) val)
      ∙ leave_lem s ps val s.edx addr (sysmemwrite s.machine (u32 addr) val) hsp hsi (omega arith)
      ∙ ap (λ (v : ℕ). after_call s ps val s.edx (sysmemwrite s.machine (u32 addr) v)) (sym same)

  call-writeu64 :
      (lo hi : ℕ)
      → lo < 2 ^ 32
      → hi < 2 ^ 32
      → casm_call (addr ∷ lo ∷ hi ∷ []) sysmemaccess_writeu64 s
        ≡ after_call s (addr ∷ lo ∷ hi ∷ []) lo hi (writeu64 s.machine addr lo hi)
  unfolding casm_call param_setup param_teardown sysmemaccess_writeu64 exec run writeu64
  call-writeu64 lo hi hlo hhi =
      let ps : List ℕ = addr ∷ lo ∷ hi ∷ [] in
      let f = frame s ps in
      let finish : ℕ → ℕ → Machine → Cpu = λ a d m.
        param_teardown ps
          (ret (popl_esi (record f { esi = addr; eax = a; edx = d; machine = m }))) in
      let same_lo : u32 lo ≡ lo = omega arith in
      let same_hi : u32 hi ≡ hi = omega arith in
      let first = sysmemwrite s.machine (u32 addr) lo in
      ap
        (λ (a : ℕ).
          let v = load f (u32 (f.esp + 12)) in
          let w = load f (u32 (f.esp + 16)) in
          param_teardown ps (
            ret (
              popl_esi (record f {
                esi = a;
                eax = v;
                edx = w;
                machine = sysmemwrite (sysmemwrite f.machine (u32 (a + 0)) v) (u32 (a + 4)) w;
              }))))
        (param s ps 0 addr refl ha (omega arith) hsp)
      ∙ ap
          (λ (v : ℕ).
            let w = load f (u32 (f.esp + 16)) in
            finish v w (sysmemwrite (sysmemwrite f.machine (u32 (addr + 0)) v) (u32 (addr + 4)) w))
          (param s ps 1 lo refl hlo (omega arith) hsp)
      ∙ ap
          (λ (w : ℕ).
            finish lo w
              (sysmemwrite (sysmemwrite f.machine (u32 (addr + 0)) lo) (u32 (addr + 4)) w))
          (param s ps 2 hi refl hhi (omega arith) hsp)
      ∙ ap (λ (a : ℕ). finish lo hi (sysmemwrite (sysmemwrite f.machine a lo) (u32 (addr + 4)) hi))
          (at_addr addr)
      ∙ ap (λ (m : Machine). finish lo hi (sysmemwrite m (u32 (addr + 4)) hi))
          (write-obj_out s.machine f.machine.obj (u32 addr) lo)
      ∙ ap (finish lo hi) (write-obj_out first f.machine.obj (u32 (addr + 4)) hi)
      ∙ leave_lem s ps lo hi addr (sysmemwrite first (u32 (addr + 4)) hi) hsp hsi (omega arith)
      ∙ ap
          (λ (v : ℕ).
            after_call s ps lo hi
              (sysmemwrite (sysmemwrite s.machine (u32 addr) v) (u32 (addr + 4)) hi))
          (sym same_lo)
      ∙ ap
          (λ (w : ℕ).
            after_call s ps lo hi
              (sysmemwrite (sysmemwrite s.machine (u32 addr) (u32 lo)) (u32 (addr + 4)) w))
          (sym same_hi)

  -- For an address, values, a stack pointer and an esi below 2 ^ 32, calling the assembly
  -- functions that write system memory does what the VT-d driver is modelled with: writeu64 writes
  -- the low word and then the high one, writeu32 writes its word. The values stay in eax and edx,
  -- eip holds the return address, the frame stays below the stack pointer, one move of the stack
  -- pointer is reported for each parameter, and nothing else of the processor is changed.
  pub casm_call-writes :
      (lo hi : ℕ)
      → lo < 2 ^ 32
      → hi < 2 ^ 32
      → (casm_call (addr ∷ lo ∷ hi ∷ []) sysmemaccess_writeu64 s
          ≡ after_call s (addr ∷ lo ∷ hi ∷ []) lo hi (writeu64 s.machine addr lo hi))
        × (casm_call (addr ∷ lo ∷ []) sysmemaccess_writeu32 s
            ≡ after_call s (addr ∷ lo ∷ []) lo s.edx (writeu32 s.machine addr lo))
  casm_call-writes lo hi hlo hhi = (call-writeu64 lo hi hlo hhi, call-writeu32 lo hlo)
