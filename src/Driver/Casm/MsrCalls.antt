-- ===== src/Driver/Casm/MsrCalls.antt =====
-- src/libs/libxmhfhw/xmhfhw_cpu_{rdmsr,wrmsr}.cS called by CASM_FUNCCALL: what a model specific
-- register holds after it was written.
use uberspark.Base.{
  ℕ, suc, ◌+◌, ◌*◌, ◌^◌, ◌≤◌, ◌<◌, ◌≡◌, ◌⊎◌, refl, ap, ◌∙◌, arith, u32, u64, ◌<<◌, ◌>>◌, bit_or,
  List, [], ◌∷◌, ◌++◌, get_elem?, some,
}
use uberspark.Hwm.Cpu.{
  Cpu, load, edx_eax, msr_efer, ia32_sysenter_cs_msr, ia32_sysenter_eip_msr, ia32_sysenter_esp_msr,
}
use uberspark.Hwm.Cpu.Msr.{rdmsr, wrmsr}
use uberspark.Hwm.Cpu.Insn.{exec, run}
use uberspark.Hwm.Cpu.Jump.{ret}
use uberspark.Driver.Casm.{param_setup, param_teardown, casm_call, casm_funccall, casm_ret_eip}
use uberspark.Driver.Casm.Frame.{load-param_setup, teardown_calls, leave_leaf_lem}
use uberspark.Driver.Casm.Msr.{rdmsr64, wrmsr64}
use uberspark.Driver.Casm.Calls.{edx_eax-add}

abbrev pub leaf_frame : Cpu → List ℕ → Cpu
leaf_frame s ps = param_setup (casm_ret_eip ∷ ps) s

-- The state after a call whose body left `t` when it returned.
abbrev pub returned : Cpu → List ℕ → Cpu → Cpu
returned s ps t = record t {
  esp = s.esp;
  eip = casm_ret_eip;
  machine = record t.machine {
    calls = t.machine.calls ++ teardown_calls ps (param_setup ps s).esp;
  };
}

pub param :
    (s : Cpu) (ps : List ℕ) (k p : ℕ)
    → get_elem? ps k ≡ some p
    → p < 2 ^ 32
    → 4 * k + 8 ≤ 2 ^ 32
    → s.esp < 2 ^ 32
    → load (leaf_frame s ps) (u32 ((leaf_frame s ps).esp + 4 * suc k)) ≡ p
param s ps k p e hp hk hs = load-param_setup _ (suc k) p s e hp (omega arith) hs

wrmsr-stack : (t : Cpu) → ((wrmsr t).esp ≡ t.esp) × ((wrmsr t).machine ≡ t.machine)
wrmsr-stack t = ground arith

rdmsr-stack : (t : Cpu) → ((rdmsr t).esp ≡ t.esp) × ((rdmsr t).machine ≡ t.machine)
rdmsr-stack t = ground arith

module _ (s : Cpu) (msr lo hi : ℕ) (hm : msr < 2 ^ 32) (hlo : lo < 2 ^ 32) (hhi : hi < 2 ^ 32)
    (hs : s.esp < 2 ^ 32) where
  written : Cpu
  written = wrmsr (record (leaf_frame s (msr ∷ lo ∷ hi ∷ [])) { ecx = msr; eax = lo; edx = hi })

  call-wrmsr64 : casm_call (msr ∷ lo ∷ hi ∷ []) wrmsr64 s ≡ returned s (msr ∷ lo ∷ hi ∷ []) written
  unfolding casm_call wrmsr64 exec run written param_teardown param_setup
  call-wrmsr64 =
      let ps : List ℕ = msr ∷ lo ∷ hi ∷ [] in
      let f = leaf_frame s ps in
      let t = record f { ecx = msr; eax = lo; edx = hi } in
      (λ i. param_teardown ps (
        ret (
          wrmsr (record f {
            ecx = param s ps 0 msr refl hm (omega arith) hs i;
            eax = param s ps 1 lo refl hlo (omega arith) hs i;
            edx = param s ps 2 hi refl hhi (omega arith) hs i;
          }))))
      ∙ leave_leaf_lem s (wrmsr t) ps hs (omega arith) (wrmsr-stack t).0
          (ap (λ m. m.obj) (wrmsr-stack t).1)

pub call-rdmsr64 :
    (s : Cpu) (msr : ℕ)
    → msr < 2 ^ 32
    → s.esp < 2 ^ 32
    → casm_call (msr ∷ []) (λ t. (rdmsr64 t).1) s
      ≡ returned s (msr ∷ []) (rdmsr (record (leaf_frame s (msr ∷ [])) { ecx = msr }))
unfolding casm_call rdmsr64 exec run param_teardown param_setup
call-rdmsr64 s msr hm hs =
    let ps : List ℕ = msr ∷ [] in
    let f = leaf_frame s ps in
    let t = record f { ecx = msr } in
    (λ i.
      param_teardown ps
        (ret (rdmsr (record f { ecx = param s ps 0 msr refl hm (omega arith) hs i }))))
    ∙ leave_leaf_lem s (rdmsr t) ps hs (omega arith) (rdmsr-stack t).0
        (ap (λ m. m.obj) (rdmsr-stack t).1)

pair-parts :
    (lo hi : ℕ)
    → lo < 2 ^ 32
    → hi < 2 ^ 32
    → (bit_or (u64 (hi << 32)) lo ≡ lo + (hi << 32))
      × (bit_or (u64 (u32 ((lo + (hi << 32)) >> 32) << 32)) (u32 (lo + (hi << 32)))
          ≡ lo + (hi << 32))
pair-parts lo hi hlo hhi = (
  edx_eax-add hi lo hlo ∙ omega arith,
  edx_eax-add (u32 ((lo + (hi << 32)) >> 32)) (u32 (lo + (hi << 32))) (omega arith) ∙ omega arith,
)

-- The registers that hold what was written.
abbrev pub IsKept : ℕ → Type 0
IsKept msr =
    (msr ≡ msr_efer)
    ⊎ ((msr ≡ ia32_sysenter_cs_msr)
        ⊎ ((msr ≡ ia32_sysenter_eip_msr) ⊎ (msr ≡ ia32_sysenter_esp_msr)))

module _ (s : Cpu) (msr lo hi : ℕ) (hlo : lo < 2 ^ 32) (hhi : hi < 2 ^ 32)
    (hs : s.esp < 2 ^ 32) where
  -- The processor that is asked for the register, in the body of rdmsr64.
  asking : msr < 2 ^ 32 → Cpu
  asking hm =
      record (leaf_frame (returned s (msr ∷ lo ∷ hi ∷ []) (written s msr lo hi hm hlo hhi hs))
        (msr ∷ [])) { ecx = msr }

  read_back : IsKept msr → (hm : msr < 2 ^ 32) → edx_eax (rdmsr (asking hm)) ≡ lo + (hi << 32)
  unfolding asking written param_setup
  read_back k hm = ground (arith, pair-parts lo hi hlo hhi)

  kept_u32 : IsKept msr → msr < 2 ^ 32
  kept_u32 k = ground arith

  -- For EFER and the three SYSENTER registers, two halves and a stack pointer below 2 ^ 32: a call
  -- of rdmsr64 after a call of wrmsr64 gives the 64-bit value that was written.
  pub rdmsr64-wrmsr64 :
      IsKept msr
      → (casm_funccall (msr ∷ []) (λ t. (rdmsr64 t).1) (casm_call (msr ∷ lo ∷ hi ∷ []) wrmsr64 s)).0
        ≡ lo + (hi << 32)
  unfolding casm_funccall asking
  rdmsr64-wrmsr64 k =
      let hm : msr < 2 ^ 32 = kept_u32 k in
      let ps : List ℕ = msr ∷ lo ∷ hi ∷ [] in
      ap (λ (t : Cpu). edx_eax (casm_call (msr ∷ []) (λ u. (rdmsr64 u).1) t))
        (call-wrmsr64 s msr lo hi hm hlo hhi hs)
      ∙ ap edx_eax (call-rdmsr64 (returned s ps (written s msr lo hi hm hlo hhi hs)) msr hm hs)
      ∙ read_back k hm
