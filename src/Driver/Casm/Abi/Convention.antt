-- ===== src/Driver/Casm/Abi/Convention.antt =====
-- CASM_FUNCCALL of src/hwm/include/xmhfhwm_cpu.h and the typing: a call of code that has a type gives
-- back the registers that the C compiler relies on.
use uberspark.Base.{
  ℕ, suc, ◌+◌, ◌*◌, ◌^◌, ◌≤◌, ◌<◌, ◌≡◌, refl, ap, ◌⊎◌, ◌∙◌, subst, arith, none, some, List, [], ◌∷◌,
  length, inl, inr, Bool, true, false, ◌&&◌, ◌==◌, Option-cases,
}
use uberspark.Hwm.Cpu.{Cpu}
use uberspark.Hwm.Cpu.Insn.{Insn, exec, run}
use uberspark.Hwm.Cpu.Jump.{ret}
use uberspark.Hwm.Cpu.Ranges.{InRange, exec-InRange}
use uberspark.Driver.Casm.{casm_call, casm_ret_eip, param_setup, param_teardown}
use uberspark.Driver.Casm.Frame.{with_stack, param_teardown_lem}
use uberspark.Driver.Casm.Abi.{Ty, Shape, entered, check}
use uberspark.Driver.Casm.Abi.Slots.{Entry, Has, Slots}
use uberspark.Driver.Casm.Abi.Rules.{Holds, push-Fits}
use uberspark.Driver.Casm.Abi.Soundness.{check-Holds}

-- Do the registers hold again what they held, and is the return address on top of the parameters?
abbrev pub restored : Ty → Ty → Ty → Bool
restored Ty.saved_ebx Ty.saved_esi Ty.saved_edi = true
restored _ _ _ = false

abbrev pub at_return : List Ty → ℕ → Bool
at_return (Ty.return_address ∷ tys) n = length tys == n
at_return _ n = false

abbrev pub returned : Shape → ℕ → Bool
returned sh n = restored sh.ebx sh.esi sh.edi && at_return sh.slots n

-- The check of a function body with parameters of these types and so many words of stack.
unfoldable pub obeys : List Insn → ℕ → List Ty → Bool
obeys code room params = elim (check code (entered room params)) [
  | none ↦ false
  | some sh ↦ returned sh (length params)
]

restored_lem :
    (b i d : Ty)
    → restored b i d ≡ true
    → (b ≡ Ty.saved_ebx) × ((i ≡ Ty.saved_esi) × (d ≡ Ty.saved_edi))
restored_lem Ty.saved_ebx Ty.saved_esi Ty.saved_edi e = (refl, (refl, refl))
restored_lem _ _ _ e = cc

at_return_lem :
    (tys : List Ty) (n : ℕ)
    → at_return tys n ≡ true
    → (rest : List Ty) × ((tys ≡ Ty.return_address ∷ rest) × (length rest ≡ n))
at_return_lem (Ty.return_address ∷ tys) n e = (tys, (refl, ground arith))
at_return_lem _ n e = cc

-- The call that is entered from s, with the stack down to lo and a byte that is watched.
abbrev pub entry : ℕ → ℕ → Cpu → Entry
entry lo watched s = record {
  lo = lo;
  top = s.esp;
  ebx = s.ebx;
  esi = s.esi;
  edi = s.edi;
  eip = casm_ret_eip;
  watched = watched;
  byte = s.machine.obj watched;
}

-- Parameters of these types.
abbrev pub Params : Entry → List ℕ → List Ty → Type 0
Params f [] [] = Unit
Params f (p ∷ ps) (ty ∷ tys) = (p < 2 ^ 32) × (Has f ty p × Params f ps tys)
Params f _ _ = ⊥

-- What a call owes its caller.
pub record Preserved (watched : ℕ) (s t : Cpu) : Type 0 where
  pub ebx_kept : t.ebx ≡ s.ebx
  pub esi_kept : t.esi ≡ s.esi
  pub edi_kept : t.edi ≡ s.edi
  pub esp_kept : t.esp ≡ s.esp
  pub eip_back : t.eip ≡ casm_ret_eip
  pub byte_kept : t.machine.obj watched ≡ s.machine.obj watched
  pub kept_in_range : InRange t

abbrev pushed : ℕ → List Ty → Shape
pushed room tys = record (entered room []) { slots = tys }

Params-Holds :
    (lo watched : ℕ) (s : Cpu) (ps : List ℕ) (tys : List Ty) (n : ℕ)
    → InRange s
    → (watched < lo) ⊎ (s.esp ≤ watched)
    → lo + 4 * (n + length ps) ≤ s.esp
    → Params (entry lo watched s) ps tys
    → Holds (entry lo watched s) (pushed n tys) (param_setup ps s)
unfolding param_setup exec
Params-Holds lo watched s [] [] n r out room fit = (
  r,
  record {
    ebx_fits = refl;
    esi_fits = refl;
    edi_fits = refl;
    ecx_fits = tt;
    low = omega (arith, room);
    high = omega arith;
    in_memory = r.esp_u32;
    apart = out;
    kept = refl;
    stack = tt;
  },
)
Params-Holds lo watched s (p ∷ ps) (ty ∷ tys) n r out room fit =
    let h = Params-Holds lo watched s ps tys (suc n) r out (omega (arith, room)) fit.1.1 in
    let t = param_setup ps s in
    (exec-InRange (Insn.pushl_mem p) t h.0, push-Fits h.1 ty p (suc n) refl fit.0 fit.1.0)
Params-Holds lo watched s [] (_ ∷ _) n r out room fit = elim fit [ ]
Params-Holds lo watched s (_ ∷ _) [] n r out room fit = elim fit [ ]

-- The check of a body with these parameters, taken apart.
obeys-lem :
    (code : List Insn) (room : ℕ) (params : List Ty)
    → obeys code room params ≡ true
    → (sh : Shape) × ((check code (entered room params) ≡ some sh)
        × (returned sh (length params) ≡ true))
unfolding obeys
obeys-lem code room params e = elim (Option-cases (check code (entered room params))) [
  | inl g ↦ let wrong : false ≡ true = rw (obeys, g) at e in cc
  | inr (sh, g) ↦ (sh, (g, rw (obeys, g) at e))
]

both : (a b : Bool) → (a && b) ≡ true → (a ≡ true) × (b ≡ true)
both a b e = ground arith

ret-InRange : (s : Cpu) → InRange s → InRange (ret s)
ret-InRange s h = ground arith

teardown-InRange : (ps : List ℕ) (s : Cpu) → InRange s → InRange (param_teardown ps s)
unfolding param_teardown exec
teardown-InRange [] s h = h
teardown-InRange (p ∷ ps) s h =
    teardown-InRange ps (exec (Insn.addl_imm_esp 4) s) (exec-InRange (Insn.addl_imm_esp 4) s h)

-- The state in which the body of a call starts.
unfoldable pub inside : List ℕ → Cpu → Cpu
inside ps s = exec (Insn.pushl_mem casm_ret_eip) (param_setup ps s)

module _ (lo watched room : ℕ) (s : Cpu) (ps : List ℕ) (params : List Ty) (r : InRange s)
    (out : (watched < lo) ⊎ (s.esp ≤ watched)) where
  pub inside-Holds :
      lo + 4 * (suc room + length ps) ≤ s.esp
      → Params (entry lo watched s) ps params
      → Holds (entry lo watched s) (entered room params) (inside ps s)
  unfolding inside exec
  inside-Holds space fit =
      let h = Params-Holds lo watched s ps params (suc room) r out space fit in
      let t = param_setup ps s in
      (
        exec-InRange (Insn.pushl_mem casm_ret_eip) t h.0,
        push-Fits h.1 Ty.return_address casm_ret_eip (suc room) refl (omega arith) refl,
      )

  -- A body that ends in a shape that may return.
  pub leave-Preserved :
      (sh : Shape) (u : Cpu)
      → returned sh (length params) ≡ true
      → length ps ≡ length params
      → Holds (entry lo watched s) sh u
      → Preserved watched s (param_teardown ps (ret u))
  unfolding with_stack
  leave-Preserved sh u ok same after =
      let f = entry lo watched s in
      let ok2 = both _ _ ok in
      let regs = restored_lem sh.ebx sh.esi sh.edi ok2.0 in
      let back = at_return_lem sh.slots (length params) ok2.1 in
      let words : Slots f u.machine.obj u.esp (Ty.return_address ∷ back.0) =
        subst (λ tys. Slots f u.machine.obj u.esp tys) back.1.0 after.1.stack in
      let whole : length sh.slots ≡ suc (length back.0) = ap length back.1.0 in
      let torn = param_teardown_lem ps (ret u) (omega arith) in
      record {
        ebx_kept = ap Cpu.ebx torn ∙ subst (λ ty. Has f ty u.ebx) regs.0 after.1.ebx_fits;
        esi_kept = ap Cpu.esi torn ∙ subst (λ ty. Has f ty u.esi) regs.1.0 after.1.esi_fits;
        edi_kept = ap Cpu.edi torn ∙ subst (λ ty. Has f ty u.edi) regs.1.1 after.1.edi_fits;
        esp_kept = ap Cpu.esp torn ∙ omega (arith, after.1.high, whole, back.1.1, same, r.esp_u32);
        eip_back = ap Cpu.eip torn ∙ words.0;
        byte_kept = ap (λ (t : Cpu). t.machine.obj watched) torn ∙ after.1.kept;
        kept_in_range = teardown-InRange ps (ret u) (ret-InRange u after.0);
      }

-- A call of straight-line code that the check accepts gives back ebx, esi, edi and the stack
-- pointer, returns to the caller, keeps every register within its width, and changes no byte
-- outside of the stack and of the words that the parameters point to: for every state within the
-- widths of the C types whose stack has room for the call, for all parameters of the types that
-- the check assumed and every byte that is watched, whatever the devices answer.
pub casm_call-Preserved :
    (lo watched room : ℕ) (s : Cpu) (code : List Insn) (ps : List ℕ) (params : List Ty)
    → obeys code room params ≡ true
    → length ps ≡ length params
    → InRange s
    → (watched < lo) ⊎ (s.esp ≤ watched)
    → lo + 4 * (suc room + length ps) ≤ s.esp
    → Params (entry lo watched s) ps params
    → Preserved watched s (casm_call ps (λ t. ret (run code t)) s)
unfolding casm_call inside exec
casm_call-Preserved lo watched room s code ps params ok same r out space fit =
    let c = obeys-lem code room params ok in
    leave-Preserved lo watched room s ps params r out c.0 (run code (inside ps s)) c.1.1 same (
      check-Holds (entry lo watched s) code (entered room params) c.0 (inside ps s) c.1.0
        (inside-Holds lo watched room s ps params r out space fit))
