-- ===== src/Driver/Casm/Harness/Branches.antt =====
-- The harness: the drivers of the functions that jump, and of the lock.
use uberspark.Base.{
  ℕ, ◌⊎◌, ◌+◌, ◌^◌, ◌≤◌, ◌<◌, ◌≡◌, ◌≢◌, inl, inr, refl, sym, ap, ◌∙◌, arith, u32, List, [], ◌∷◌,
  true, Bool-cases, some,
}
use mathlib.Core.Option
use native.Mathlib.Nat.{pow-le-pow_right}
use native.Mathlib.Decide.{dec_lt}
use uberspark.Hwm.Cpu.{Cpu, load}
use uberspark.Hwm.Cpu.Insn.{Insn, run, exec}
use uberspark.Hwm.Cpu.Jump.{ret, retu32, jbe, jc, jz}
use uberspark.Driver.Casm.{casm_ret_eip, param_setup}
use uberspark.Driver.Casm.Frame.{load-param_setup}
use uberspark.Driver.Casm.Abi.{Ty, check, step}
use uberspark.Driver.Casm.Abi.Convention.{obeys, inside}
use uberspark.Driver.Casm.Abi.Slots.{IsAway}
use uberspark.Driver.Casm.Harness.{valued, cabi_establish}
use uberspark.Driver.Casm.Harness.Laws.{Conforms, Straight, frame, Straight-Conforms}
use uberspark.Driver.Casm.Harness.Calling.{calling-Conforms}
use uberspark.Driver.Casm.Harness.Drivers
use uberspark.Driver.Casm.Vmx.{
  one_unless_jbe, vmx_vmxon, vmx_vmclear, vmx_vmptrld, vmx_invept, invept_insns, bsrl,
}
use uberspark.Driver.Casm.Scan.{bsrl_lem}
use uberspark.Driver.Casm.Lock.{spin_unlock}

-- What the two ends of `jbe` amount to.
one_unless_jbe_lem :
    (i : Insn) (f : Cpu → ℕ × Cpu)
    → obeys (i ∷ Insn.movl_imm_eax 0 ∷ []) 8 (Ty.any ∷ []) ≡ true
    → obeys (i ∷ Insn.movl_imm_eax 1 ∷ []) 8 (Ty.any ∷ []) ≡ true
    → ((s : Cpu) → f s ≡ retu32 (one_unless_jbe (run (i ∷ []) s)))
    → (s : Cpu) → Straight (λ t. some (f t).1) (Ty.any ∷ []) s
unfolding one_unless_jbe run
one_unless_jbe_lem i f zero_ok one_ok e s = elim (Bool-cases (jbe (exec i s))) [
  | inl g ↦ record {
    code = i ∷ Insn.movl_imm_eax 0 ∷ [];
    accepted = zero_ok;
    amounts = ap (λ r. some r.1) (e s) ∙ rw (g) refl;
  }
  | inr g ↦ record {
    code = i ∷ Insn.movl_imm_eax 1 ∷ [];
    accepted = one_ok;
    amounts = ap (λ r. some r.1) (e s) ∙ rw (g) refl;
  }
]

module _ (watched lo top : ℕ) (out : (watched < lo) ⊎ (top ≤ watched)) (space : lo + 64 ≤ top) where
  vmx-Conforms :
      (p : ℕ) (f : Cpu → ℕ × Cpu)
      → p < 2 ^ 32
      → ((s : Cpu) → Straight (λ t. some (f t).1) (Ty.any ∷ []) s)
      → Conforms watched top (valued (p ∷ []) f)
  vmx-Conforms p f small st =
      Straight-Conforms watched lo top (valued (p ∷ []) f) (Ty.any ∷ []) out (omega (arith, space))
        refl (λ byte. (small, (tt, tt))) (λ h r. st _)

  pub drv_vmxon-Conforms :
      (buf_vmxon : ℕ) → buf_vmxon < 2 ^ 32 → Conforms watched top (Drivers.drv_vmxon buf_vmxon)
  unfolding obeys check step vmx_vmxon
  drv_vmxon-Conforms p small =
      vmx-Conforms p vmx_vmxon small
        (one_unless_jbe_lem (Insn.vmxon_mesp 4) vmx_vmxon refl refl (λ s. refl))

  pub drv_vmclear-Conforms :
      (buf_vmcs : ℕ) → buf_vmcs < 2 ^ 32 → Conforms watched top (Drivers.drv_vmclear buf_vmcs)
  unfolding obeys check step vmx_vmclear
  drv_vmclear-Conforms p small =
      vmx-Conforms p vmx_vmclear small
        (one_unless_jbe_lem (Insn.vmclear_mesp 4) vmx_vmclear refl refl (λ s. refl))

  pub drv_vmptrld-Conforms :
      (buf_vmcs : ℕ) → buf_vmcs < 2 ^ 32 → Conforms watched top (Drivers.drv_vmptrld buf_vmcs)
  unfolding obeys check step vmx_vmptrld
  drv_vmptrld-Conforms p small =
      vmx-Conforms p vmx_vmptrld small
        (one_unless_jbe_lem (Insn.vmptrld_mesp 4) vmx_vmptrld refl refl (λ s. refl))

  pub drv_spinunlock-Conforms :
      (smplock : ℕ)
      → IsAway (frame watched 0 lo top) smplock
      → Conforms watched top (Drivers.drv_spinunlock smplock)
  unfolding obeys check step spin_unlock
  drv_spinunlock-Conforms p away =
      calling-Conforms watched lo top (p ∷ []) (Ty.away ∷ []) spin_unlock
        (Insn.movl_mesp_ecx 0x4 ∷ Insn.btsl_imm_mecx 0x0 0x0 ∷ []) out space (omega arith) refl
        (λ byte. (omega (arith, away.1.0), (away, tt))) refl (λ s. refl)

  abbrev invept_to : Insn → List Insn
  invept_to i =
      Insn.subl_imm_esp 0x10
      ∷ Insn.movl_mesp_edx 0x14
      ∷ Insn.movl_mesp_eax 0x1C
      ∷ Insn.movl_eax_mesp 0x0
      ∷ Insn.movl_mesp_eax 0x20
      ∷ Insn.movl_eax_mesp 0x4
      ∷ Insn.movl_imm_mesp 0x0 0x8
      ∷ Insn.movl_imm_mesp 0x0 0xC
      ∷ Insn.invept_mesp_edx 0x0
      ∷ i
      ∷ Insn.addl_imm_esp 0x10
      ∷ []

  invept_lem :
      (s : Cpu) → Straight (λ t. some (vmx_invept t).1) (Ty.any ∷ Ty.any ∷ Ty.any ∷ Ty.any ∷ []) s
  unfolding obeys check step vmx_invept invept_insns run
  invept_lem s = elim (Bool-cases (jc (run invept_insns s))) [
    | inl c ↦ record {
      code = invept_to (Insn.movl_imm_eax 1);
      accepted = refl;
      amounts = rw (c) refl;
    }
    | inr c ↦ elim (Bool-cases (jz (run invept_insns s))) [
      | inl z ↦ record {
        code = invept_to (Insn.movl_imm_eax 1);
        accepted = refl;
        amounts = rw (c, z) refl;
      }
      | inr z ↦ record {
        code = invept_to Insn.xorl_eax_eax;
        accepted = refl;
        amounts = rw (c, z) refl;
      }
    ]
  ]

  pub drv_invept-Conforms :
      (n1 n2 n3 n4 : ℕ)
      → n1 < 2 ^ 32
      → n2 < 2 ^ 32
      → n3 < 2 ^ 32
      → n4 < 2 ^ 32
      → Conforms watched top (Drivers.drv_invept n1 n2 n3 n4)
  drv_invept-Conforms n1 n2 n3 n4 h1 h2 h3 h4 =
      Straight-Conforms watched lo top (Drivers.drv_invept n1 n2 n3 n4)
        (Ty.any ∷ Ty.any ∷ Ty.any ∷ Ty.any ∷ []) out (omega (arith, space)) refl
        (λ byte. (h1, (tt, (h2, (tt, (h3, (tt, (h4, (tt, tt))))))))) (λ h r. invept_lem _)

  place_small : (i v : ℕ) → 2 ^ i ≤ v → v < 2 ^ 32 → i < 32
  place_small i v l g = elim (dec_lt i 32) [
    | yes h ↦ h
    | no h ↦
        let far = pow-le-pow_right {n = 2} (omega arith) {i = 32} {j = i} (omega (arith, h)) in
        omega (arith, far, l, g)
  ]

  bsrl_lem-Straight :
      (u : Cpu)
      → load u (u32 (u.esp + 4)) ≢ 0
      → Straight (λ t. Option.map (λ r. r.1) (bsrl t)) (Ty.any ∷ []) u
  unfolding obeys check step run exec
  bsrl_lem-Straight u ne = elim (bsrl_lem u) [
    | inl z ↦ elim (ne z.0) [ ]
    | inr (i, l, g, e) ↦
        let small = place_small i (load u (u32 (u.esp + 4))) l (omega arith) in
        let same : u32 i ≡ i = omega (arith, small) in
        record {
          code = Insn.movl_imm_eax i ∷ [];
          accepted = refl;
          amounts =
              ap (Option.map (λ r. r.1)) e
              ∙ ap (λ (k : ℕ). some (ret (record u { eax = k }))) (sym same);
        }
  ]

  pub drv_bsrl-Conforms :
      (param1 : ℕ) → param1 ≢ 0 → param1 < 2 ^ 32 → Conforms watched top (Drivers.drv_bsrl param1)
  unfolding inside param_setup exec cabi_establish
  drv_bsrl-Conforms p ne small =
      Straight-Conforms watched lo top (Drivers.drv_bsrl p) (Ty.any ∷ []) out (omega (arith, space))
        refl (λ byte. (small, (tt, tt)))
        (λ h r.
          let s = (cabi_establish h).cpu in
          let u = inside (p ∷ []) s in
          let v : load u (u32 (u.esp + 4)) ≡ p =
            load-param_setup (casm_ret_eip ∷ p ∷ []) 1 p s refl small (omega arith) r.esp_u32 in
          bsrl_lem-Straight u (λ z. ne (sym v ∙ z)))
