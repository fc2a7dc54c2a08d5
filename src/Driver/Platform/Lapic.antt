-- ===== src/Driver/Platform/Lapic.antt =====
-- The local APIC on the hardware model.
use uberspark.Base.{
  ℕ, ◌+◌, ◌^◌, ◌<◌, ◌≡◌, ap, ◌∙◌, arith, has, has-cases, bit, bit_or, bit_or-pow, bit_or-lt, inl,
  inr, u32, u64, ◌<<◌, ◌>>◌, true, [], ◌∷◌,
}
use uberspark.Hwm.Cpu.{Cpu, edx_eax, msr_apic_base}
use uberspark.Driver.Casm.{casm_call, casm_funccall}
use uberspark.Driver.Casm.Calls.{edx_eax-add}
use uberspark.Driver.Casm.MsrCalls.{call-rdmsr64, leaf_frame}
use uberspark.Driver.Casm.Msr.{rdmsr64}
use uberspark.Driver.Platform.{isbsp}

flag_set : (x : ℕ) → has (bit_or x 0x100) 0x100 ≡ true
flag_set x = elim (has-cases 8 (bit_or x 256)) [ inl e ↦ e.0 | inr e ↦ elim (not_clear e.1) [ ] ]
  where
    not_clear : bit (bit_or x 256) 8 ≡ 0 → ⊥
    not_clear z = omega (arith, bit_or-pow 8 x, z)

-- On the hardware model every processor is told that it is the boot processor, whatever its base register
-- holds, because the model of rdmsr sets the flag on every read.
pub isbsp_lem : (s : Cpu) → s.esp < 2 ^ 32 → (isbsp s).0 ≡ true
unfolding isbsp casm_funccall
isbsp_lem s h =
    let base = (leaf_frame s (msr_apic_base ∷ [])).apic_base in
    let value = edx_eax (casm_call (msr_apic_base ∷ []) (λ t. (rdmsr64 t).1) s) in
    let low_word = bit_or (u32 base) 0x100 in
    let small : low_word < 2 ^ 32 = bit_or-lt 32 (u32 base) 0x100 (omega arith) (omega arith) in
    let parts : value ≡ u64 (u32 (base >> 32) << 32) + low_word =
      ap edx_eax (call-rdmsr64 s msr_apic_base (omega arith) h)
      ∙ edx_eax-add (u32 (base >> 32)) low_word small in
    let low : u32 value ≡ low_word = omega (arith, parts, small) in
    ap (λ (v : ℕ). has v 0x100) low ∙ flag_set (u32 base)
