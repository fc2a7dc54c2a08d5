-- ===== src/Driver/Mtrr/RoundTrip.antt =====
-- src/libs/libxmhfhw/xmhfhw_cpu_mtrrsave.c and xmhfhw_cpu_mtrrrestore.c: what was saved is what stands
-- in the registers after the restore.
use uberspark.Base.{
  ℕ, zero, suc, ◌+◌, ◌*◌, ◌^◌, ◌≤◌, ◌<◌, ◌≡◌, ◌≢◌, ◌⊎◌, inl, inr, refl, subst, ap, sym, ◌∙◌, arith,
  false,
}
use native.Mathlib.Decide.{dec_lt}
use uberspark.Regs.MtrrDefType.{
  pack_mtrr_def_type, unpack_mtrr_def_type, pack_mtrr_def_type-unpack_mtrr_def_type,
}
use uberspark.Regs.MtrrPhysbase.{
  pack_mtrr_physbase, unpack_mtrr_physbase, pack_mtrr_physbase-unpack_mtrr_physbase,
}
use uberspark.Regs.MtrrPhysmask.{
  pack_mtrr_physmask, unpack_mtrr_physmask, pack_mtrr_physmask-unpack_mtrr_physmask,
}
use uberspark.Driver.Mtrr.{
  save_ranges, restore_ranges, save_mtrrs, restore_mtrrs, num_var_mtrrs, msr_mtrr_def_type,
  set_all_mtrrs, max_variable_mtrrs,
}

-- The default type register and the sixteen pairs of range registers.
abbrev pub IsMtrr : ℕ → Type 0
IsMtrr n = (n ≡ msr_mtrr_def_type) ⊎ ((0x200 ≤ n) × (n < 0x200 + max_variable_mtrrs * 2))

-- Which values a register accepts is the processor's: reserved bits must be zero, and a read-only
-- register accepts none. A register keeps a value that it accepts, and no other register changes; a
-- memory type register accepts the value that it holds.
module _ {S : Type 0} (rdmsr64 : S → ℕ → ℕ) (wrmsr64 : S → ℕ → ℕ → S) (Accepts : ℕ → ℕ → Type 0)
    (kept : (s : S) (n v : ℕ) → Accepts n v → rdmsr64 (wrmsr64 s n v) n ≡ v)
    (apart : (s : S) (n k v : ℕ) → n ≢ k → Accepts n v → rdmsr64 (wrmsr64 s n v) k ≡ rdmsr64 s k)
    (held : (s : S) (n : ℕ) → IsMtrr n → Accepts n (rdmsr64 s n))
    (u64_lt : (s : S) (n : ℕ) → rdmsr64 s n < 2 ^ 64) where
  -- What is saved of a register and packed again is what it held.
  base_eq : (s : S) (n : ℕ) → pack_mtrr_physbase (unpack_mtrr_physbase (rdmsr64 s n)) ≡ rdmsr64 s n
  base_eq s n = pack_mtrr_physbase-unpack_mtrr_physbase _ (u64_lt s n)

  mask_eq : (s : S) (n : ℕ) → pack_mtrr_physmask (unpack_mtrr_physmask (rdmsr64 s n)) ≡ rdmsr64 s n
  mask_eq s n = pack_mtrr_physmask-unpack_mtrr_physmask _ (u64_lt s n)

  again : (s : S) (n v : ℕ) → IsMtrr n → v ≡ rdmsr64 s n → Accepts n v
  again s n v h e = subst (Accepts n) (sym e) (held s n h)

  pair : (ndx n : ℕ) → ndx < 16 → 0x200 + ndx * 2 ≤ n → n ≤ 0x201 + ndx * 2 → IsMtrr n
  pair ndx n h lo hi = inr (omega arith, omega arith)

  base_again :
      (s : S) (ndx : ℕ)
      → ndx < 16
      → Accepts
          (0x200 + ndx * 2)
          (pack_mtrr_physbase (unpack_mtrr_physbase (rdmsr64 s (0x200 + ndx * 2))))
  base_again s ndx h = again s _ _ (pair ndx _ h (omega arith) (omega arith)) (base_eq s _)

  mask_again :
      (s : S) (ndx : ℕ)
      → ndx < 16
      → Accepts
          (0x201 + ndx * 2)
          (pack_mtrr_physmask (unpack_mtrr_physmask (rdmsr64 s (0x201 + ndx * 2))))
  mask_again s ndx h = again s _ _ (pair ndx _ h (omega arith) (omega arith)) (mask_eq s _)

  restore_ranges-below :
      (n ndx x : ℕ) (s t : S)
      → ndx + n ≤ 16
      → x < 0x200 + ndx * 2
      → rdmsr64 (restore_ranges rdmsr64 wrmsr64 (save_ranges rdmsr64 wrmsr64 n ndx s) ndx t) x
        ≡ rdmsr64 t x
  unfolding restore_ranges save_ranges
  restore_ranges-below zero ndx x s t g h = refl
  restore_ranges-below (suc n) ndx x s t g h =
      restore_ranges-below n (ndx + 1) x s _ (omega arith) (omega arith)
      ∙ apart _ (0x200 + ndx * 2) x _ (omega arith) (base_again s ndx (omega arith))
      ∙ apart _ (0x201 + ndx * 2) x _ (omega arith) (mask_again s ndx (omega arith))

  restore_ranges-saved :
      (n ndx x : ℕ) (s t : S)
      → ndx + n ≤ 16
      → 0x200 + ndx * 2 ≤ x
      → x < 0x200 + (ndx + n) * 2
      → rdmsr64 (restore_ranges rdmsr64 wrmsr64 (save_ranges rdmsr64 wrmsr64 n ndx s) ndx t) x
        ≡ rdmsr64 s x
  unfolding restore_ranges save_ranges
  restore_ranges-saved zero ndx x s t g lo hi = absurd (omega arith)
  restore_ranges-saved (suc n) ndx x s t g lo hi =
      let base = pack_mtrr_physbase (unpack_mtrr_physbase (rdmsr64 s (0x200 + ndx * 2))) in
      let mask = pack_mtrr_physmask (unpack_mtrr_physmask (rdmsr64 s (0x201 + ndx * 2))) in
      let base_ok = base_again s ndx (omega arith) in
      let mask_ok = mask_again s ndx (omega arith) in
      let t1 = wrmsr64 t (0x201 + ndx * 2) mask in
      let t2 = wrmsr64 t1 (0x200 + ndx * 2) base in
      elim (dec_lt x (0x200 + (ndx + 1) * 2)) [
        | no q ↦ restore_ranges-saved n (ndx + 1) x s t2 (omega arith) (omega arith) (omega arith)
        | yes l ↦
            restore_ranges-below n (ndx + 1) x s t2 (omega arith) l
            ∙ elim (dec_lt (0x200 + ndx * 2) x) [
              | yes odd ↦
                  let at : 0x201 + ndx * 2 ≡ x = omega arith in
                  apart t1 (0x200 + ndx * 2) x base (omega arith) base_ok
                  ∙ ap (rdmsr64 t1) (sym at)
                  ∙ kept t (0x201 + ndx * 2) mask mask_ok
                  ∙ mask_eq s _
                  ∙ ap (rdmsr64 s) at
              | no even ↦
                  let at : 0x200 + ndx * 2 ≡ x = omega arith in
                  ap (rdmsr64 t2) (sym at)
                  ∙ kept t1 (0x200 + ndx * 2) base base_ok
                  ∙ base_eq s _
                  ∙ ap (rdmsr64 s) at
            ]
      ]

  def_type_eq :
      (s : S)
      → pack_mtrr_def_type (unpack_mtrr_def_type (rdmsr64 s msr_mtrr_def_type))
        ≡ rdmsr64 s msr_mtrr_def_type
  def_type_eq s = pack_mtrr_def_type-unpack_mtrr_def_type _ (u64_lt s _)

  -- For processor calls that read values below 2 ^ 64, with which a register keeps a value that it
  -- accepts and no other register changes, and a memory type register accepts the value that it
  -- holds: if there are fewer than sixteen variable ranges, as the contract of the restore asks,
  -- then whatever state the processor has reached, restoring a saved state puts into the default
  -- type register and into every variable range register that was saved the value it had when the
  -- state was saved.
  pub restore_mtrrs-save_mtrrs :
      (s t : S) (x : ℕ)
      → num_var_mtrrs rdmsr64 wrmsr64 s < max_variable_mtrrs
      → (x ≡ msr_mtrr_def_type) ⊎ ((0x200 ≤ x) × (x < 0x200 + num_var_mtrrs rdmsr64 wrmsr64 s * 2))
      → rdmsr64 (restore_mtrrs rdmsr64 wrmsr64 (save_mtrrs rdmsr64 wrmsr64 s) t) x ≡ rdmsr64 s x
  unfolding restore_mtrrs save_mtrrs
  restore_mtrrs-save_mtrrs s t x few (inl e) =
      ap (rdmsr64 _) e
      ∙ kept _ msr_mtrr_def_type _ (again s _ _ (inl refl) (def_type_eq s))
      ∙ def_type_eq s
      ∙ ap (rdmsr64 s) (sym e)
  restore_mtrrs-save_mtrrs s t x few (inr (lo, hi)) =
      apart _ msr_mtrr_def_type x _ (omega arith) (again s _ _ (inl refl) (def_type_eq s))
      ∙ restore_ranges-saved (num_var_mtrrs rdmsr64 wrmsr64 s) 0 x s
          (set_all_mtrrs rdmsr64 wrmsr64 false t) (omega arith) (omega arith) (omega arith)
