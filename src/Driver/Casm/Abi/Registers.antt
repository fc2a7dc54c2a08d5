-- ===== src/Driver/Casm/Abi/Registers.antt =====
-- The rules of the typing that change what is said of a register: loads from the stack, pops and
-- instructions that lose a register.
use uberspark.Base.{
  ℕ, suc, ◌+◌, ◌*◌, ◌≤◌, ◌≡◌, subst, ap, arith, u32, List, [], ◌∷◌, length, ◌%◌, ◌/◌, ◌==◌, inl,
  inr, Bool-cases,
}
use uberspark.Hwm.Obj.{Memory, load32}
use uberspark.Driver.Casm.Abi.{Ty, Shape, slot, pop_of, drop, into_ebx, into_esi, into_edi}
use uberspark.Driver.Casm.Abi.Slots.{Entry, Has, Slots, slot-Slots}
use uberspark.Driver.Casm.Abi.Rules.{Fits, FitsAfter}

module _ {f : Entry} {sh : Shape} {esp ebx esi edi ecx : ℕ} {m : Memory}
    (h : Fits f sh esp ebx esi edi ecx m) where
  pub slot-Has : (k : ℕ) → Has f (slot sh k) (u32 (load32 m (u32 (esp + k))))
  slot-Has k = elim (Bool-cases (k % 4 == 0)) [
    | inl e ↦
        let at : u32 (esp + k) ≡ u32 (esp + 4 * (k / 4)) = ground arith in
        rw (e, at)
          (slot-Slots f m esp sh.slots (k / 4) (omega (arith, h.high, h.in_memory)) h.stack)
    | inr e ↦ rw (e) tt
  ]

  -- The stack after a pop, and what the word taken off was.
  popped :
      (ty : Ty) (tys : List Ty)
      → sh.slots ≡ ty ∷ tys
      → (f.lo + 4 * suc sh.room ≤ u32 (esp + 4))
        × ((u32 (esp + 4) + 4 * length tys ≡ f.top)
            × (Has f ty (u32 (load32 m esp)) × Slots f m (u32 (esp + 4)) tys))
  popped ty tys e =
      let n : length sh.slots ≡ suc (length tys) = ap length e in
      let up : u32 (esp + 4) ≡ esp + 4 = omega (arith, n, h.high, h.in_memory) in
      let whole : Slots f m esp (ty ∷ tys) = subst (λ x. Slots f m esp x) e h.stack in
      (
        omega (arith, n, h.high, h.low, h.in_memory),
        (omega (arith, n, h.high, h.in_memory), (whole.0, rw (up) (whole.1))),
      )

  pub pop-Fits :
      (tys : List Ty)
      → sh.slots ≡ tys
      → FitsAfter f (pop_of tys drop sh) (u32 (esp + 4)) ebx esi edi ecx m
  pop-Fits [] e = tt
  pop-Fits (ty ∷ tys) e =
      let c = popped ty tys e in
      record {
        ebx_fits = h.ebx_fits;
        esi_fits = h.esi_fits;
        edi_fits = h.edi_fits;
        ecx_fits = h.ecx_fits;
        low = c.0;
        high = c.1.0;
        in_memory = h.in_memory;
        apart = h.apart;
        kept = h.kept;
        stack = c.1.1.1;
      }

  pub pop_ebx-Fits :
      (tys : List Ty)
      → sh.slots ≡ tys
      → FitsAfter f (pop_of tys into_ebx sh) (u32 (esp + 4)) (u32 (load32 m esp)) esi edi ecx m
  pop_ebx-Fits [] e = tt
  pop_ebx-Fits (ty ∷ tys) e =
      let c = popped ty tys e in
      record {
        ebx_fits = c.1.1.0;
        esi_fits = h.esi_fits;
        edi_fits = h.edi_fits;
        ecx_fits = h.ecx_fits;
        low = c.0;
        high = c.1.0;
        in_memory = h.in_memory;
        apart = h.apart;
        kept = h.kept;
        stack = c.1.1.1;
      }

  pub pop_esi-Fits :
      (tys : List Ty)
      → sh.slots ≡ tys
      → FitsAfter f (pop_of tys into_esi sh) (u32 (esp + 4)) ebx (u32 (load32 m esp)) edi ecx m
  pop_esi-Fits [] e = tt
  pop_esi-Fits (ty ∷ tys) e =
      let c = popped ty tys e in
      record {
        ebx_fits = h.ebx_fits;
        esi_fits = c.1.1.0;
        edi_fits = h.edi_fits;
        ecx_fits = h.ecx_fits;
        low = c.0;
        high = c.1.0;
        in_memory = h.in_memory;
        apart = h.apart;
        kept = h.kept;
        stack = c.1.1.1;
      }

  pub pop_edi-Fits :
      (tys : List Ty)
      → sh.slots ≡ tys
      → FitsAfter f (pop_of tys into_edi sh) (u32 (esp + 4)) ebx esi (u32 (load32 m esp)) ecx m
  pop_edi-Fits [] e = tt
  pop_edi-Fits (ty ∷ tys) e =
      let c = popped ty tys e in
      record {
        ebx_fits = h.ebx_fits;
        esi_fits = h.esi_fits;
        edi_fits = c.1.1.0;
        ecx_fits = h.ecx_fits;
        low = c.0;
        high = c.1.0;
        in_memory = h.in_memory;
        apart = h.apart;
        kept = h.kept;
        stack = c.1.1.1;
      }

  pub into_ebx-Fits :
      (ty : Ty) (v : ℕ) → Has f ty v → Fits f (record sh { ebx = ty }) esp v esi edi ecx m
  into_ebx-Fits ty v has = record {
    ebx_fits = has;
    esi_fits = h.esi_fits;
    edi_fits = h.edi_fits;
    ecx_fits = h.ecx_fits;
    low = h.low;
    high = h.high;
    in_memory = h.in_memory;
    apart = h.apart;
    kept = h.kept;
    stack = h.stack;
  }

  pub into_esi-Fits :
      (ty : Ty) (v : ℕ) → Has f ty v → Fits f (record sh { esi = ty }) esp ebx v edi ecx m
  into_esi-Fits ty v has = record {
    ebx_fits = h.ebx_fits;
    esi_fits = has;
    edi_fits = h.edi_fits;
    ecx_fits = h.ecx_fits;
    low = h.low;
    high = h.high;
    in_memory = h.in_memory;
    apart = h.apart;
    kept = h.kept;
    stack = h.stack;
  }

  pub into_edi-Fits :
      (ty : Ty) (v : ℕ) → Has f ty v → Fits f (record sh { edi = ty }) esp ebx esi v ecx m
  into_edi-Fits ty v has = record {
    ebx_fits = h.ebx_fits;
    esi_fits = h.esi_fits;
    edi_fits = has;
    ecx_fits = h.ecx_fits;
    low = h.low;
    high = h.high;
    in_memory = h.in_memory;
    apart = h.apart;
    kept = h.kept;
    stack = h.stack;
  }

  pub into_ecx-Fits :
      (ty : Ty) (v : ℕ) → Has f ty v → Fits f (record sh { ecx = ty }) esp ebx esi edi v m
  into_ecx-Fits ty v has = record {
    ebx_fits = h.ebx_fits;
    esi_fits = h.esi_fits;
    edi_fits = h.edi_fits;
    ecx_fits = has;
    low = h.low;
    high = h.high;
    in_memory = h.in_memory;
    apart = h.apart;
    kept = h.kept;
    stack = h.stack;
  }

  -- The two registers that cpuid loses, and a bit instruction that leaves the word alone.
  pub forget-Fits : (b c : ℕ) → Fits f (record sh { ebx = Ty.any; ecx = Ty.any }) esp b esi edi c m
  forget-Fits b c = record {
    ebx_fits = tt;
    esi_fits = h.esi_fits;
    edi_fits = h.edi_fits;
    ecx_fits = tt;
    low = h.low;
    high = h.high;
    in_memory = h.in_memory;
    apart = h.apart;
    kept = h.kept;
    stack = h.stack;
  }
