-- ===== src/Driver/Casm/Abi/Rules.antt =====
-- The rules of the typing one by one: what a shape says of the registers and the stack, and that the
-- instruction of a rule keeps it true.
use uberspark.Base.{
  ℕ, ◌∙◌, ◌⊎◌, zero, suc, ◌+◌, ◌*◌, ◌^◌, ◌≤◌, ◌<◌, ◌≡◌, subst, ap, arith, u32, sub32, Option, none,
  some, List, [], ◌∷◌, length, ◌%◌, ◌/◌, ◌==◌, inl, inr, true, Bool-cases, ltb, leb, ◌&&◌,
}
use uberspark.Hwm.Obj.{Memory, store32}
use uberspark.Hwm.Cpu.{Cpu}
use uberspark.Hwm.Cpu.Ranges.{InRange}
use uberspark.Driver.Casm.Abi.{Ty, Shape, push_within, overwrite, two_of, through, reserve, release}
use uberspark.Driver.Casm.Abi.Slots.{
  Entry, Has, Slots, store-byte, reserve-Slots, skip-Slots, length-reserved, length-skip,
  length-set, overwrite-Slots, push-Slots, store-Slots, same-Slots,
}

-- The values that a shape describes.
pub record Fits (f : Entry) (sh : Shape) (esp ebx esi edi ecx : ℕ) (m : Memory) : Type 0 where
  pub ebx_fits : Has f sh.ebx ebx
  pub esi_fits : Has f sh.esi esi
  pub edi_fits : Has f sh.edi edi
  pub ecx_fits : Has f sh.ecx ecx
  pub low : f.lo + 4 * sh.room ≤ esp
  pub high : esp + 4 * length sh.slots ≡ f.top
  pub in_memory : f.top < 2 ^ 32
  pub apart : (f.watched < f.lo) ⊎ (f.top ≤ f.watched)
  pub kept : m f.watched ≡ f.byte
  pub stack : Slots f m esp sh.slots

-- The shape after an instruction fits, if it has one.
abbrev pub FitsAfter : Entry → Option Shape → ℕ → ℕ → ℕ → ℕ → ℕ → Memory → Type 0
FitsAfter f none esp ebx esi edi ecx m = Unit
FitsAfter f (some sh) esp ebx esi edi ecx m = Fits f sh esp ebx esi edi ecx m

abbrev pub Holds : Entry → Shape → Cpu → Type 0
Holds f sh s = InRange s × Fits f sh s.esp s.ebx s.esi s.edi s.ecx s.machine.obj

abbrev pub HoldsAfter : Entry → Option Shape → Cpu → Type 0
HoldsAfter f o s = InRange s × FitsAfter f o s.esp s.ebx s.esi s.edi s.ecx s.machine.obj

-- A Boolean test that a rule makes of an index.
divides : (k n : ℕ) → ((k % 4 == 0) && leb (k / 4) n) ≡ true → (k ≡ 4 * (k / 4)) × (k / 4 ≤ n)
divides k n e = ground arith

divides_lt : (k n : ℕ) → ((k % 4 == 0) && ltb (k / 4) n) ≡ true → (k ≡ 4 * (k / 4)) × (k / 4 < n)
divides_lt k n e = ground arith

module _ {f : Entry} {sh : Shape} {esp ebx esi edi ecx : ℕ} {m : Memory}
    (h : Fits f sh esp ebx esi edi ecx m) where
  -- A word of the stack is stored.
  stored : (w v : ℕ) → f.lo ≤ w → w + 4 ≤ f.top → w + 4 ≤ 2 ^ 32 → store32 m w v f.watched ≡ f.byte
  stored w v l g fits = elim (h.apart) [
    | inl a ↦ store-byte m w v f.watched (inl (omega (arith, a, l))) fits ∙ h.kept
    | inr a ↦ store-byte m w v f.watched (inr (omega (arith, a, g))) fits ∙ h.kept
  ]

  pub push-Fits :
      (ty : Ty) (w : ℕ) (room : ℕ)
      → sh.room ≡ room
      → w < 2 ^ 32
      → Has f ty w
      → FitsAfter f
          (push_within room ty sh)
          (sub32 esp 4)
          ebx
          esi
          edi
          ecx
          (store32 m (sub32 esp 4) w)
  push-Fits ty w zero e small has = tt
  push-Fits ty w (suc n) e small has = record {
    ebx_fits = h.ebx_fits;
    esi_fits = h.esi_fits;
    edi_fits = h.edi_fits;
    ecx_fits = h.ecx_fits;
    low = omega (arith, h.low, h.high, h.in_memory, e);
    high = omega (arith, h.high, h.low, e);
    in_memory = h.in_memory;
    apart = h.apart;
    kept =
        stored (sub32 esp 4) w (omega (arith, h.low, h.high, e, h.in_memory))
          (omega (arith, h.low, h.high, e, h.in_memory))
          (omega (arith, h.low, h.high, e, h.in_memory));
    stack =
        push-Slots f m (sub32 esp 4) esp w ty sh.slots
          (omega (arith, h.low, h.high, e, h.in_memory)) (omega (arith, h.high, h.in_memory)) small
          has h.stack;
  }

  pub overwrite-Fits :
      (k v : ℕ) → FitsAfter f (overwrite k sh) esp ebx esi edi ecx (store32 m (u32 (esp + k)) v)
  overwrite-Fits k v = elim (Bool-cases ((k % 4 == 0) && ltb (k / 4) (length sh.slots))) [
    | inl e ↦
        let g = divides_lt k (length sh.slots) e in
        rw (e) (record {
          ebx_fits = h.ebx_fits;
          esi_fits = h.esi_fits;
          edi_fits = h.edi_fits;
          ecx_fits = h.ecx_fits;
          low = h.low;
          high = rw (length-set sh.slots (k / 4)) h.high;
          in_memory = h.in_memory;
          apart = h.apart;
          kept =
              stored (u32 (esp + k)) v (omega (arith, g.0, g.1, h.low, h.high, h.in_memory))
                (omega (arith, g.0, g.1, h.low, h.high, h.in_memory))
                (omega (arith, g.0, g.1, h.low, h.high, h.in_memory));
          stack =
              overwrite-Slots f m esp (u32 (esp + k)) v sh.slots (k / 4)
                (omega (arith, g.0, g.1, h.high, h.in_memory)) (omega (arith, h.high, h.in_memory))
                (omega (arith, g.0, g.1, h.high, h.in_memory)) h.stack;
        })
    | inr e ↦ rw (e) tt
  ]

  pub through-Fits :
      (ty : Ty) (k p v : ℕ)
      → Has f ty p
      → FitsAfter f (through ty k sh) esp ebx esi edi ecx (store32 m (u32 (p + k)) v)
  through-Fits Ty.away zero p v has =
      let at : u32 (p + 0) ≡ p = omega (arith, has.1.0) in
      rw (at) (record {
        ebx_fits = h.ebx_fits;
        esi_fits = h.esi_fits;
        edi_fits = h.edi_fits;
        ecx_fits = h.ecx_fits;
        low = h.low;
        high = h.high;
        in_memory = h.in_memory;
        apart = h.apart;
        kept = store-byte m p v f.watched has.1.1 has.1.0 ∙ h.kept;
        stack = elim (has.0) [
          | inl g ↦
              store-Slots f m esp p v sh.slots (inl (omega (arith, g, h.low))) has.1.0
                (omega (arith, h.high, h.in_memory)) h.stack
          | inr g ↦
              store-Slots f m esp p v sh.slots (inr (omega (arith, g, h.high))) has.1.0
                (omega (arith, h.high, h.in_memory)) h.stack
        ];
      })
  through-Fits _ _ p v has = tt

  pub reserve-Fits : (k : ℕ) → FitsAfter f (reserve k sh) (sub32 esp (u32 k)) ebx esi edi ecx m
  reserve-Fits k = elim (Bool-cases ((k % 4 == 0) && leb (k / 4) sh.room)) [
    | inl e ↦
        let g = divides k sh.room e in
        rw (e) (record {
          ebx_fits = h.ebx_fits;
          esi_fits = h.esi_fits;
          edi_fits = h.edi_fits;
          ecx_fits = h.ecx_fits;
          low = omega (arith, g.0, g.1, h.low, h.high, h.in_memory);
          high =
              omega (arith, g.0, g.1, h.low, h.high, h.in_memory, length-reserved (k / 4) sh.slots);
          in_memory = h.in_memory;
          apart = h.apart;
          kept = h.kept;
          stack =
              reserve-Slots f m (sub32 esp (u32 k)) esp (k / 4) sh.slots
                (omega (arith, g.0, g.1, h.low, h.high, h.in_memory)) h.stack;
        })
    | inr e ↦ rw (e) tt
  ]

  pub release-Fits : (k : ℕ) → FitsAfter f (release k sh) (u32 (esp + k)) ebx esi edi ecx m
  release-Fits k = elim (Bool-cases ((k % 4 == 0) && leb (k / 4) (length sh.slots))) [
    | inl e ↦
        let g = divides k (length sh.slots) e in
        rw (e) (record {
          ebx_fits = h.ebx_fits;
          esi_fits = h.esi_fits;
          edi_fits = h.edi_fits;
          ecx_fits = h.ecx_fits;
          low = omega (arith, g.0, g.1, h.low, h.high, h.in_memory);
          high = omega (arith, g.0, g.1, h.low, h.high, h.in_memory, length-skip (k / 4) sh.slots);
          in_memory = h.in_memory;
          apart = h.apart;
          kept = h.kept;
          stack =
              skip-Slots f m (u32 (esp + k)) esp (k / 4) sh.slots
                (omega (arith, g.0, g.1, h.low, h.high, h.in_memory)) h.stack;
        })
    | inr e ↦ rw (e) tt
  ]

  pub two-Fits :
      (m' : Memory) (tys : List Ty)
      → sh.slots ≡ tys
      → ((a : ℕ) → (a < esp) ⊎ (esp + 8 ≤ a) → esp + 8 ≤ 2 ^ 32 → m' a ≡ m a)
      → FitsAfter f (two_of tys sh) esp ebx esi edi ecx m'
  two-Fits m' [] e same = tt
  two-Fits m' (_ ∷ []) e same = tt
  two-Fits m' (ty ∷ ty' ∷ tys) e same =
      let n : length sh.slots ≡ suc (suc (length tys)) = ap length e in
      let whole : Slots f m esp (ty ∷ ty' ∷ tys) = subst (λ x. Slots f m esp x) e h.stack in
      record {
        ebx_fits = h.ebx_fits;
        esi_fits = h.esi_fits;
        edi_fits = h.edi_fits;
        ecx_fits = h.ecx_fits;
        low = h.low;
        high = omega (arith, n, h.high);
        in_memory = h.in_memory;
        apart = h.apart;
        kept = same f.watched (outside n h.apart) (omega (arith, n, h.high, h.in_memory)) ∙ h.kept;
        stack = (
          tt,
          (
            tt,
            same-Slots f m m' (esp + 4 + 4) tys
                (λ a l g. same a (inr (omega (arith, l))) (omega (arith, n, h.high, h.in_memory)))
                (omega (arith, n, h.high, h.in_memory)) whole.1.1,
          ),
        );
      }
    where
      outside :
          length sh.slots ≡ suc (suc (length tys))
          → (f.watched < f.lo) ⊎ (f.top ≤ f.watched)
          → (f.watched < esp) ⊎ (esp + 8 ≤ f.watched)
      outside n (inl g) = inl (omega (arith, g, h.low))
      outside n (inr g) = inr (omega (arith, g, n, h.high))

  pub unchanged-Fits : (ty : Ty) (k : ℕ) → FitsAfter f (through ty k sh) esp ebx esi edi ecx m
  unchanged-Fits Ty.away zero = h
  unchanged-Fits _ _ = tt
