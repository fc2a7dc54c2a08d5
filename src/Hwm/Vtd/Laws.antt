-- ===== src/Hwm/Vtd/Laws.antt =====
-- The handlers of src/hwm/xmhfhwm_vtd.c against the registers by name.
use uberspark.Base.{refl, ℕ, ◌^◌, ◌+◌, ◌/◌, ◌%◌, ◌<◌, max, ◌≡◌, ◌≢◌, arith, u32, some, none}
use uberspark.Base.{bit}
use uberspark.Hwm.Vtd.{Drhd, read_unit, write_unit, write_gcmd, write_pmen, write_ccmd_hi}
use uberspark.Hwm.Vtd.{write_iotlb_hi, copy_bit}
use uberspark.Base.{clear, has-cases, bit_or-pow, bit_and-clear, inl, inr, ap, ◌*◌}
use uberspark.Hwm.Vtd.Regs.{Reg, addr_of, get, put, IsPlaced}

pub read_unit-addr_of :
    (d : Drhd) (r : Reg) → IsPlaced d → read_unit d (addr_of d r) ≡ some (get d r)
unfolding read_unit
read_unit-addr_of d Reg.ver p = ground arith
read_unit-addr_of d _ p = ground arith

pub write_unit-addr_of :
    (d : Drhd) (r : Reg) (v : ℕ)
    → IsPlaced d
    → write_unit d (addr_of d r) v ≡ some (put d r (u32 v))
unfolding write_unit
write_unit-addr_of d Reg.ver v p = ground arith
write_unit-addr_of d _ v p = ground arith

-- An address outside of the page of a unit is none of its registers.
pub read_unit-none :
    (d : Drhd) (a : ℕ) → IsPlaced d → a / 4096 ≢ d.regbaseaddr / 4096 → read_unit d a ≡ none
unfolding read_unit
read_unit-none d a p h = ground arith

pub write_unit-none :
    (d : Drhd) (a v : ℕ) → IsPlaced d → a / 4096 ≢ d.regbaseaddr / 4096 → write_unit d a v ≡ none
unfolding write_unit
write_unit-none d a v p h = ground arith

-- A write keeps the place of the unit.
pub put-IsPlaced : (d : Drhd) (r : Reg) (v : ℕ) → IsPlaced d → IsPlaced (put d r v)
unfolding write_gcmd write_pmen write_ccmd_hi write_iotlb_hi
put-IsPlaced d Reg.ver v p = ground arith
put-IsPlaced d _ v p = ground arith

pub put-regbaseaddr : (d : Drhd) (r : Reg) (v : ℕ) → (put d r v).regbaseaddr ≡ d.regbaseaddr
unfolding write_gcmd write_pmen write_ccmd_hi write_iotlb_hi
put-regbaseaddr d Reg.ver v = refl
put-regbaseaddr d _ v = refl

put-iotlbaddr : (d : Drhd) (r : Reg) (v : ℕ) → (put d r v).iotlbaddr ≡ d.iotlbaddr
unfolding write_gcmd write_pmen write_ccmd_hi write_iotlb_hi
put-iotlbaddr d Reg.ver v = refl
put-iotlbaddr d _ v = refl

put-ivaaddr : (d : Drhd) (r : Reg) (v : ℕ) → (put d r v).ivaaddr ≡ d.ivaaddr
unfolding write_gcmd write_pmen write_ccmd_hi write_iotlb_hi
put-ivaaddr d Reg.ver v = refl
put-ivaaddr d _ v = refl

pub addr_of-put : (d : Drhd) (r : Reg) (v : ℕ) (s : Reg) → addr_of (put d r v) s ≡ addr_of d s
addr_of-put d r v Reg.ver = put-regbaseaddr d r v
addr_of-put d r v Reg.iotlb_lo = put-iotlbaddr d r v
addr_of-put d r v Reg.iotlb_hi = omega (arith, put-iotlbaddr d r v)
addr_of-put d r v Reg.iva_lo = put-ivaaddr d r v
addr_of-put d r v Reg.iva_hi = omega (arith, put-ivaaddr d r v)
addr_of-put d r v _ = omega (arith, put-regbaseaddr d r v)

-- A write to GCMD sets TES (bit 31) of GSTS if TE (bit 31) is set in it and otherwise leaves TES,
-- and never changes the other bits of GSTS.
pub gsts-write_gcmd :
    (d : Drhd) (v : ℕ)
    → (bit (write_gcmd d v).reg_gsts 31 ≡ max (bit d.reg_gsts 31) (bit v 31))
      × ((write_gcmd d v).reg_gsts % 2 ^ 31 ≡ d.reg_gsts % 2 ^ 31)
unfolding write_gcmd
gsts-write_gcmd d v = elim (has-cases 31 v) [
  | inl e ↦ rw (e.0) (omega (arith, bit_or-pow 31 d.reg_gsts, e.1))
  | inr e ↦ rw (e.0) (omega (arith, e.1))
]

-- After a write below 2 ^ 32 to PMEN, PRS (bit 0) equals the EPM (bit 31) that was written and all
-- other bits are as written.
pub pmen-write_pmen :
    (d : Drhd) (v : ℕ)
    → v < 2 ^ 32
    → (bit (write_pmen d v).reg_pmen 0 ≡ bit v 31) × ((write_pmen d v).reg_pmen / 2 ≡ v / 2)
unfolding write_pmen
pmen-write_pmen d v h = elim (has-cases 31 v) [
  | inl e ↦ rw (e.0) (rw (e.0) (omega (arith, bit_or-pow 0 v, e.1)))
  | inr e ↦ rw (e.0) (elim (has-cases 31 (clear v 1)) [
    | inl f ↦ omega (arith, bit_and-clear 32 0 v (omega arith), e.1, f.1)
    | inr f ↦ rw (f.0) (omega (arith, bit_and-clear 32 0 v (omega arith), e.1))
  ])
]

-- The bit at `to` becomes the bit at `from`, and the others stay.
copy_bit_lem :
    (from to v : ℕ)
    → v < 2 ^ 32
    → to < 32
    → copy_bit (2 ^ from) (2 ^ to) v + 2 ^ to * bit v to ≡ v + 2 ^ to * bit v from
unfolding copy_bit
copy_bit_lem from to v h g = elim (has-cases from v) [
  | inl e ↦ rw (e.0) (omega (arith, bit_or-pow to v, ap (λ (t : ℕ). 2 ^ to * t) (e.1)))
  | inr e ↦ rw (e.0) (omega (arith, bit_and-clear 32 to v g, ap (λ (t : ℕ). 2 ^ to * t) (e.1)))
]

-- A write below 2 ^ 32 with ICC (bit 31) set to the high word of CCMD completes at once: ICC reads
-- back clear, CAIG (bits 28, 27) is the CIRG (bits 30, 29) written, CIRG and the bits below CAIG
-- are as written.
pub ccmd-write_ccmd_hi :
    (d : Drhd) (v : ℕ)
    → v < 2 ^ 32
    → bit v 31 ≡ 1
    → let r = (write_ccmd_hi d v).reg_ccmd_hi in
      (bit r 31 ≡ 0)
      × (r / 2 ^ 27 % 4 ≡ v / 2 ^ 29 % 4)
      × (r / 2 ^ 29 % 4 ≡ v / 2 ^ 29 % 4)
      × (r % 2 ^ 27 ≡ v % 2 ^ 27)
unfolding write_ccmd_hi
ccmd-write_ccmd_hi d v h g = elim (has-cases 31 v) [
  | inr e ↦ absurd (omega (arith, e.1))
  | inl e ↦ rw (e.0) (
      omega (
        arith,
        copy_bit_lem 30 28 v h (omega arith),
        copy_bit_lem 29 27 v1 (omega (arith, copy_bit_lem 30 28 v h (omega arith))) (omega arith),
        bit_and-clear 32 31 v2 (omega arith),
      ))
]
  where
    v1 : ℕ
    v1 = copy_bit 0x4000_0000 0x1000_0000 v

    v2 : ℕ
    v2 = copy_bit 0x2000_0000 0x0800_0000 v1

-- A write below 2 ^ 32 with IVT (bit 31) set to the high word of the IOTLB register completes at
-- once: IVT reads back clear, bits 26, 25 are the bits 29, 28 written, and bits 27 to 30 and those
-- below 25 are as written.
pub iotlb-write_iotlb_hi :
    (d : Drhd) (v : ℕ)
    → v < 2 ^ 32
    → bit v 31 ≡ 1
    → let r = (write_iotlb_hi d v).reg_iotlb_hi in
      (bit r 31 ≡ 0)
      × (r / 2 ^ 25 % 4 ≡ v / 2 ^ 28 % 4)
      × (r / 2 ^ 27 % 16 ≡ v / 2 ^ 27 % 16)
      × (r % 2 ^ 25 ≡ v % 2 ^ 25)
unfolding write_iotlb_hi
iotlb-write_iotlb_hi d v h g = elim (has-cases 31 v) [
  | inr e ↦ absurd (omega (arith, e.1))
  | inl e ↦ rw (e.0) (
      omega (
        arith,
        copy_bit_lem 29 26 v h (omega arith),
        copy_bit_lem 28 25 v1 (omega (arith, copy_bit_lem 29 26 v h (omega arith))) (omega arith),
        bit_and-clear 32 31 v2 (omega arith),
      ))
]
  where
    v1 : ℕ
    v1 = copy_bit 0x2000_0000 0x0400_0000 v

    v2 : ℕ
    v2 = copy_bit 0x1000_0000 0x0200_0000 v1

-- No invalidation is pending, and the state of the protected regions is the one asked for.
abbrev pub IsSettled : Drhd → Type 0
IsSettled d =
    (bit d.reg_ccmd_hi 31 ≡ 0)
    × (bit d.reg_iotlb_hi 31 ≡ 0)
    × (bit d.reg_pmen 0 ≡ bit d.reg_pmen 31)

-- Each write with a side effect leaves a settled unit settled.
ccmd_settles : (d : Drhd) (v : ℕ) → v < 2 ^ 32 → IsSettled d → IsSettled (write_ccmd_hi d v)
unfolding write_ccmd_hi
ccmd_settles d v h p = elim (has-cases 31 v) [
  | inl e ↦ ((ccmd-write_ccmd_hi d v h e.1).0, p.1, p.2)
  | inr e ↦ rw (e.0) (e.1, p.1, p.2)
]

iotlb_settles : (d : Drhd) (v : ℕ) → v < 2 ^ 32 → IsSettled d → IsSettled (write_iotlb_hi d v)
unfolding write_iotlb_hi
iotlb_settles d v h p = elim (has-cases 31 v) [
  | inl e ↦ (p.0, (iotlb-write_iotlb_hi d v h e.1).0, p.2)
  | inr e ↦ rw (e.0) (p.0, e.1, p.2)
]

pmen_settles : (d : Drhd) (v : ℕ) → v < 2 ^ 32 → IsSettled d → IsSettled (write_pmen d v)
unfolding write_pmen
pmen_settles d v h p = (p.0, p.1, omega (arith, pmen-write_pmen d v h))

gcmd_settles : (d : Drhd) (v : ℕ) → IsSettled d → IsSettled (write_gcmd d v)
unfolding write_gcmd
gcmd_settles d v p = p

-- The write handler leaves every unit settled, whatever the address and the value.
pub write_unit-IsSettled :
    (d : Drhd) (a v : ℕ) (e : Drhd) → IsSettled d → write_unit d a v ≡ some e → IsSettled e
unfolding write_unit
write_unit-IsSettled d a v e p h = ground (
  arith,
  ccmd_settles d (u32 v) (omega arith) p,
  iotlb_settles d (u32 v) (omega arith) p,
  pmen_settles d (u32 v) (omega arith) p,
  gcmd_settles d (u32 v) p,
)
