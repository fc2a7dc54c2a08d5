-- ===== src/Hwm/Sysmem/Accesses.antt =====
-- src/hwm/xmhfhwm_cpu.c: sequences of accesses to system memory, as what the code under verification
-- can do to the devices, and what holds after all of them.
use uberspark.Base.{
  ℕ, ◌≡◌, arith, ◌⊎◌, inl, inr, sym, Option-cases, Option, some, none, List, [], ◌∷◌, All,
}
use mathlib.Core.Path.{subst}
use uberspark.Hwm.Vtd.{Drhd, write_unit, write_gcmd, write_pmen, write_ccmd_hi, write_iotlb_hi}
use uberspark.Hwm.Vtd.Laws.{write_unit-IsSettled, IsSettled}
use uberspark.Hwm.Vtd
use uberspark.Hwm.Sysmem.{Machine, SysmemCopy, sysmemread, sysmemwrite, sysmemcopy}

-- One access: a read, a write or a copy.
pub data Step (m : Machine) : Machine → Type 0 where
  reads : (a : ℕ) → Step m (sysmemread m a).1
  writes : (a v : ℕ) → Step m (sysmemwrite m a v)
  copies : (t : SysmemCopy) (dst src n : ℕ) → Step m (sysmemcopy t m dst src n)

pub data Reaches (m : Machine) : Machine → Type 0 where
  done : Reaches m m
  next : {m1 m2 : Machine} → Reaches m m1 → Step m1 m2 → Reaches m m2

-- What a handler that may decline leaves behind.
abbrev AllSettled : Option (List Drhd) → Type 0
AllSettled none = Unit
AllSettled (some ds) = All IsSettled ds

write-AllSettled : (ds : List Drhd) (a v : ℕ) → All IsSettled ds → AllSettled (Vtd.write ds a v)
unfolding Vtd.write
write-AllSettled [] a v p = tt
write-AllSettled (d ∷ ds) a v p = elim (Option-cases (write_unit d a v)) [
  | inr e ↦ rw (e.1, Vtd.write) (write_unit-IsSettled d a v e.0 p.0 e.1, p.1)
  | inl e ↦
      rw (e, Vtd.write)
        (elim (Option-cases (Vtd.write ds a v)) [
          | inl f ↦ rw (f) tt
          | inr f ↦ rw (f.1) (p.0, subst AllSettled f.1 (write-AllSettled ds a v p.1))
        ])
]

read-units : (m : Machine) (a : ℕ) → (sysmemread m a).1.vtd ≡ m.vtd
unfolding sysmemread
read-units m a = ground arith

copy-units : (t : SysmemCopy) (m : Machine) (dst src n : ℕ) → (sysmemcopy t m dst src n).vtd ≡ m.vtd
unfolding sysmemcopy
copy-units SysmemCopy.sys2obj m dst src n = ground arith
copy-units SysmemCopy.obj2sys m dst src n = ground arith

write-units :
    (m : Machine) (a v : ℕ)
    → ((sysmemwrite m a v).vtd ≡ m.vtd) ⊎ (some (sysmemwrite m a v).vtd ≡ Vtd.write m.vtd a v)
unfolding sysmemwrite
write-units m a v = ground arith

Step-All : (m1 m2 : Machine) → Step m1 m2 → All IsSettled m1.vtd → All IsSettled m2.vtd
Step-All m1 _ (reads a) p = rw (read-units m1 a) p
Step-All m1 _ (copies t dst src n) p = rw (copy-units t m1 dst src n) p
Step-All m1 _ (writes a v) p = elim (write-units m1 a v) [
  | inl e ↦ rw (e) p
  | inr e ↦ subst AllSettled (sym e) (write-AllSettled m1.vtd a v p)
]

-- A remapping unit is settled if it has no invalidation pending (ICC, bit 31 of CCMD's high word,
-- and IVT, bit 31 of the IOTLB register's, are clear) and PRS (bit 0 of PMEN) agrees with EPM (bit
-- 31). If all units of a machine are settled, they are settled in every machine that any sequence
-- of reads, writes and copies of system memory reaches from it, whatever is written and wherever.
pub Reaches-AllIsSettled :
    (m1 m2 : Machine) → Reaches m1 m2 → All IsSettled m1.vtd → All IsSettled m2.vtd
Reaches-AllIsSettled m1 _ done p = p
Reaches-AllIsSettled m1 m2 (next {m1 = m} r s) p = Step-All m m2 s (Reaches-AllIsSettled m1 m r p)
