-- ===== src/Driver/VtdReg/Laws.antt =====
-- src/libs/libxmhfhw/xmhfhw_vtd_{readreg,writereg}.c on the unit that the handle is for.
use uberspark.Base.{ℕ, ◌+◌, ◌*◌, ◌/◌, ◌^◌, ◌≡◌, ap, sym, ◌∙◌, arith, u32, u64, List}
use uberspark.Hwm.Vtd.{Drhd}
use uberspark.Hwm.Vtd.Laws.{addr_of-put}
use uberspark.Hwm.Vtd.Regs.{Reg, addr_of, get, put, IsPlaced}
use uberspark.Hwm.Sysmem.{Machine, sysmemwrite}
use uberspark.Hwm.Sysmem.Routes.VtdUnit.{
  Reachable, put-Reachable, at, sysmemread-addr_of, sysmemwrite-addr_of,
}
use uberspark.Driver.VtdReg.{
  DrhdHandle, RegType, regtype_regaddr, read_access, write_access, vtd_reg_read, vtd_reg_write,
  readu32, readu64, writeu32, writeu64,
}

-- The handle of a unit.
abbrev pub handle : Drhd → DrhdHandle
handle d = record {
  regbaseaddr = d.regbaseaddr;
  iotlb_regaddr = d.iotlbaddr;
  iva_regaddr = d.ivaaddr;
}

pub u32-addr_of : (d : Drhd) (r : Reg) → IsPlaced d → u32 (addr_of d r) ≡ addr_of d r
u32-addr_of d Reg.ver p = omega arith
u32-addr_of d _ p = omega arith

module _ (m : Machine) (pre post : List Drhd) where
  write-word :
      (d : Drhd) (r : Reg) (v : ℕ)
      → Reachable pre d
      → sysmemwrite (at m pre post d) (addr_of d r) (u32 (u32 v)) ≡ at m pre post (put d r (u32 v))
  write-word d r v p =
      sysmemwrite-addr_of m pre post d r p (u32 (u32 v))
      ∙ ap (λ t. at m pre post (put d r t)) (once v)
    where
      once : (v : ℕ) → u32 (u32 (u32 v)) ≡ u32 v
      once v = omega arith

module _ (m : Machine) (pre post : List Drhd) (d : Drhd) (off : ℕ) where
  module _ (r : Reg) (e : regtype_regaddr (handle d) off ≡ (RegType.bits32, addr_of d r))
      (p : Reachable pre d) where
    -- A 32-bit register is read and written by one access.
    pub read32 : vtd_reg_read (at m pre post d) (handle d) off ≡ (get d r, at m pre post d)
    unfolding vtd_reg_read read_access readu32
    read32 =
        rw (ap (λ t. t.0) e, ap (λ t. t.1) e, u32-addr_of d r p.0)
          (sysmemread-addr_of m pre post d r p)

    pub write32 :
        (v : ℕ) → vtd_reg_write (at m pre post d) (handle d) off v ≡ at m pre post (put d r (u32 v))
    unfolding vtd_reg_write write_access writeu32
    write32 v =
        rw (ap (λ t. t.0) e, ap (λ t. t.1) e, u32-addr_of d r p.0) (write-word m pre post d r v p)

  module _ (lo hi : Reg) (e : regtype_regaddr (handle d) off ≡ (RegType.bits64, addr_of d lo))
      (next : addr_of d lo + 4 ≡ addr_of d hi) (p : Reachable pre d) where
    -- A 64-bit register is read and written by two accesses, the low word first.
    pub read64 :
        vtd_reg_read (at m pre post d) (handle d) off
        ≡ (u64 (u32 (get d lo) + u32 (get d hi) * 2 ^ 32), at m pre post d)
    unfolding vtd_reg_read read_access readu64
    read64 = rw (
      e,
      u32-addr_of d lo p.0,
      next,
      u32-addr_of d hi p.0,
      sysmemread-addr_of m pre post d lo p,
      sysmemread-addr_of m pre post d hi p,
    )

    pub write64 :
        (v : ℕ)
        → vtd_reg_write (at m pre post d) (handle d) off v
          ≡ at m pre post (put (put d lo (u32 v)) hi (u32 (u64 v / 2 ^ 32)))
    unfolding vtd_reg_write write_access writeu64
    write64 v =
        rw (ap (λ t. t.0) e, ap (λ t. t.1) e, u32-addr_of d lo p.0, next, u32-addr_of d hi p.0)
          (ap (λ n. sysmemwrite n (addr_of d hi) (u32 (u32 (u64 v / 2 ^ 32))))
              (write-word m pre post d lo v p)
            ∙ ap (λ a. sysmemwrite (at m pre post d1) a (u32 (u32 (u64 v / 2 ^ 32))))
                (sym (addr_of-put d lo (u32 v) hi))
            ∙ write-word m pre post d1 hi (u64 v / 2 ^ 32) (put-Reachable pre d lo (u32 v) p))
      where
        d1 : Drhd
        d1 = put d lo (u32 v)
