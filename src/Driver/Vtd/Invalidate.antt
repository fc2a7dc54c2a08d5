-- ===== src/Driver/Vtd/Invalidate.antt =====
-- What src/libs/libxmhfhw/xmhfhw_vtd_invlcaches.c does to a remapping unit of the hardware model.
use uberspark.Base.{
  ℕ, suc, ◌+◌, ◌*◌, ◌^◌, ◌≡◌, refl, ◌∙◌, arith, bit, eq→==, u32, u64, true, some, List,
}
use uberspark.Regs.Field.{put64, get64}
use uberspark.Regs.VtdCcmd.{pack_vtd_ccmd_reg, unpack_vtd_ccmd_reg}
use uberspark.Regs.VtdIotlb.{pack_vtd_iotlb_reg, unpack_vtd_iotlb_reg}
use uberspark.Hwm.Vtd.{Drhd, write_ccmd_hi, write_iotlb_hi, copy_bit}
use uberspark.Hwm.Vtd.Regs.{Reg, put}
use uberspark.Hwm.Sysmem.{Machine}
use uberspark.Hwm.Sysmem.Routes.VtdUnit.{Reachable, put-Reachable, at}
use uberspark.Driver.VtdReg.Places.{ccmd_at, iotlb_at}
use uberspark.Driver.VtdReg.Laws.{handle, read64, write64}
use uberspark.Driver.Vtd.{
  invalidatecaches, invalidate_iotlb, request_context, icc_clear, ivt_clear, after,
}
use uberspark.Driver.Vtd.Polls.{poll-done, icc_clear_lem}

module _ (m : Machine) (pre post : List Drhd) (d : Drhd) (p : Reachable pre d) where
  abbrev d1 : Drhd
  d1 = record d { reg_ccmd_lo = 0; reg_ccmd_hi = 0x2800_0000 }

  p1 : Reachable pre d1
  unfolding write_ccmd_hi copy_bit
  p1 =
      put-Reachable pre (put d Reg.ccmd_lo 0) Reg.ccmd_hi 0xa000_0000
        (put-Reachable pre d Reg.ccmd_lo 0 p)

  request_context_lem :
      (n : ℕ) → request_context (suc n) (handle d) (at m pre post d) ≡ some (true, at m pre post d1)
  unfolding request_context after put64 get64 pack_vtd_ccmd_reg unpack_vtd_ccmd_reg write_ccmd_hi
      copy_bit icc_clear
  request_context_lem n = rw (
    write64 m pre post d 0x28 Reg.ccmd_lo Reg.ccmd_hi (ccmd_at d pre p) (omega arith) p
        0xa000_0000_0000_0000,
    poll-done icc_clear (handle d) 0x28 0x2800_0000_0000_0000 (at m pre post d1)
        (read64 m pre post d1 0x28 Reg.ccmd_lo Reg.ccmd_hi (ccmd_at d1 pre p1) (omega arith) p1) n
        refl,
  )

  abbrev d2 : Drhd
  d2 = record d { reg_iotlb_lo = 0; reg_iotlb_hi = 0x1200_0000 }

  p2 : Reachable pre d2
  unfolding write_iotlb_hi copy_bit
  p2 =
      put-Reachable pre (put d Reg.iotlb_lo 0) Reg.iotlb_hi 0x9000_0000
        (put-Reachable pre d Reg.iotlb_lo 0 p)

  invalidate_iotlb_lem :
      (n : ℕ)
      → invalidate_iotlb (suc n) (handle d) (at m pre post d) ≡ some (true, at m pre post d2)
  unfolding invalidate_iotlb after put64 get64 pack_vtd_iotlb_reg unpack_vtd_iotlb_reg
      write_iotlb_hi copy_bit ivt_clear
  invalidate_iotlb_lem n = rw (
    write64 m pre post d 0xbeef Reg.iotlb_lo Reg.iotlb_hi (iotlb_at d pre p) (omega arith) p
        0x9000_0000_0000_0000,
    poll-done ivt_clear (handle d) 0xbeef 0x1200_0000_0000_0000 (at m pre post d2)
        (read64 m pre post d2 0xbeef Reg.iotlb_lo Reg.iotlb_hi (iotlb_at d2 pre p2) (omega arith)
          p2)
        n refl,
  )

module _ (m : Machine) (pre post : List Drhd) (d : Drhd) (p : Reachable pre d) where
  -- For a unit whose registers are placed as the platform places them and whose page no unit
  -- before it has: if no context-cache invalidation is pending in the unit, `invalidatecaches`
  -- returns after one look in each of its three polling loops, with the result true, and leaves
  -- both invalidation registers with the request bit clear and the granularity done equal to the
  -- global one asked for.
  pub invalidatecaches_lem :
      (n : ℕ)
      → bit d.reg_ccmd_hi 31 ≡ 0
      → invalidatecaches (suc n) (some (handle d)) (at m pre post d)
        ≡ some (
          true,
          at m pre post (record d {
            reg_ccmd_lo = 0;
            reg_ccmd_hi = 0x2800_0000;
            reg_iotlb_lo = 0;
            reg_iotlb_hi = 0x1200_0000;
          }),
        )
  unfolding invalidatecaches after
  invalidatecaches_lem n h = rw (
    poll-done icc_clear (handle d) 0x28 ccmd (at m pre post d)
        (read64 m pre post d 0x28 Reg.ccmd_lo Reg.ccmd_hi (ccmd_at d pre p) (omega arith) p) n
        (icc_clear_lem ccmd ∙ eq→== (bit ccmd 63) 0 (omega (arith, h))),
    request_context_lem m pre post d p n,
    invalidate_iotlb_lem m pre post (d1 m pre post d p) (p1 m pre post d p) n,
  )
    where
      ccmd : ℕ
      ccmd = u64 (u32 d.reg_ccmd_lo + u32 d.reg_ccmd_hi * 2 ^ 32)
