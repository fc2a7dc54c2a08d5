-- ===== src/Driver/Vtd/Run.antt =====
-- What src/libs/libxmhfhw/xmhfhw_vtd_*.c do to a remapping unit of the hardware model.
use uberspark.Base.{
  ℕ, suc, ◌/◌, ◌^◌, ◌≡◌, refl, ◌∙◌, arith, bit, bit_or, bit-bit_or, eq→==, ne→==, u32, u64, true,
  none, some, List,
}
use uberspark.Regs.Field.{put32, get32}
use uberspark.Regs.VtdGcmd.{pack_vtd_gcmd_reg, unpack_vtd_gcmd_reg}
use uberspark.Regs.VtdPmen.{pack_vtd_pmen_reg, unpack_vtd_pmen_reg}
use native.Mathlib.Nat.{mod-mod}
use uberspark.Hwm.Vtd.{Drhd, write_gcmd, write_pmen}
use uberspark.Hwm.Vtd.Regs.{Reg, put}
use uberspark.Hwm.Sysmem.{Machine}
use uberspark.Hwm.Sysmem.Routes.VtdUnit.{Reachable, put-Reachable, at}
use uberspark.Driver.VtdReg.Places.{
  gcmd_at, gsts_at, pmen_at, plmbase_at, plmlimit_at, phmbase_at, phmlimit_at,
}
use uberspark.Driver.VtdReg.Laws.{handle, read32, write32, write64}
use uberspark.Driver.Vtd.{
  enable_translation, disable_translation, disable_pmr, set_plm_base_and_limit,
  set_phm_base_and_limit, te_set, te_clear, prs_clear, after,
}
use uberspark.Driver.Vtd.Polls.{poll-done, poll-never, te_set_lem, te_clear_lem}

module _ (m : Machine) (pre post : List Drhd) (d : Drhd) (p : Reachable pre d) where
  -- For a unit whose registers are placed as the platform places them and whose page no unit
  -- before it has: `enable_translation` returns at the first look at the status register, with
  -- GCMD.TE written, GSTS.TES set and nothing else changed in the whole machine.
  pub enable_translation_lem :
      (n : ℕ)
      → enable_translation (suc n) (some (handle d)) (at m pre post d)
        ≡ some (
            at m pre post
              (record d { reg_gcmd = 0x8000_0000; reg_gsts = bit_or d.reg_gsts 0x8000_0000 }))
  unfolding after enable_translation put32 get32 pack_vtd_gcmd_reg unpack_vtd_gcmd_reg write_gcmd
  enable_translation_lem n = rw (
    write32 m pre post d 0x18 Reg.gcmd (gcmd_at d pre p) p 0x8000_0000,
    read32 m pre post d1 0x1c Reg.gsts (gsts_at d1 pre p1) p1,
    poll-done te_set (handle d1) 0x1c (bit_or d.reg_gsts 0x8000_0000) (at m pre post d1)
        (read32 m pre post d1 0x1c Reg.gsts (gsts_at d1 pre p1) p1) n seen,
  )
    where
      d1 : Drhd
      d1 = put d Reg.gcmd 0x8000_0000

      p1 : Reachable pre d1
      p1 = put-Reachable pre d Reg.gcmd 0x8000_0000 p

      seen : te_set (bit_or d.reg_gsts 0x8000_0000) ≡ true
      seen =
          te_set_lem (bit_or d.reg_gsts 0x8000_0000)
          ∙ eq→== (bit (bit_or d.reg_gsts 0x8000_0000) 31) 1
              (omega (arith, bit-bit_or 31 d.reg_gsts 0x8000_0000))

  abbrev off_unit : Drhd
  off_unit = put d Reg.gcmd 0

  off-Reachable : Reachable pre off_unit
  off-Reachable = put-Reachable pre d Reg.gcmd 0 p

  -- For a unit whose registers are placed as the platform places them and whose page no unit
  -- before it has: if TES (bit 31) of GSTS is clear, `disable_translation` returns at the first
  -- look, with GCMD zero and nothing else changed.
  pub disable_translation-clear :
      (n : ℕ)
      → bit d.reg_gsts 31 ≡ 0
      → disable_translation (suc n) (some (handle d)) (at m pre post d)
        ≡ some (at m pre post (record d { reg_gcmd = 0 }))
  unfolding after disable_translation put32 get32 pack_vtd_gcmd_reg unpack_vtd_gcmd_reg write_gcmd
  disable_translation-clear n h = rw (
    write32 m pre post d 0x18 Reg.gcmd (gcmd_at d pre p) p 0,
    read32 m pre post off_unit 0x1c Reg.gsts (gsts_at off_unit pre off-Reachable) off-Reachable,
    poll-done te_clear (handle d) 0x1c d.reg_gsts (at m pre post off_unit)
        (read32 m pre post off_unit 0x1c Reg.gsts (gsts_at off_unit pre off-Reachable)
          off-Reachable)
        n (te_clear_lem d.reg_gsts ∙ eq→== (bit d.reg_gsts 31) 0 h),
  )

  -- For a unit whose registers are placed as the platform places them and whose page no unit
  -- before it has: once TES (bit 31) of GSTS is set, `disable_translation` returns for no number
  -- of polls, since the modelled unit never clears TES.
  pub disable_translation-set :
      (n : ℕ)
      → bit d.reg_gsts 31 ≡ 1
      → disable_translation n (some (handle d)) (at m pre post d) ≡ none
  unfolding after disable_translation put32 get32 pack_vtd_gcmd_reg unpack_vtd_gcmd_reg write_gcmd
  disable_translation-set n h = rw (
    write32 m pre post d 0x18 Reg.gcmd (gcmd_at d pre p) p 0,
    read32 m pre post off_unit 0x1c Reg.gsts (gsts_at off_unit pre off-Reachable) off-Reachable,
    poll-never te_clear (handle d) 0x1c d.reg_gsts (at m pre post off_unit)
        (read32 m pre post off_unit 0x1c Reg.gsts (gsts_at off_unit pre off-Reachable)
          off-Reachable)
        n (te_clear_lem d.reg_gsts ∙ ne→== (bit d.reg_gsts 31) 0 (omega (arith, h))),
  )

  -- For a unit whose registers are placed as the platform places them and whose page no unit
  -- before it has: `disable_pmr` returns at the first look at PMEN, which is zero then, and
  -- nothing else is changed.
  pub disable_pmr_lem :
      (n : ℕ)
      → disable_pmr (suc n) (some (handle d)) (at m pre post d)
        ≡ some (at m pre post (record d { reg_pmen = 0 }))
  unfolding after disable_pmr put32 get32 pack_vtd_pmen_reg unpack_vtd_pmen_reg write_pmen prs_clear
  disable_pmr_lem n = rw (
    write32 m pre post d 0x64 Reg.pmen (pmen_at d pre p) p 0,
    poll-done prs_clear (handle d) 0x64 0 (at m pre post d1)
        (read32 m pre post d1 0x64 Reg.pmen (pmen_at d1 pre p1) p1) n refl,
  )
    where
      d1 : Drhd
      d1 = put d Reg.pmen 0

      p1 : Reachable pre d1
      p1 = put-Reachable pre d Reg.pmen 0 p

  -- For a unit whose registers are placed as the platform places them and whose page no unit
  -- before it has: `set_plm_base_and_limit` leaves the 32-bit base and limit in the low protected
  -- region registers and changes nothing else.
  pub set_plm_base_and_limit_lem :
      (base limit : ℕ)
      → set_plm_base_and_limit (some (handle d)) base limit (at m pre post d)
        ≡ at m pre post (record d { reg_plmbase = u32 base; reg_plmlimit = u32 limit })
  unfolding set_plm_base_and_limit
  set_plm_base_and_limit_lem base limit = rw (
    write32 m pre post d 0x68 Reg.plmbase (plmbase_at d pre p) p (u32 base),
    write32 m pre post (put d Reg.plmbase (u32 (u32 base))) 0x6c Reg.plmlimit (plmlimit_at d pre p)
        (put-Reachable pre d Reg.plmbase (u32 (u32 base)) p) (u32 limit),
    mod-mod base 0x1_0000_0000,
    mod-mod limit 0x1_0000_0000,
  )

  -- For a unit whose registers are placed as the platform places them and whose page no unit
  -- before it has: `set_phm_base_and_limit` leaves the two halves of the 64-bit base and of the
  -- 64-bit limit in the high protected region registers and changes nothing else.
  pub set_phm_base_and_limit_lem :
      (base limit : ℕ)
      → set_phm_base_and_limit (some (handle d)) base limit (at m pre post d)
        ≡ at m pre post (record d {
          reg_phmbase_lo = u32 base;
          reg_phmbase_hi = u32 (u64 base / 2 ^ 32);
          reg_phmlimit_lo = u32 limit;
          reg_phmlimit_hi = u32 (u64 limit / 2 ^ 32);
        })
  unfolding set_phm_base_and_limit
  set_phm_base_and_limit_lem base limit = rw (
    write64 m pre post d 0x70 Reg.phmbase_lo Reg.phmbase_hi (phmbase_at d pre p) (omega arith) p
        base,
    write64 m pre post d1 0x78 Reg.phmlimit_lo Reg.phmlimit_hi (phmlimit_at d pre p) (omega arith)
        p1 limit,
  )
    where
      d1 : Drhd
      d1 = record d { reg_phmbase_lo = u32 base; reg_phmbase_hi = u32 (u64 base / 2 ^ 32) }

      p1 : Reachable pre d1
      p1 =
          put-Reachable pre (put d Reg.phmbase_lo (u32 base)) Reg.phmbase_hi
            (u32 (u64 base / 2 ^ 32)) (put-Reachable pre d Reg.phmbase_lo (u32 base) p)
