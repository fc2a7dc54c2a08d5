-- ===== src/Driver/Vtd/Setup.antt =====
-- What src/libs/libxmhfhw/xmhfhw_vtd_{setret,initdrhd,invlcaches}.c do to a remapping unit of the hardware model.
use uberspark.Base.{
  not, bit_and, has-cases, ◌&&◌, ◌||◌, ℕ, ◌+◌, ◌*◌, ◌/◌, ◌%◌, ◌^◌, ◌<◌, ◌≡◌, arith, bit, eq→==, u32,
  u64, if◌then◌else◌, true, false, some, List, ◌==◌,
}
use uberspark.Regs.Field.{put32, get32, get64, get64_lem}
use uberspark.Regs.VtdGcmd.{pack_vtd_gcmd_reg, unpack_vtd_gcmd_reg}
use uberspark.Regs.VtdRtaddr.{pack_vtd_rtaddr_reg-unpack_vtd_rtaddr_reg}
use native.Mathlib.Nat.{mod-mod, mod-eq_of_lt}
use uberspark.Regs.VtdCap.{unpack_vtd_cap_reg}
use uberspark.Hwm.Vtd.{Drhd, write_gcmd}
use uberspark.Hwm.Vtd.Regs.{Reg, put}
use uberspark.Hwm.Sysmem.{Machine}
use uberspark.Hwm.Sysmem.Routes.VtdUnit.{Reachable, put-Reachable, at}
use uberspark.Driver.VtdReg.Places.{cap_at, fectl_at, gcmd_at, gsts_at, rtaddr_at}
use uberspark.Driver.VtdReg.Laws.{handle, read32, write32, read64, write64}
use uberspark.Driver.Vtd.{initialize, supported, set_root_entry_table}
use uberspark.Driver.Vtd.Polls.{rtps_set_lem, im_set_lem, set_im}

-- The two halves of a 64-bit register.
abbrev pub cap_of : Drhd → ℕ
cap_of d = u64 (u32 d.reg_cap_lo + u32 d.reg_cap_hi * 2 ^ 32)

one_bit : (k c : ℕ) → c < 2 ^ 64 → not (get64 c k 1 == 0) ≡ (bit c k == 1)
one_bit k c h = ground (arith, get64_lem 1 k c)

depth_bit :
    (k j c : ℕ)
    → bit c j ≡ bit (get64 c 8 31) k
    → not (bit_and (get64 c 8 31) (2 ^ k) == 0) ≡ (bit c j == 1)
depth_bit k j c e = ground (arith, has-cases k (get64 c 8 31))

-- What the driver asks of the capabilities, in the bits of the register.
supported_lem :
    (d : Drhd)
    → supported (unpack_vtd_cap_reg (cap_of d)) ≡ (
        (bit d.reg_cap_lo 5 == 1 && bit d.reg_cap_lo 6 == 1)
        && (bit d.reg_cap_lo 9 == 1 || bit d.reg_cap_lo 10 == 1))
unfolding supported unpack_vtd_cap_reg
supported_lem d =
    let c = cap_of d in
    let small : c < 2 ^ 64 = omega arith in
    let plmr : bit c 5 ≡ bit d.reg_cap_lo 5 = omega arith in
    let phmr : bit c 6 ≡ bit d.reg_cap_lo 6 = omega arith in
    let depth3 : bit c 9 ≡ bit d.reg_cap_lo 9 = omega arith in
    let depth4 : bit c 10 ≡ bit d.reg_cap_lo 10 = omega arith in
    rw (
      one_bit 5 c small,
      one_bit 6 c small,
      depth_bit 1 9 c (omega (arith, get64_lem 5 8 c)),
      depth_bit 2 10 c (omega (arith, get64_lem 5 8 c)),
      plmr,
      phmr,
      depth3,
      depth4,
    )

module _ (m : Machine) (pre post : List Drhd) (d : Drhd) (p : Reachable pre d) where
  -- For a unit whose registers are placed as the platform places them and whose page no unit
  -- before it has: `set_root_entry_table` stores the low 32 bits of the table address and writes
  -- GCMD.SRTP, and its result is bit 30 (RTPS) of GSTS as it was before, since writing GCMD leaves
  -- that bit alone.
  pub set_root_entry_table_lem :
      (a : ℕ)
      → set_root_entry_table (some (handle d)) a (at m pre post d) ≡ (
        bit d.reg_gsts 30 == 1,
        at m pre post
            (record d { reg_rtaddr_lo = u32 a; reg_rtaddr_hi = 0; reg_gcmd = 0x4000_0000 }),
      )
  unfolding set_root_entry_table put32 get32 pack_vtd_gcmd_reg unpack_vtd_gcmd_reg write_gcmd
  set_root_entry_table_lem a = rw (
    pack_vtd_rtaddr_reg-unpack_vtd_rtaddr_reg (u32 a) (omega arith),
    write64 m pre post d 0x20 Reg.rtaddr_lo Reg.rtaddr_hi (rtaddr_at d pre p) (omega arith) p
        (u32 a),
    mod-mod a 0x1_0000_0000,
    no_high,
    write32 m pre post d1 0x18 Reg.gcmd (gcmd_at d pre p) p1 0x4000_0000,
    read32 m pre post d2 0x1c Reg.gsts (gsts_at d pre p) p2,
    rtps_set_lem d.reg_gsts,
  )
    where
      no_high : u32 (u64 (u32 a) / 0x1_0000_0000) ≡ 0
      no_high = omega arith

      d1 : Drhd
      d1 = record d { reg_rtaddr_lo = u32 a; reg_rtaddr_hi = 0 }

      p1 : Reachable pre d1
      p1 =
          put-Reachable pre (put d Reg.rtaddr_lo (u32 a)) Reg.rtaddr_hi 0
            (put-Reachable pre d Reg.rtaddr_lo (u32 a) p)

      d2 : Drhd
      d2 = record d1 { reg_gcmd = 0x4000_0000 }

      p2 : Reachable pre d2
      p2 = put-Reachable pre d1 Reg.gcmd 0x4000_0000 p1

  -- For a unit whose registers are placed as the platform places them and whose page no unit
  -- before it has: if the low word of CAP has bit 5 (PLMR), bit 6 (PHMR), and bit 9 or bit 10
  -- (table depths in SAGAW), `initialize` returns true with the interrupt mask bit of FECTL, a
  -- register below 2 ^ 32, set and nothing else changed; otherwise it returns false and changes
  -- nothing.
  pub initialize_lem :
      d.reg_fectl < 2 ^ 32
      → initialize (some (handle d)) (at m pre post d) ≡ (
          if (bit d.reg_cap_lo 5 == 1 && bit d.reg_cap_lo 6 == 1)
            && (bit d.reg_cap_lo 9 == 1 || bit d.reg_cap_lo 10 == 1)
          then (true, at m pre post (record d { reg_fectl = d.reg_fectl % 2 ^ 31 + 2 ^ 31 }))
          else (false, at m pre post d))
  unfolding initialize
  initialize_lem h = rw (
    read64 m pre post d 0x8 Reg.cap_lo Reg.cap_hi (cap_at d pre p) (omega arith) p,
    read32 m pre post d 0x38 Reg.fectl (fectl_at d pre p) p,
    set_im d.reg_fectl h,
    write32 m pre post d 0x38 Reg.fectl (fectl_at d pre p) p masked,
    mod-eq_of_lt masked-lt,
    read32 m pre post d1 0x38 Reg.fectl (fectl_at d pre p) p1,
    im_set_lem masked,
    eq→== (bit masked 31) 1 (omega arith),
    supported_lem d,
  )
    where
      masked : ℕ
      masked = d.reg_fectl % 2 ^ 31 + 2 ^ 31

      masked-lt : masked < 2 ^ 32
      masked-lt = omega arith

      d1 : Drhd
      d1 = record d { reg_fectl = masked }

      p1 : Reachable pre d1
      p1 = put-Reachable pre d Reg.fectl masked p
