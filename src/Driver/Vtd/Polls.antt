-- ===== src/Driver/Vtd/Polls.antt =====
-- The polling loops of src/libs/libxmhfhw/xmhfhw_vtd_*.c, and the bits that end them.
use uberspark.Base.{
  ℕ, zero, suc, ◌^◌, ◌≡◌, ◌+◌, ◌%◌, ◌<◌, ◌∙◌, refl, ap, arith, bit, Bool, true, false, none, some,
  ◌==◌,
}
use uberspark.Regs.Field.{get32, get32_lem, get64_lem}
use uberspark.Regs.VtdFectl.{
  pack_vtd_fectl_reg, unpack_vtd_fectl_reg, pack_vtd_fectl_reg-unpack_vtd_fectl_reg,
}
use uberspark.Regs.VtdGsts.{unpack_vtd_gsts_reg}
use uberspark.Regs.VtdPmen.{unpack_vtd_pmen_reg}
use uberspark.Regs.VtdCcmd.{unpack_vtd_ccmd_reg}
use uberspark.Regs.VtdIotlb.{unpack_vtd_iotlb_reg}
use uberspark.Hwm.Sysmem.{Machine}
use uberspark.Driver.VtdReg.{DrhdHandle, vtd_reg_read}
use uberspark.Driver.Vtd.{poll, te_set, te_clear, im_set, rtps_set, prs_clear, icc_clear, ivt_clear}

module _ (done : ℕ → Bool) (h : DrhdHandle) (reg v : ℕ) (m : Machine)
    (e : vtd_reg_read m h reg ≡ (v, m)) where
  -- A register that no read changes ends the loop at once or never.
  pub poll-done : (n : ℕ) → done v ≡ true → poll (suc n) done h reg m ≡ some (v, m)
  unfolding poll
  poll-done n t = rw (poll, e, t) (ap some e)

  pub poll-never : (n : ℕ) → done v ≡ false → poll n done h reg m ≡ none
  unfolding poll
  poll-never zero f = refl
  poll-never (suc n) f = rw (poll, e, f) (rw (e) (poll-never n f))

pub te_set_lem : (v : ℕ) → te_set v ≡ (bit v 31 == 1)
unfolding te_set unpack_vtd_gsts_reg
te_set_lem v = ground (arith, get32_lem 1 31 v)

pub te_clear_lem : (v : ℕ) → te_clear v ≡ (bit v 31 == 0)
unfolding te_clear unpack_vtd_gsts_reg
te_clear_lem v = ground (arith, get32_lem 1 31 v)

pub prs_clear_lem : (v : ℕ) → prs_clear v ≡ (bit v 0 == 0)
unfolding prs_clear unpack_vtd_pmen_reg
prs_clear_lem v = ground (arith, get32_lem 1 0 v)

pub icc_clear_lem : (v : ℕ) → icc_clear v ≡ (bit v 63 == 0)
unfolding icc_clear unpack_vtd_ccmd_reg
icc_clear_lem v = ground (arith, get64_lem 1 63 v)

pub ivt_clear_lem : (v : ℕ) → ivt_clear v ≡ (bit v 63 == 0)
unfolding ivt_clear unpack_vtd_iotlb_reg
ivt_clear_lem v = ground (arith, get64_lem 1 63 v)

pub rtps_set_lem : (v : ℕ) → rtps_set v ≡ (bit v 30 == 1)
unfolding rtps_set unpack_vtd_gsts_reg
rtps_set_lem v = ground (arith, get32_lem 1 30 v)

pub im_set_lem : (v : ℕ) → im_set v ≡ (bit v 31 == 1)
unfolding im_set unpack_vtd_fectl_reg
im_set_lem v = ground (arith, get32_lem 1 31 v)

-- Setting IM in the unpacked register sets bit 31 and no other.
pub set_im :
    (v : ℕ)
    → v < 2 ^ 32
    → pack_vtd_fectl_reg (record (unpack_vtd_fectl_reg v) { im = 1 }) ≡ v % 2 ^ 31 + 2 ^ 31
unfolding unpack_vtd_fectl_reg
set_im v h =
    rw (same_ip, same_rsvdp0)
      (ap (λ (t : ℕ). pack_vtd_fectl_reg (record (unpack_vtd_fectl_reg w) { im = t })) same_im
        ∙ pack_vtd_fectl_reg-unpack_vtd_fectl_reg w (omega arith))
  where
    w : ℕ
    w = v % 2 ^ 31 + 2 ^ 31

    same_ip : get32 v 30 1 ≡ get32 w 30 1
    same_ip = omega (arith, get32_lem 1 30 v, get32_lem 1 30 w)

    same_rsvdp0 : get32 v 0 0x3fff_ffff ≡ get32 w 0 0x3fff_ffff
    same_rsvdp0 = omega (arith, get32_lem 30 0 v, get32_lem 30 0 w)

    same_im : 1 ≡ get32 w 31 1
    same_im = omega (arith, get32_lem 1 31 w)
