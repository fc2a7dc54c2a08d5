-- ===== src/Driver/Vtd.antt =====
-- src/libs/libxmhfhw/xmhfhw_vtd_*.c: the operations on a remapping unit. A handle is `none` for a
-- null pointer. A `while(1)` polls as often as its fuel says, and gives `none` when that is used up.
pub mod Polls
pub mod Run
pub mod Setup
pub mod Invalidate
use uberspark.Base.{
  ℕ, zero, suc, ◌==◌, ◌&&◌, ◌||◌, not, Bool, true, false, Option, none, some, bit_and, u32,
}
use uberspark.Base.{if◌then◌else◌}
use uberspark.Hwm.Vtd.{
  gcmd_reg_off, gsts_reg_off, fectl_reg_off, pmen_reg_off, plmbase_reg_off, plmlimit_reg_off,
  cap_reg_off, rtaddr_reg_off, ccmd_reg_off, phmbase_reg_off, phmlimit_reg_off, iotlb_reg_off,
}
use uberspark.Hwm.Sysmem.{Machine}
use uberspark.Regs.VtdGcmd.{VtdGcmdReg, pack_vtd_gcmd_reg, unpack_vtd_gcmd_reg}
use uberspark.Regs.VtdGsts.{unpack_vtd_gsts_reg}
use uberspark.Regs.VtdPmen.{VtdPmenReg, pack_vtd_pmen_reg, unpack_vtd_pmen_reg}
use uberspark.Regs.VtdFectl.{VtdFectlReg, pack_vtd_fectl_reg, unpack_vtd_fectl_reg}
use uberspark.Regs.VtdCap.{VtdCapReg, unpack_vtd_cap_reg}
use uberspark.Regs.VtdCcmd.{VtdCcmdReg, pack_vtd_ccmd_reg, unpack_vtd_ccmd_reg}
use uberspark.Regs.VtdIotlb.{VtdIotlbReg, pack_vtd_iotlb_reg, unpack_vtd_iotlb_reg}
use uberspark.Regs.VtdRtaddr.{pack_vtd_rtaddr_reg, unpack_vtd_rtaddr_reg}
use uberspark.Driver.VtdReg.{DrhdHandle, vtd_reg_read, vtd_reg_write}

-- What follows a step that may not return.
pub after {ℓ κ} :
    {A : Type ℓ} {B : Type κ} → Option (A × Machine) → (A → Machine → Option B) → Option B
after none f = none
after (some p) f = f p.0 p.1

-- `while(1) { v = _vtd_reg_read(drhd, reg); if (done(v)) break; }`: the value that ends it.
pub poll : ℕ → (ℕ → Bool) → DrhdHandle → ℕ → Machine → Option (ℕ × Machine)
poll zero done drhd reg m = none
poll (suc n) done drhd reg m =
    let r = vtd_reg_read m drhd reg in
    elim (done r.0) [ true ↦ some r | false ↦ poll n done drhd reg r.1 ]

pub te_set : ℕ → Bool
te_set v = not ((unpack_vtd_gsts_reg v).tes == 0)

pub enable_translation : ℕ → Option DrhdHandle → Machine → Option Machine
enable_translation fuel none m = some m
enable_translation fuel (some drhd) m =
    let gcmd : VtdGcmdReg = unpack_vtd_gcmd_reg 0 in
    let m1 = vtd_reg_write m drhd gcmd_reg_off (pack_vtd_gcmd_reg (record gcmd { te = 1 })) in
    let r = vtd_reg_read m1 drhd gsts_reg_off in
    after (poll fuel te_set drhd gsts_reg_off r.1) (λ v m2. some m2)

pub te_clear : ℕ → Bool
te_clear v = (unpack_vtd_gsts_reg v).tes == 0

pub disable_translation : ℕ → Option DrhdHandle → Machine → Option Machine
disable_translation fuel none m = some m
disable_translation fuel (some drhd) m =
    let gcmd : VtdGcmdReg = unpack_vtd_gcmd_reg 0 in
    let m1 = vtd_reg_write m drhd gcmd_reg_off (pack_vtd_gcmd_reg (record gcmd { te = 0 })) in
    let r = vtd_reg_read m1 drhd gsts_reg_off in
    after (poll fuel te_clear drhd gsts_reg_off r.1) (λ v m2. some m2)

pub prs_clear : ℕ → Bool
prs_clear v = (unpack_vtd_pmen_reg v).prs == 0

pub disable_pmr : ℕ → Option DrhdHandle → Machine → Option Machine
disable_pmr fuel none m = some m
disable_pmr fuel (some drhd) m =
    let pmen : VtdPmenReg = record { epm = 0; rsvdp = 0; prs = 0 } in
    let m1 = vtd_reg_write m drhd pmen_reg_off (pack_vtd_pmen_reg pmen) in
    after (poll fuel prs_clear drhd pmen_reg_off m1) (λ v m2. some m2)

-- The capabilities that initialization asks for: both protected regions, and 3- or 4-level tables.
unfoldable pub supported : VtdCapReg → Bool
supported cap =
    (not (cap.plmr == 0) && not (cap.phmr == 0))
    && (not (bit_and cap.sagaw 0x2 == 0) || not (bit_and cap.sagaw 0x4 == 0))

pub im_set : ℕ → Bool
im_set v = not ((unpack_vtd_fectl_reg v).im == 0)

pub initialize : Option DrhdHandle → Machine → Bool × Machine
initialize none m = (false, m)
initialize (some drhd) m =
    let cap = vtd_reg_read m drhd cap_reg_off in
    let r = vtd_reg_read cap.1 drhd fectl_reg_off in
    let fectl : VtdFectlReg = unpack_vtd_fectl_reg r.0 in
    let m2 = vtd_reg_write r.1 drhd fectl_reg_off (pack_vtd_fectl_reg (record fectl { im = 1 })) in
    let again = vtd_reg_read m2 drhd fectl_reg_off in
    if supported (unpack_vtd_cap_reg cap.0) then (im_set again.0, again.1) else (false, cap.1)

pub icc_clear : ℕ → Bool
icc_clear v = (unpack_vtd_ccmd_reg v).icc == 0

pub ivt_clear : ℕ → Bool
ivt_clear v = (unpack_vtd_iotlb_reg v).ivt == 0

-- The IOTLB half of `invalidatecaches`; the record is cleared first.
pub invalidate_iotlb : ℕ → DrhdHandle → Machine → Option (Bool × Machine)
invalidate_iotlb fuel drhd m =
    let iotlb : VtdIotlbReg = unpack_vtd_iotlb_reg 0 in
    let m1 =
      vtd_reg_write m drhd iotlb_reg_off
        (pack_vtd_iotlb_reg (record iotlb { iirg = 1; ivt = 1 })) in
    after (poll fuel ivt_clear drhd iotlb_reg_off m1)
      (λ v m2. some ((unpack_vtd_iotlb_reg v).iaig == 1, m2))

-- The context-cache half: an earlier request ends, then a global one is made and awaited.
pub request_context : ℕ → DrhdHandle → Machine → Option (Bool × Machine)
request_context fuel drhd m =
    let ccmd : VtdCcmdReg = unpack_vtd_ccmd_reg 0 in
    let m1 =
      vtd_reg_write m drhd ccmd_reg_off (pack_vtd_ccmd_reg (record ccmd { cirg = 1; icc = 1 })) in
    after (poll fuel icc_clear drhd ccmd_reg_off m1)
      (λ v m2. some ((unpack_vtd_ccmd_reg v).caig == 1, m2))

pub invalidatecaches : ℕ → Option DrhdHandle → Machine → Option (Bool × Machine)
invalidatecaches fuel none m = some (false, m)
invalidatecaches fuel (some drhd) m = after (poll fuel icc_clear drhd ccmd_reg_off m) (λ v m1.
    after (request_context fuel drhd m1)
      (λ went_well m2. if went_well then invalidate_iotlb fuel drhd m2 else some (false, m2)))

pub set_phm_base_and_limit : Option DrhdHandle → ℕ → ℕ → Machine → Machine
set_phm_base_and_limit none base limit m = m
set_phm_base_and_limit (some drhd) base limit m =
    vtd_reg_write (vtd_reg_write m drhd phmbase_reg_off base) drhd phmlimit_reg_off limit

pub set_plm_base_and_limit : Option DrhdHandle → ℕ → ℕ → Machine → Machine
set_plm_base_and_limit none base limit m = m
set_plm_base_and_limit (some drhd) base limit m =
    vtd_reg_write (vtd_reg_write m drhd plmbase_reg_off (u32 base)) drhd plmlimit_reg_off
      (u32 limit)

pub rtps_set : ℕ → Bool
rtps_set v = not ((unpack_vtd_gsts_reg v).rtps == 0)

pub set_root_entry_table : Option DrhdHandle → ℕ → Machine → Bool × Machine
set_root_entry_table none ret_addr m = (false, m)
set_root_entry_table (some drhd) ret_addr m =
    let rtaddr = pack_vtd_rtaddr_reg (unpack_vtd_rtaddr_reg (u32 ret_addr)) in
    let m1 = vtd_reg_write m drhd rtaddr_reg_off rtaddr in
    let gcmd : VtdGcmdReg = unpack_vtd_gcmd_reg 0 in
    let m2 = vtd_reg_write m1 drhd gcmd_reg_off (pack_vtd_gcmd_reg (record gcmd { srtp = 1 })) in
    let r = vtd_reg_read m2 drhd gsts_reg_off in (rtps_set r.0, r.1)
