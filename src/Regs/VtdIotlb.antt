-- ===== src/Regs/VtdIotlb.antt =====
-- src/hwm/include/xmhfhwm_vtd.h: the register VTD_IOTLB_REG, its packing and unpacking.
use uberspark.Base.{ℕ, ◌^◌, ◌<◌, ◌≡◌, arith, u64}
use uberspark.Regs.Field.{◌∪◌, put64, get64, top64, next64}

pub record VtdIotlbReg : Type 0 where
  pub rsvdz0 : ℕ
  pub did : ℕ
  pub dw : ℕ
  pub dr : ℕ
  pub rsvdz1 : ℕ
  pub iaig : ℕ
  pub iirg : ℕ
  pub ivt : ℕ

unfoldable pub pack_vtd_iotlb_reg : VtdIotlbReg → ℕ
pack_vtd_iotlb_reg s = u64 (
    put64 s.ivt 0x1 63
    ∪ put64 s.iirg 0x7 60
    ∪ put64 s.iaig 0x7 57
    ∪ put64 s.rsvdz1 0x7f 50
    ∪ put64 s.dr 0x1 49
    ∪ put64 s.dw 0x1 48
    ∪ put64 s.did 0xffff 32
    ∪ put64 s.rsvdz0 0xffff_ffff 0)

unfoldable pub unpack_vtd_iotlb_reg : ℕ → VtdIotlbReg
unpack_vtd_iotlb_reg value = record {
  ivt = get64 value 63 0x1;
  iirg = get64 value 60 0x7;
  iaig = get64 value 57 0x7;
  rsvdz1 = get64 value 50 0x7f;
  dr = get64 value 49 0x1;
  dw = get64 value 48 0x1;
  did = get64 value 32 0xffff;
  rsvdz0 = get64 value 0 0xffff_ffff;
}

-- Unpacking loses no bit of the register.
pub pack_vtd_iotlb_reg-unpack_vtd_iotlb_reg :
    (v : ℕ) → v < 2 ^ 64 → pack_vtd_iotlb_reg (unpack_vtd_iotlb_reg v) ≡ v
unfolding pack_vtd_iotlb_reg unpack_vtd_iotlb_reg
pack_vtd_iotlb_reg-unpack_vtd_iotlb_reg v h = omega (
  arith,
  next64 0 32 v h (omega arith) (
      next64 32 16 v h (omega arith) (
        next64 48 1 v h (omega arith) (
          next64 49 1 v h (omega arith) (
            next64 50 7 v h (omega arith) (
              next64 57 3 v h (omega arith)
                (next64 60 3 v h (omega arith) (top64 63 1 v h (omega arith) (omega arith)))))))),
)
