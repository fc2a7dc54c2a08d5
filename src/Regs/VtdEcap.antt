-- ===== src/Regs/VtdEcap.antt =====
-- src/hwm/include/xmhfhwm_vtd.h: the register VTD_ECAP_REG, its packing and unpacking.
use uberspark.Base.{ℕ, ◌^◌, ◌<◌, ◌≡◌, arith, u64}
use uberspark.Regs.Field.{◌∪◌, put64, get64, top64, next64}

pub record VtdEcapReg : Type 0 where
  pub c : ℕ
  pub qi : ℕ
  pub di : ℕ
  pub ir : ℕ
  pub eim : ℕ
  pub ch : ℕ
  pub pt : ℕ
  pub sc : ℕ
  pub iro : ℕ
  pub rsvdz0 : ℕ
  pub mhmv : ℕ
  pub rsvdz1 : ℕ
  pub rsvdz2 : ℕ

unfoldable pub pack_vtd_ecap_reg : VtdEcapReg → ℕ
pack_vtd_ecap_reg s = u64 (
    put64 s.rsvdz2 0xff 56
    ∪ put64 s.rsvdz1 0xffff_ffff 24
    ∪ put64 s.mhmv 0xf 20
    ∪ put64 s.rsvdz0 0x3 18
    ∪ put64 s.iro 0x3ff 8
    ∪ put64 s.sc 0x1 7
    ∪ put64 s.pt 0x1 6
    ∪ put64 s.ch 0x1 5
    ∪ put64 s.eim 0x1 4
    ∪ put64 s.ir 0x1 3
    ∪ put64 s.di 0x1 2
    ∪ put64 s.qi 0x1 1
    ∪ put64 s.c 0x1 0)

unfoldable pub unpack_vtd_ecap_reg : ℕ → VtdEcapReg
unpack_vtd_ecap_reg value = record {
  rsvdz2 = get64 value 56 0xff;
  rsvdz1 = get64 value 24 0xffff_ffff;
  mhmv = get64 value 20 0xf;
  rsvdz0 = get64 value 18 0x3;
  iro = get64 value 8 0x3ff;
  sc = get64 value 7 0x1;
  pt = get64 value 6 0x1;
  ch = get64 value 5 0x1;
  eim = get64 value 4 0x1;
  ir = get64 value 3 0x1;
  di = get64 value 2 0x1;
  qi = get64 value 1 0x1;
  c = get64 value 0 0x1;
}

-- Unpacking loses no bit of the register.
pub pack_vtd_ecap_reg-unpack_vtd_ecap_reg :
    (v : ℕ) → v < 2 ^ 64 → pack_vtd_ecap_reg (unpack_vtd_ecap_reg v) ≡ v
unfolding pack_vtd_ecap_reg unpack_vtd_ecap_reg
pack_vtd_ecap_reg-unpack_vtd_ecap_reg v h = omega (
  arith,
  next64 0 1 v h (omega arith) (
      next64 1 1 v h (omega arith) (
        next64 2 1 v h (omega arith) (
          next64 3 1 v h (omega arith) (
            next64 4 1 v h (omega arith) (
              next64 5 1 v h (omega arith) (
                next64 6 1 v h (omega arith) (
                  next64 7 1 v h (omega arith) (
                    next64 8 10 v h (omega arith) (
                      next64 18 2 v h (omega arith) (
                        next64 20 4 v h (omega arith) (
                          next64 24 32 v h (omega arith)
                            (top64 56 8 v h (omega arith) (omega arith))))))))))))),
)
