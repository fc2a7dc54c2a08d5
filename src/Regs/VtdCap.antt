-- ===== src/Regs/VtdCap.antt =====
-- src/hwm/include/xmhfhwm_vtd.h: the register VTD_CAP_REG, its packing and unpacking.
use uberspark.Base.{ℕ, ◌^◌, ◌<◌, ◌≡◌, arith, u64}
use uberspark.Regs.Field.{◌∪◌, put64, get64, top64, next64}

pub record VtdCapReg : Type 0 where
  pub nd : ℕ
  pub afl : ℕ
  pub rwbf : ℕ
  pub plmr : ℕ
  pub phmr : ℕ
  pub cm : ℕ
  pub sagaw : ℕ
  pub rsvdz0 : ℕ
  pub mgaw : ℕ
  pub zlr : ℕ
  pub isoch : ℕ
  pub fro : ℕ
  pub sps : ℕ
  pub rsvdz1 : ℕ
  pub psi : ℕ
  pub nfr : ℕ
  pub mamv : ℕ
  pub dwd : ℕ
  pub drd : ℕ
  pub rsvdz2 : ℕ

unfoldable pub pack_vtd_cap_reg : VtdCapReg → ℕ
pack_vtd_cap_reg s = u64 (
    put64 s.rsvdz2 0xff 56
    ∪ put64 s.drd 0x1 55
    ∪ put64 s.dwd 0x1 54
    ∪ put64 s.mamv 0x3f 48
    ∪ put64 s.nfr 0xff 40
    ∪ put64 s.psi 0x1 39
    ∪ put64 s.rsvdz1 0x1 38
    ∪ put64 s.sps 0xf 34
    ∪ put64 s.fro 0x3ff 24
    ∪ put64 s.isoch 0x1 23
    ∪ put64 s.zlr 0x1 22
    ∪ put64 s.mgaw 0x3f 16
    ∪ put64 s.rsvdz0 0x7 13
    ∪ put64 s.sagaw 0x1f 8
    ∪ put64 s.cm 0x1 7
    ∪ put64 s.phmr 0x1 6
    ∪ put64 s.plmr 0x1 5
    ∪ put64 s.rwbf 0x1 4
    ∪ put64 s.afl 0x1 3
    ∪ put64 s.nd 0x7 0)

unfoldable pub unpack_vtd_cap_reg : ℕ → VtdCapReg
unpack_vtd_cap_reg value = record {
  rsvdz2 = get64 value 56 0xff;
  drd = get64 value 55 0x1;
  dwd = get64 value 54 0x1;
  mamv = get64 value 48 0x3f;
  nfr = get64 value 40 0xff;
  psi = get64 value 39 0x1;
  rsvdz1 = get64 value 38 0x1;
  sps = get64 value 34 0xf;
  fro = get64 value 24 0x3ff;
  isoch = get64 value 23 0x1;
  zlr = get64 value 22 0x1;
  mgaw = get64 value 16 0x3f;
  rsvdz0 = get64 value 13 0x7;
  sagaw = get64 value 8 0x1f;
  cm = get64 value 7 0x1;
  phmr = get64 value 6 0x1;
  plmr = get64 value 5 0x1;
  rwbf = get64 value 4 0x1;
  afl = get64 value 3 0x1;
  nd = get64 value 0 0x7;
}

-- Unpacking loses no bit of the register.
pub pack_vtd_cap_reg-unpack_vtd_cap_reg :
    (v : ℕ) → v < 2 ^ 64 → pack_vtd_cap_reg (unpack_vtd_cap_reg v) ≡ v
unfolding pack_vtd_cap_reg unpack_vtd_cap_reg
pack_vtd_cap_reg-unpack_vtd_cap_reg v h = omega (
  arith,
  next64 0 3 v h (omega arith) (
      next64 3 1 v h (omega arith) (
        next64 4 1 v h (omega arith) (
          next64 5 1 v h (omega arith) (
            next64 6 1 v h (omega arith) (
              next64 7 1 v h (omega arith) (
                next64 8 5 v h (omega arith) (
                  next64 13 3 v h (omega arith) (
                    next64 16 6 v h (omega arith) (
                      next64 22 1 v h (omega arith) (
                        next64 23 1 v h (omega arith) (
                          next64 24 10 v h (omega arith) (
                            next64 34 4 v h (omega arith) (
                              next64 38 1 v h (omega arith) (
                                next64 39 1 v h (omega arith) (
                                  next64 40 8 v h (omega arith) (
                                    next64 48 6 v h (omega arith) (
                                      next64 54 1 v h (omega arith) (
                                        next64 55 1 v h (omega arith) (
                                          top64 56 8 v h (omega arith)
                                            (omega arith)))))))))))))))))))),
)
