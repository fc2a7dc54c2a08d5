-- ===== src/Regs/TxtErrorcode.antt =====
-- src/hwm/include/xmhfhwm_cpu.h: the register txt_errorcode_t, its packing and unpacking.
use uberspark.Base.{ℕ, ◌+◌, ◌*◌, ◌%◌, ◌^◌, ◌≡◌, arith, bit_or-add, u64, ◌/◌, ◌<◌}
use uberspark.Regs.Field.{◌∪◌, put64, get64, put64_lem, get64_lem}

pub record TxtErrorcode : Type 0 where
  pub type : ℕ
  pub external : ℕ
  pub valid : ℕ

unfoldable pub pack_txt_errorcode : TxtErrorcode → ℕ
pack_txt_errorcode s =
    u64 (put64 s.valid 0x3fff_ffff 31 ∪ put64 s.external 0x1 1 ∪ put64 s.type 0x1 0)

unfoldable pub unpack_txt_errorcode : ℕ → TxtErrorcode
unpack_txt_errorcode value = record {
  valid = get64 value 31 0x3fff_ffff;
  external = get64 value 1 0x1;
  type = get64 value 0 0x1;
}

-- Its fields do not overlap: packing is a sum.
pub pack_txt_errorcode_lem :
    (s : TxtErrorcode)
    → pack_txt_errorcode s
      ≡ s.valid % 2 ^ 30 * 2 ^ 31 + s.external % 2 ^ 1 * 2 ^ 1 + s.type % 2 ^ 1 * 2 ^ 0
unfolding pack_txt_errorcode
pack_txt_errorcode_lem s =
    let e0 : put64 s.valid 0x3fff_ffff 31 ≡ s.valid % 2 ^ 30 * 2 ^ 31 =
      omega (arith, put64_lem 30 31 s.valid) in
    let f1 : put64 s.external 0x1 1 ≡ s.external % 2 ^ 1 * 2 ^ 1 =
      omega (arith, put64_lem 1 1 s.external) in
    let e1 : put64 s.valid 0x3fff_ffff 31 ∪ put64 s.external 0x1 1
        ≡ s.valid % 2 ^ 30 * 2 ^ 31 + s.external % 2 ^ 1 * 2 ^ 1 =
      omega (
        arith,
        bit_or-add 2 (put64 s.valid 0x3fff_ffff 31) (put64 s.external 0x1 1) (omega arith)
            (omega arith),
      ) in
    let f2 : put64 s.type 0x1 0 ≡ s.type % 2 ^ 1 * 2 ^ 0 = omega (arith, put64_lem 1 0 s.type) in
    let e2 : put64 s.valid 0x3fff_ffff 31 ∪ put64 s.external 0x1 1 ∪ put64 s.type 0x1 0
        ≡ s.valid % 2 ^ 30 * 2 ^ 31 + s.external % 2 ^ 1 * 2 ^ 1 + s.type % 2 ^ 1 * 2 ^ 0 =
      omega (
        arith,
        bit_or-add 1 (put64 s.valid 0x3fff_ffff 31 ∪ put64 s.external 0x1 1) (put64 s.type 0x1 0)
            (omega arith) (omega arith),
      ) in
    omega arith

-- For a TXT error code below 2 ^ 32, packing what was unpacked keeps bit 31 and bits 1 and 0
-- alone: the masks of the two outer fields are swapped, so bits 2 to 30 are lost.
pub pack_txt_errorcode-unpack_txt_errorcode :
    (v : ℕ) → v < 2 ^ 32 → pack_txt_errorcode (unpack_txt_errorcode v) ≡ v / 2 ^ 31 * 2 ^ 31 + v % 4
unfolding unpack_txt_errorcode
pack_txt_errorcode-unpack_txt_errorcode v h = omega (
  arith,
  pack_txt_errorcode_lem (unpack_txt_errorcode v),
  get64_lem 30 31 v,
  get64_lem 1 1 v,
  get64_lem 1 0 v,
)
