-- ===== src/Regs/TxtErrorcodeSw.antt =====
-- src/hwm/include/xmhfhwm_cpu.h: the register txt_errorcode_sw_t, its packing and unpacking.
use uberspark.Base.{ℕ, ◌^◌, ◌<◌, ◌≡◌, arith, u32}
use uberspark.Regs.Field.{◌∪◌, put32, get32, top32, next32}

pub record TxtErrorcodeSw : Type 0 where
  pub err1 : ℕ
  pub src : ℕ
  pub err2 : ℕ

unfoldable pub pack_txt_errorcode_sw : TxtErrorcodeSw → ℕ
pack_txt_errorcode_sw s = u32 (put32 s.err2 0x3fff 16 ∪ put32 s.src 0x1 15 ∪ put32 s.err1 0x7fff 0)

unfoldable pub unpack_txt_errorcode_sw : ℕ → TxtErrorcodeSw
unpack_txt_errorcode_sw value = record {
  err2 = get32 value 16 0x3fff;
  src = get32 value 15 0x1;
  err1 = get32 value 0 0x7fff;
}

-- Unpacking loses none of the 30 bits in use.
pub pack_txt_errorcode_sw-unpack_txt_errorcode_sw :
    (v : ℕ) → v < 2 ^ 30 → pack_txt_errorcode_sw (unpack_txt_errorcode_sw v) ≡ v
unfolding pack_txt_errorcode_sw unpack_txt_errorcode_sw
pack_txt_errorcode_sw-unpack_txt_errorcode_sw v h = omega (
  arith,
  next32 0 15 v (omega arith)
      (next32 15 1 v (omega arith) (top32 16 14 v (omega arith) (omega arith))),
)
