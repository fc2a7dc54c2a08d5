-- ===== src/Regs/TxtVerFsbifEmif.antt =====
-- src/hwm/include/xmhfhwm_cpu.h: the register txt_ver_fsbif_emif_t, its packing and unpacking.
use uberspark.Base.{ℕ, ◌^◌, ◌<◌, ◌≡◌, arith, u64}
use uberspark.Regs.Field.{◌∪◌, put64, get64, top64, next64}

pub record TxtVerFsbifEmif : Type 0 where
  pub reserved : ℕ
  pub prod_fused : ℕ

unfoldable pub pack_txt_ver_fsbif_emif : TxtVerFsbifEmif → ℕ
pack_txt_ver_fsbif_emif s = u64 (put64 s.prod_fused 0x1 31 ∪ put64 s.reserved 0x7fff_ffff 0)

unfoldable pub unpack_txt_ver_fsbif_emif : ℕ → TxtVerFsbifEmif
unpack_txt_ver_fsbif_emif value = record {
  prod_fused = get64 value 31 0x1;
  reserved = get64 value 0 0x7fff_ffff;
}

-- Unpacking loses none of the 32 bits in use.
pub pack_txt_ver_fsbif_emif-unpack_txt_ver_fsbif_emif :
    (v : ℕ) → v < 2 ^ 32 → pack_txt_ver_fsbif_emif (unpack_txt_ver_fsbif_emif v) ≡ v
unfolding pack_txt_ver_fsbif_emif unpack_txt_ver_fsbif_emif
pack_txt_ver_fsbif_emif-unpack_txt_ver_fsbif_emif v h = omega (
  arith,
  next64 0 31 v (omega arith) (omega arith)
      (top64 31 1 v (omega arith) (omega arith) (omega arith)),
)
