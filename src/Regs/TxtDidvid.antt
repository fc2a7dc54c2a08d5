-- ===== src/Regs/TxtDidvid.antt =====
-- src/hwm/include/xmhfhwm_cpu.h: the register txt_didvid_t, its packing and unpacking.
use uberspark.Base.{ℕ, ◌^◌, ◌<◌, ◌≡◌, arith, u64}
use uberspark.Regs.Field.{◌∪◌, put64, get64, top64, next64}

pub record TxtDidvid : Type 0 where
  pub vendor_id : ℕ
  pub device_id : ℕ
  pub revision_id : ℕ
  pub reserved : ℕ

unfoldable pub pack_txt_didvid : TxtDidvid → ℕ
pack_txt_didvid s = u64 (
    put64 s.reserved 0xffff 48
    ∪ put64 s.revision_id 0xffff 32
    ∪ put64 s.device_id 0xffff 16
    ∪ put64 s.vendor_id 0xffff 0)

unfoldable pub unpack_txt_didvid : ℕ → TxtDidvid
unpack_txt_didvid value = record {
  reserved = get64 value 48 0xffff;
  revision_id = get64 value 32 0xffff;
  device_id = get64 value 16 0xffff;
  vendor_id = get64 value 0 0xffff;
}

-- Unpacking loses no bit of the register.
pub pack_txt_didvid-unpack_txt_didvid :
    (v : ℕ) → v < 2 ^ 64 → pack_txt_didvid (unpack_txt_didvid v) ≡ v
unfolding pack_txt_didvid unpack_txt_didvid
pack_txt_didvid-unpack_txt_didvid v h = omega (
  arith,
  next64 0 16 v h (omega arith) (
      next64 16 16 v h (omega arith)
        (next64 32 16 v h (omega arith) (top64 48 16 v h (omega arith) (omega arith)))),
)
