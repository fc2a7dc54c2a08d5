-- ===== src/Regs/AcmodError.antt =====
-- src/hwm/include/xmhfhwm_cpu.h: the register acmod_error_t, its packing and unpacking.
use uberspark.Base.{ℕ, ◌/◌, ◌%◌, ◌-◌, ◌^◌, ◌<◌, ◌≡◌, ap, ◌∙◌, arith, u32}
use uberspark.Regs.Field.{◌∪◌, put32, get32, get32_lem, top32, next32}

pub record AcmodError : Type 0 where
  pub acm_type : ℕ
  pub progress : ℕ
  pub error : ℕ
  pub reserved : ℕ
  pub src : ℕ
  pub error2 : ℕ

unfoldable pub pack_acmod_error : AcmodError → ℕ
pack_acmod_error s = u32 (
    put32 s.error2 0x1 16
    ∪ put32 s.src 0x1 15
    ∪ put32 s.reserved 0x1 14
    ∪ put32 s.error 0xf 10
    ∪ put32 s.progress 0x3f 4
    ∪ put32 s.acm_type 0xf 0)

unfoldable pub unpack_acmod_error : ℕ → AcmodError
unpack_acmod_error value = record {
  error2 = get32 value 16 0x1;
  src = get32 value 15 0x1;
  reserved = get32 value 14 0x1;
  error = get32 value 10 0xf;
  progress = get32 value 4 0x3f;
  acm_type = get32 value 0 0xf;
}

-- The field of the lower bits alone.
low_field :
    (w k v : ℕ)
    → v < 2 ^ 32
    → v / 2 ^ k % 2 ^ w ≡ v % 2 ^ 17 / 2 ^ k % 2 ^ w
    → get32 v k (2 ^ w - 1) ≡ get32 (v % 2 ^ 17) k (2 ^ w - 1)
low_field w k v h e =
    let whole : u32 v ≡ v = omega arith in
    let low : u32 (v % 2 ^ 17) ≡ v % 2 ^ 17 = omega arith in
    rw (get32_lem w k v, get32_lem w k (v % 2 ^ 17), whole, low) (ap u32 e)

unpack_low : (v : ℕ) → v < 2 ^ 32 → unpack_acmod_error v ≡ unpack_acmod_error (v % 2 ^ 17)
unfolding unpack_acmod_error
unpack_low v h = λ i. record {
  error2 = low_field 1 16 v h (omega arith) i;
  src = low_field 1 15 v h (omega arith) i;
  reserved = low_field 1 14 v h (omega arith) i;
  error = low_field 4 10 v h (omega arith) i;
  progress = low_field 6 4 v h (omega arith) i;
  acm_type = low_field 4 0 v h (omega arith) i;
}

pack_low : (v : ℕ) → v < 2 ^ 17 → pack_acmod_error (unpack_acmod_error v) ≡ v
unfolding pack_acmod_error unpack_acmod_error
pack_low v h = omega (
  arith,
  next32 0 4 v (omega arith) (
      next32 4 6 v (omega arith) (
        next32 10 4 v (omega arith) (
          next32 14 1 v (omega arith)
            (next32 15 1 v (omega arith) (top32 16 1 v (omega arith) (omega arith)))))),
)

-- `error2` is declared with the 14 bits from bit 16 on, but its masks keep one bit, so of a register
-- below 2 ^ 32 only the low 17 bits come back.
pub pack_acmod_error-unpack_acmod_error :
    (v : ℕ) → v < 2 ^ 32 → pack_acmod_error (unpack_acmod_error v) ≡ v % 2 ^ 17
pack_acmod_error-unpack_acmod_error v h =
    ap pack_acmod_error (unpack_low v h) ∙ pack_low (v % 2 ^ 17) (omega arith)
