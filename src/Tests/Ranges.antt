-- ===== src/Tests/Ranges.antt =====
-- The theorems on the memory type registers at concrete inputs: a processor whose registers are a
-- function, with ten variable ranges.
use uberspark.Base.{
  not, ◌&&◌, inl, ℕ, ◌^◌, ◌≤◌, ◌<◌, ◌≡◌, ◌≢◌, ◌⊎◌, inr, refl, arith, false, some, if◌then◌else◌,
  ◌==◌, ltb, u64, [], ◌∷◌, length, All,
}
use uberspark.Driver.Mtrr.{
  set_mem_type, var_count, save_mtrrs, restore_mtrrs, MtrrState, num_var_mtrrs,
}
use uberspark.Driver.Mtrr.Cover.{cover, pages, IsContiguous}
use uberspark.Driver.Mtrr.Mapping.{take, uncachable, turned_off, mapped, set_mem_type_lem}
use uberspark.Driver.Mtrr.RoundTrip.{IsMtrr, restore_mtrrs-save_mtrrs}
use uberspark.Driver.Mtrr.Validate.{
  validate_mtrrs, validate_mtrrs_lem, IsChecked, masks_ok, mask_ok, first_set, first_clear,
  types_ok, pairs_ok,
}
use uberspark.Regs.MtrrCap.{unpack_mtrr_cap}
use uberspark.Regs.Field.{get64}

-- The registers of a processor, in 64 bits; a write to the capabilities changes nothing.
abbrev Msrs : Type 0
Msrs = ℕ → ℕ

abbrev rd : Msrs → ℕ → ℕ
rd s n = u64 (s n)

abbrev wr : Msrs → ℕ → ℕ → Msrs
wr s n v = λ k. if n == k && not (n == 0x0fe) then v else s k

abbrev Accepted : ℕ → ℕ → Type 0
Accepted n v = (n ≢ 0x0fe) × (v < 2 ^ 64)

rd-wr : (s : Msrs) (n v : ℕ) → Accepted n v → rd (wr s n v) n ≡ v
rd-wr s n v h = ground arith

rd-wr_ne : (s : Msrs) (n k v : ℕ) → n ≢ k → Accepted n v → rd (wr s n v) k ≡ rd s k
rd-wr_ne s n k v h g = ground arith

rd-Accepted : (s : Msrs) (n : ℕ) → IsMtrr n → Accepted n (rd s n)
rd-Accepted s n (inl h) = (λ e. omega arith, omega arith)
rd-Accepted s n (inr h) = (λ e. omega arith, omega arith)

rd-lt : (s : Msrs) (n : ℕ) → rd s n < 2 ^ 64
rd-lt s n = omega arith

abbrev ten : Msrs
ten n = if n == 0x0fe then 0xd0a else 0

restore_mtrrs-save_mtrrs_example :
    rd (restore_mtrrs rd wr (save_mtrrs rd wr ten) (wr ten 0x201 0x800)) 0x201 ≡ rd ten 0x201
unfolding get64 unpack_mtrr_cap num_var_mtrrs
restore_mtrrs-save_mtrrs_example =
    restore_mtrrs-save_mtrrs rd wr Accepted rd-wr rd-wr_ne rd-Accepted rd-lt ten
      (wr ten 0x201 0x800) 0x201 (omega arith) (inr (omega arith, omega arith))

abbrev off : Msrs
off = uncachable rd wr ten

set_mem_type_example :
    (pages (cover 20 0x10_0000 5) ≡ 5)
    × IsContiguous 0x10_0000 (cover 20 0x10_0000 5)
    × (set_mem_type rd wr 21 0x10_0000 0x5000 6 ten ≡ (
        if ltb 16 10
        then some (false, off)
        else some (
          ltb (length (cover 20 0x10_0000 5)) 10,
          mapped rd wr 6 (take 10 (cover 20 0x10_0000 5)) 0 (turned_off rd wr 10 0 off),
        )))
unfolding uncachable
set_mem_type_example =
    set_mem_type_lem rd wr rd-lt 0x10_0000 0x5000 6 ten (omega arith) (omega arith) (omega arith)

abbrev saved : MtrrState
saved = record {
  mtrr_def_type = record { type = 0; reserved1 = 0; fe = 0; e = 1; reserved2 = 0; reserved3 = 0 };
  ranges =
      (
        record { type = 6; reserved1 = 0; base = 0x100; reserved2 = 0 },
        record { reserved1 = 0; v = 1; mask = 0xff_fff0; reserved2 = 0 },
      )
      ∷ [];
}

validate_mtrrs_example :
    (saved.mtrr_def_type.e ≡ 0)
    ⊎ ((length saved.ranges ≤ var_count rd wr ten) × All IsChecked saved.ranges)
unfolding validate_mtrrs get64 unpack_mtrr_cap var_count masks_ok mask_ok first_set first_clear
    types_ok pairs_ok
validate_mtrrs_example = validate_mtrrs_lem rd wr saved ten refl
