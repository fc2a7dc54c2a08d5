-- ===== src/Driver/Mtrr/Words.antt =====
-- src/libs/libxmhfhw/xmhfhw_cpu_mtrrsetmemtype.c: the words that `set_mem_type` writes, in the bits of
-- the registers.
use uberspark.Base.{
  ℕ, ◌+◌, ◌-◌, ◌*◌, ◌/◌, ◌%◌, ◌^◌, ◌<◌, ◌≡◌, arith, bit, bit_or-add, pow-le-pow, ◌>>◌,
}
use native.Mathlib.Nat.{one-le-pow}
use uberspark.Regs.Field.{◌∪◌, put64, put64_lem, get64_lem}
use uberspark.Regs.MtrrDefType.{MtrrDefType, pack_mtrr_def_type, unpack_mtrr_def_type}
use uberspark.Regs.MtrrPhysbase.{MtrrPhysbase, pack_mtrr_physbase}
use uberspark.Regs.MtrrPhysmask.{MtrrPhysmask, pack_mtrr_physmask, unpack_mtrr_physmask}

-- The fields of a register do not overlap: packing is a sum.
physmask_sum :
    (s : MtrrPhysmask)
    → pack_mtrr_physmask s
      ≡ s.reserved2 % 2 ^ 28 * 2 ^ 36
        + s.mask % 2 ^ 24 * 2 ^ 12
        + s.v % 2 * 2 ^ 11
        + s.reserved1 % 2 ^ 11
unfolding pack_mtrr_physmask
physmask_sum s =
    let top = put64 s.reserved2 0xfff_ffff 36 in
    let mid = put64 s.mask 0xff_ffff 12 in
    let low = put64 s.v 0x1 11 in
    let last = put64 s.reserved1 0x7ff 0 in
    let e0 : top ≡ s.reserved2 % 2 ^ 28 * 2 ^ 36 = omega (arith, put64_lem 28 36 s.reserved2) in
    let e1 : mid ≡ s.mask % 2 ^ 24 * 2 ^ 12 = omega (arith, put64_lem 24 12 s.mask) in
    let e2 : low ≡ s.v % 2 * 2 ^ 11 = omega (arith, put64_lem 1 11 s.v) in
    let e3 : last ≡ s.reserved1 % 2 ^ 11 = omega (arith, put64_lem 11 0 s.reserved1) in
    let f1 : top ∪ mid ≡ top + mid =
      bit_or-add 36 top mid (omega (arith, e0)) (omega (arith, e1)) in
    let f2 : top ∪ mid ∪ low ≡ top + mid + low =
      omega (
        arith,
        f1,
        bit_or-add 12 (top ∪ mid) low (omega (arith, f1, e0, e1)) (omega (arith, e2)),
      ) in
    let f3 : top ∪ mid ∪ low ∪ last ≡ top + mid + low + last = omega (
      arith,
      f2,
      bit_or-add 11 (top ∪ mid ∪ low) last (omega (arith, f2, e0, e1, e2)) (omega (arith, e3)),
    ) in
    omega (arith, f3, e0, e1, e2, e3)

physbase_sum :
    (s : MtrrPhysbase)
    → pack_mtrr_physbase s
      ≡ s.reserved2 % 2 ^ 28 * 2 ^ 36
        + s.base % 2 ^ 24 * 2 ^ 12
        + s.reserved1 % 2 ^ 4 * 2 ^ 8
        + s.type % 2 ^ 8
unfolding pack_mtrr_physbase
physbase_sum s =
    let top = put64 s.reserved2 0xfff_ffff 36 in
    let mid = put64 s.base 0xff_ffff 12 in
    let low = put64 s.reserved1 0xf 8 in
    let last = put64 s.type 0xff 0 in
    let e0 : top ≡ s.reserved2 % 2 ^ 28 * 2 ^ 36 = omega (arith, put64_lem 28 36 s.reserved2) in
    let e1 : mid ≡ s.base % 2 ^ 24 * 2 ^ 12 = omega (arith, put64_lem 24 12 s.base) in
    let e2 : low ≡ s.reserved1 % 2 ^ 4 * 2 ^ 8 = omega (arith, put64_lem 4 8 s.reserved1) in
    let e3 : last ≡ s.type % 2 ^ 8 = omega (arith, put64_lem 8 0 s.type) in
    let f1 : top ∪ mid ≡ top + mid =
      bit_or-add 36 top mid (omega (arith, e0)) (omega (arith, e1)) in
    let f2 : top ∪ mid ∪ low ≡ top + mid + low =
      omega (
        arith,
        f1,
        bit_or-add 12 (top ∪ mid) low (omega (arith, f1, e0, e1)) (omega (arith, e2)),
      ) in
    let f3 : top ∪ mid ∪ low ∪ last ≡ top + mid + low + last = omega (
      arith,
      f2,
      bit_or-add 8 (top ∪ mid ∪ low) last (omega (arith, f2, e0, e1, e2)) (omega (arith, e3)),
    ) in
    omega (arith, f3, e0, e1, e2, e3)

-- A mask with its valid bit taken out.
pub mask-off :
    (v : ℕ)
    → v < 2 ^ 64
    → pack_mtrr_physmask (record (unpack_mtrr_physmask v) { v = 0 }) ≡ v - 2 ^ 11 * bit v 11
unfolding unpack_mtrr_physmask
mask-off v h = omega (
  arith,
  physmask_sum (record (unpack_mtrr_physmask v) { v = 0 }),
  get64_lem 28 36 v,
  get64_lem 24 12 v,
  get64_lem 11 0 v,
)

-- A valid mask for 2 ^ place pages: the address bits above them, in the 24 bits of the field.
pub mask-word :
    (place : ℕ)
    → place < 20
    → pack_mtrr_physmask
        (record { reserved1 = 0; mask = 2 ^ 32 - 1 - (2 ^ place - 1); v = 1; reserved2 = 0 })
      ≡ (2 ^ 24 - 2 ^ place) * 2 ^ 12 + 2 ^ 11
mask-word place h = omega (
  arith,
  pow-le-pow place 20 h,
  one-le-pow place 2 (omega arith),
  physmask_sum
      (record { reserved1 = 0; mask = 2 ^ 32 - 1 - (2 ^ place - 1); v = 1; reserved2 = 0 }),
)

pub base-word :
    (base mem_type : ℕ)
    → base < 2 ^ 32
    → mem_type < 2 ^ 8
    → pack_mtrr_physbase
        (record { reserved1 = 0; base = base >> 12; type = mem_type; reserved2 = 0 })
      ≡ base / 2 ^ 12 * 2 ^ 12 + mem_type
base-word base mem_type h g = omega (
  arith,
  physbase_sum (record { reserved1 = 0; base = base >> 12; type = mem_type; reserved2 = 0 }),
)

def_type_sum :
    (s : MtrrDefType)
    → pack_mtrr_def_type s
      ≡ s.reserved3 % 2 ^ 20 * 2 ^ 44
        + s.reserved2 % 2 ^ 32 * 2 ^ 12
        + s.e % 2 * 2 ^ 11
        + s.fe % 2 * 2 ^ 10
        + s.reserved1 % 4 * 2 ^ 8
        + s.type % 2 ^ 8
unfolding pack_mtrr_def_type
def_type_sum s =
    let x5 = put64 s.reserved3 0xf_ffff 44 in
    let x4 = put64 s.reserved2 0xffff_ffff 12 in
    let x3 = put64 s.e 0x1 11 in
    let x2 = put64 s.fe 0x1 10 in
    let x1 = put64 s.reserved1 0x3 8 in
    let x0 = put64 s.type 0xff 0 in
    let e5 : x5 ≡ s.reserved3 % 2 ^ 20 * 2 ^ 44 = omega (arith, put64_lem 20 44 s.reserved3) in
    let e4 : x4 ≡ s.reserved2 % 2 ^ 32 * 2 ^ 12 = omega (arith, put64_lem 32 12 s.reserved2) in
    let e3 : x3 ≡ s.e % 2 * 2 ^ 11 = omega (arith, put64_lem 1 11 s.e) in
    let e2 : x2 ≡ s.fe % 2 * 2 ^ 10 = omega (arith, put64_lem 1 10 s.fe) in
    let e1 : x1 ≡ s.reserved1 % 4 * 2 ^ 8 = omega (arith, put64_lem 2 8 s.reserved1) in
    let e0 : x0 ≡ s.type % 2 ^ 8 = omega (arith, put64_lem 8 0 s.type) in
    let f4 : x5 ∪ x4 ≡ x5 + x4 = bit_or-add 44 x5 x4 (omega (arith, e5)) (omega (arith, e4)) in
    let f3 : x5 ∪ x4 ∪ x3 ≡ x5 + x4 + x3 =
      omega
        (arith, f4, bit_or-add 12 (x5 ∪ x4) x3 (omega (arith, f4, e5, e4)) (omega (arith, e3))) in
    let f2 : x5 ∪ x4 ∪ x3 ∪ x2 ≡ x5 + x4 + x3 + x2 = omega (
      arith,
      f3,
      bit_or-add 11 (x5 ∪ x4 ∪ x3) x2 (omega (arith, f3, e5, e4, e3)) (omega (arith, e2)),
    ) in
    let f1 : x5 ∪ x4 ∪ x3 ∪ x2 ∪ x1 ≡ x5 + x4 + x3 + x2 + x1 = omega (
      arith,
      f2,
      bit_or-add 10 (x5 ∪ x4 ∪ x3 ∪ x2) x1 (omega (arith, f2, e5, e4, e3, e2)) (omega (arith, e1)),
    ) in
    let f0 : x5 ∪ x4 ∪ x3 ∪ x2 ∪ x1 ∪ x0 ≡ x5 + x4 + x3 + x2 + x1 + x0 = omega (
      arith,
      f1,
      bit_or-add 8 (x5 ∪ x4 ∪ x3 ∪ x2 ∪ x1) x0 (omega (arith, f1, e5, e4, e3, e2, e1))
          (omega (arith, e0)),
    ) in
    omega (arith, f0, e5, e4, e3, e2, e1, e0)

-- The default type with its type uncachable (zero) and the fixed ranges off.
pub def_type-uncachable :
    (v : ℕ)
    → v < 2 ^ 64
    → pack_mtrr_def_type (record (unpack_mtrr_def_type v) { fe = 0; type = 0 })
      ≡ v - 2 ^ 10 * bit v 10 - v % 2 ^ 8
unfolding unpack_mtrr_def_type
def_type-uncachable v h = omega (
  arith,
  def_type_sum (record (unpack_mtrr_def_type v) { fe = 0; type = 0 }),
  get64_lem 20 44 v,
  get64_lem 32 12 v,
  get64_lem 1 11 v,
  get64_lem 2 8 v,
)
