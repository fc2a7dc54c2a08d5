-- ===== src/Driver/Mtrr.antt =====
-- src/libs/libxmhfhw/xmhfhw_cpu_mtrr{enabledisable,save,restore,setmemtype,validate}.c: the driver of
-- the memory type range registers. The registers belong to the processor, which is no code of the
-- repository (its own processor model has none of them but the capabilities), so the driver is
-- given the two calls that read and write a model specific register.
pub mod RoundTrip
pub mod Words
pub mod Cover
pub mod Mapping
pub mod Validate
use uberspark.Base.{
  ℕ, zero, suc, ◌+◌, ◌-◌, ◌*◌, ◌^◌, Bool, true, false, Option, some, none, List, [], ◌∷◌,
  if◌then◌else◌, u32, u64, sub32, ◌<<◌, ◌>>◌, ◌==◌, ltb, has,
}
use mathlib.Core.Option
use uberspark.Hwm.Cpu.Alu.{highest}
use uberspark.Regs.MtrrCap.{unpack_mtrr_cap}
use uberspark.Regs.MtrrDefType.{MtrrDefType, pack_mtrr_def_type, unpack_mtrr_def_type}
use uberspark.Regs.MtrrPhysbase.{MtrrPhysbase, pack_mtrr_physbase, unpack_mtrr_physbase}
use uberspark.Regs.MtrrPhysmask.{MtrrPhysmask, pack_mtrr_physmask, unpack_mtrr_physmask}

abbrev pub max_variable_mtrrs : ℕ
max_variable_mtrrs = 16

abbrev pub msr_mtrr_cap : ℕ
msr_mtrr_cap = 0x0fe

abbrev pub msr_mtrr_def_type : ℕ
msr_mtrr_def_type = 0x2ff

abbrev pub mtrr_phys_base0_msr : ℕ
mtrr_phys_base0_msr = 0x200

abbrev pub mtrr_phys_mask0_msr : ℕ
mtrr_phys_mask0_msr = 0x201

-- mtrr_state_t; the arrays by their first num_var_mtrrs entries, each a base with its mask.
pub record MtrrState : Type 0 where
  pub mtrr_def_type : MtrrDefType
  pub ranges : List (MtrrPhysbase × MtrrPhysmask)

-- `fls` calls the assembly function bsrl as a plain C function, which on a processor finds its
-- parameter on the stack; this is that call, with the search of the model of the instruction. (On the
-- hardware model of the processor, the parameter of such a call is not pushed.)
unfoldable pub fls : ℕ → Option ℕ
fls mask = if mask == 0 then some 0 else Option.map (λ i. i + 1) (highest mask 32)

-- `(uint32_t)fls(num_pages) - 1`, for a number of pages that is not zero
unfoldable pub shift_of : ℕ → ℕ
shift_of n = n - 1

module _ {S : Type 0} (rdmsr64 : S → ℕ → ℕ) (wrmsr64 : S → ℕ → ℕ → S) where
  unfoldable pub set_all_mtrrs : Bool → S → S
  set_all_mtrrs enable s =
      let mtrr_def_type = unpack_mtrr_def_type (rdmsr64 s msr_mtrr_def_type) in
      wrmsr64 s msr_mtrr_def_type
        (pack_mtrr_def_type (record mtrr_def_type { e = if enable then 1 else 0 }))

  -- The loop over the variable registers from `ndx` on.
  unfoldable pub save_ranges : ℕ → ℕ → S → List (MtrrPhysbase × MtrrPhysmask)
  save_ranges zero ndx s = []
  save_ranges (suc n) ndx s =
      (
        unpack_mtrr_physbase (rdmsr64 s (mtrr_phys_base0_msr + ndx * 2)),
        unpack_mtrr_physmask (rdmsr64 s (mtrr_phys_mask0_msr + ndx * 2)),
      )
      ∷ save_ranges n (ndx + 1) s

  -- The number of variable registers, at most MAX_VARIABLE_MTRRS.
  unfoldable pub num_var_mtrrs : S → ℕ
  num_var_mtrrs s =
      let mtrr_cap = unpack_mtrr_cap (rdmsr64 s msr_mtrr_cap) in
      if ltb max_variable_mtrrs mtrr_cap.vcnt then max_variable_mtrrs else mtrr_cap.vcnt

  unfoldable pub save_mtrrs : S → MtrrState
  save_mtrrs s = record {
    mtrr_def_type = unpack_mtrr_def_type (rdmsr64 s msr_mtrr_def_type);
    ranges = save_ranges (num_var_mtrrs s) 0 s;
  }

  unfoldable pub restore_ranges : List (MtrrPhysbase × MtrrPhysmask) → ℕ → S → S
  restore_ranges [] ndx s = s
  restore_ranges ((base, mask) ∷ r) ndx s = restore_ranges r (ndx + 1) (
      wrmsr64 (wrmsr64 s (mtrr_phys_mask0_msr + ndx * 2) (pack_mtrr_physmask mask))
        (mtrr_phys_base0_msr + ndx * 2) (pack_mtrr_physbase base))

  unfoldable pub restore_mtrrs : MtrrState → S → S
  restore_mtrrs saved_state s =
      wrmsr64 (restore_ranges saved_state.ranges 0 (set_all_mtrrs false s)) msr_mtrr_def_type
        (pack_mtrr_def_type saved_state.mtrr_def_type)

  -- set_mem_type: all variable registers off.
  unfoldable pub disable_ranges : ℕ → ℕ → S → S
  disable_ranges zero ndx s = s
  disable_ranges (suc n) ndx s =
      let mtrr_physmask = unpack_mtrr_physmask (rdmsr64 s (mtrr_phys_mask0_msr + ndx * 2)) in
      disable_ranges n (ndx + 1) (
        wrmsr64 s (mtrr_phys_mask0_msr + ndx * 2)
          (pack_mtrr_physmask (record mtrr_physmask { v = 0 })))

  -- One round: register `ndx` maps the largest power of two of pages, 2 ^ place of them.
  unfoldable pub map_range : ℕ → ℕ → ℕ → ℕ → S → S
  map_range base mem_type place ndx s =
      let mtrr_physbase = unpack_mtrr_physbase (rdmsr64 s (mtrr_phys_base0_msr + ndx * 2)) in
      let s1 = wrmsr64 s (mtrr_phys_base0_msr + ndx * 2) (
        pack_mtrr_physbase (record mtrr_physbase {
          reserved1 = 0;
          base = base >> 12;
          type = mem_type;
          reserved2 = 0;
        })) in
      wrmsr64 s1 (mtrr_phys_mask0_msr + ndx * 2) (
        pack_mtrr_physmask
          (record { reserved1 = 0; mask = 2 ^ 32 - 1 - (2 ^ place - 1); v = 1; reserved2 = 0 }))

  -- The loop, on fuel: the result and the registers, or none if a call of `fls` does not return or the
  -- fuel ends.
  unfoldable pub map_pages : ℕ → ℕ → ℕ → ℕ → ℕ → ℕ → S → Option (Bool × S)
  map_pages zero vcnt base num_pages mem_type ndx s = none
  map_pages (suc fuel) vcnt base num_pages mem_type ndx s = elim (num_pages == 0) [
    | true ↦ some (true, s)
    | false ↦ elim (fls num_pages) [
      | none ↦ none
      | some n ↦
          let place = shift_of n in
          let s1 = map_range base mem_type place ndx s in
          elim (ndx + 1 == vcnt) [
            | true ↦ some (false, s1)
            | false ↦
                map_pages fuel vcnt (u32 (base + 2 ^ place * 0x1000)) (sub32 num_pages (2 ^ place))
                  mem_type (ndx + 1) s1
          ]
    ]
  ]

  -- The default type set to uncachable, the fixed ranges off.
  unfoldable pub set_uncachable : S → S
  set_uncachable s =
      let mtrr_def_type = unpack_mtrr_def_type (rdmsr64 s msr_mtrr_def_type) in
      wrmsr64 s msr_mtrr_def_type (pack_mtrr_def_type (record mtrr_def_type { fe = 0; type = 0 }))

  unfoldable pub var_count : S → ℕ
  var_count s = (unpack_mtrr_cap (rdmsr64 s msr_mtrr_cap)).vcnt

  unfoldable pub set_mem_type : ℕ → ℕ → ℕ → ℕ → S → Option (Bool × S)
  set_mem_type fuel base size mem_type s =
      let s1 = set_uncachable s in
      let vcnt = var_count s1 in
      if ltb max_variable_mtrrs vcnt
      then some (false, s1)
      else map_pages fuel vcnt base (u32 (size + 0x1000 - 1) >> 12) mem_type 0
          (disable_ranges vcnt 0 s1)
