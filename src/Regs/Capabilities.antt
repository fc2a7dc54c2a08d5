-- ===== src/Regs/Capabilities.antt =====
-- src/hwm/include/xmhfhwm_cpu.h: the register capabilities_t, its packing and unpacking.
use uberspark.Base.{ℕ, ◌^◌, ◌<◌, ◌≡◌, arith, u32}
use uberspark.Regs.Field.{◌∪◌, put32, get32, top32, next32}

pub record Capabilities : Type 0 where
  pub chipset_present : ℕ
  pub undefined1 : ℕ
  pub enteraccs : ℕ
  pub exitac : ℕ
  pub senter : ℕ
  pub sexit : ℕ
  pub parameters : ℕ
  pub smctrl : ℕ
  pub wakeup : ℕ
  pub undefined9 : ℕ
  pub extended_leafs : ℕ

unfoldable pub pack_capabilities : Capabilities → ℕ
pack_capabilities s = u32 (
    put32 s.extended_leafs 0x1 31
    ∪ put32 s.undefined9 0x3f_ffff 9
    ∪ put32 s.wakeup 0x1 8
    ∪ put32 s.smctrl 0x1 7
    ∪ put32 s.parameters 0x1 6
    ∪ put32 s.sexit 0x1 5
    ∪ put32 s.senter 0x1 4
    ∪ put32 s.exitac 0x1 3
    ∪ put32 s.enteraccs 0x1 2
    ∪ put32 s.undefined1 0x1 1
    ∪ put32 s.chipset_present 0x1 0)

unfoldable pub unpack_capabilities : ℕ → Capabilities
unpack_capabilities value = record {
  extended_leafs = get32 value 31 0x1;
  undefined9 = get32 value 9 0x3f_ffff;
  wakeup = get32 value 8 0x1;
  smctrl = get32 value 7 0x1;
  parameters = get32 value 6 0x1;
  sexit = get32 value 5 0x1;
  senter = get32 value 4 0x1;
  exitac = get32 value 3 0x1;
  enteraccs = get32 value 2 0x1;
  undefined1 = get32 value 1 0x1;
  chipset_present = get32 value 0 0x1;
}

-- Unpacking loses no bit of the register.
pub pack_capabilities-unpack_capabilities :
    (v : ℕ) → v < 2 ^ 32 → pack_capabilities (unpack_capabilities v) ≡ v
unfolding pack_capabilities unpack_capabilities
pack_capabilities-unpack_capabilities v h = omega (
  arith,
  next32 0 1 v h (
      next32 1 1 v h (
        next32 2 1 v h (
          next32 3 1 v h (
            next32 4 1 v h (
              next32 5 1 v h (
                next32 6 1 v h (
                  next32 7 1 v h
                    (next32 8 1 v h (next32 9 22 v h (top32 31 1 v h (omega arith))))))))))),
)
