-- ===== src/Driver/Casm/Harness/Locking.antt =====
-- The harness: the driver of the lock, when the lock is free.
use uberspark.Base.{
  ℕ, suc, ◌⊎◌, ◌+◌, ◌-◌, ◌^◌, ◌≤◌, ◌<◌, ◌≡◌, inl, inr, refl, sym, ap, ◌∙◌, arith, u32, sub32, has,
  [], ◌∷◌, true, some,
}
use uberspark.Hwm.Obj.{Memory, load32, store32}
use uberspark.Hwm.Cpu.{Cpu, load}
use uberspark.Hwm.Cpu.Insn.{Insn, run, exec}
use uberspark.Hwm.Cpu.Jump.{ret}
use uberspark.Hwm.Cpu.Ranges.{InRange}
use uberspark.Driver.Casm.{casm_ret_eip, param_setup}
use uberspark.Driver.Casm.Frame.{load-param_setup}
use uberspark.Driver.Casm.Abi.{Ty, check, step}
use uberspark.Driver.Casm.Abi.Convention.{obeys, inside, entry}
use uberspark.Driver.Casm.Abi.Slots.{IsAway, same-load32, store-bytes}
use uberspark.Driver.Casm.Harness.{Harness, cabi_establish}
use uberspark.Driver.Casm.Harness.Laws.{Safe, Straight, Straight-Safe}
use uberspark.Driver.Casm.Harness.Drivers
use uberspark.Driver.Casm.Lock.{spin_lock, tested, locked}
use uberspark.Driver.Casm.LockLaws.{
  lock_at, word, called, taken, tested-free, locked-free, spin_lock-free,
}

-- A free lock is taken by straight-line code.
lock-Straight :
    (fuel : ℕ) (s : Cpu)
    → has (load s (lock_at s)) 1 ≡ true
    → Straight (spin_lock (suc fuel)) (Ty.away ∷ []) s
unfolding obeys check step run exec tested locked
lock-Straight fuel s free =
    let c = called s in
    let at_word : u32 (lock_at s + 0) ≡ lock_at s = omega arith in
    let is_free : has (word c) 1 ≡ true = ap (λ (p : ℕ). has (load s p) 1) at_word ∙ free in
    let runs : locked (tested c) ≡ taken c =
      ap locked (tested-free c is_free) ∙ locked-free c is_free in
    record {
      code =
          Insn.movl_mesp_ecx 0x4
          ∷ Insn.btl_imm_mecx 0x0 0x0
          ∷ Insn.lock
          ∷ Insn.btrl_imm_mecx 0x0 0x0
          ∷ [];
      accepted = refl;
      amounts = spin_lock-free s fuel free ∙ ap (λ (t : Cpu). some (ret t)) (sym runs);
    }

pushed-load32 :
    (m : Memory) (p w v : ℕ)
    → (w + 4 ≤ p) ⊎ (p + 4 ≤ w)
    → w + 4 ≤ 2 ^ 32
    → p + 4 ≤ 2 ^ 32
    → load32 (store32 m w v) p ≡ load32 m p
pushed-load32 m p w v off fits_w fits =
    same-load32 m (store32 m w v) p (store-bytes m p 4 w v off fits_w fits) fits

-- A word that is not of the stack keeps its value when a call pushes a parameter and the return address.
inside-load :
    (p q : ℕ) (s : Cpu)
    → 8 ≤ s.esp
    → s.esp < 2 ^ 32
    → (p + 4 ≤ s.esp - 8) ⊎ (s.esp ≤ p)
    → p + 4 ≤ 2 ^ 32
    → load (inside (q ∷ []) s) p ≡ load s p
unfolding inside exec param_setup
inside-load p q s room small off fits =
    let first = sub32 s.esp 4 in
    let second = sub32 first 4 in
    let m = s.machine.obj in
    ap u32 (
      pushed-load32 (store32 m first q) p second casm_ret_eip (second_off off) (omega arith) fits
      ∙ pushed-load32 m p first q (first_off off) (omega arith) fits)
  where
    first_off :
        (p + 4 ≤ s.esp - 8) ⊎ (s.esp ≤ p) → (sub32 s.esp 4 + 4 ≤ p) ⊎ (p + 4 ≤ sub32 s.esp 4)
    first_off (inl g) = inr (omega (arith, g, room, small))
    first_off (inr g) = inl (omega (arith, g, room, small))

    second_off :
        (p + 4 ≤ s.esp - 8) ⊎ (s.esp ≤ p)
        → (sub32 (sub32 s.esp 4) 4 + 4 ≤ p) ⊎ (p + 4 ≤ sub32 (sub32 s.esp 4) 4)
    second_off (inl g) = inr (omega (arith, g, room, small))
    second_off (inr g) = inl (omega (arith, g, room, small))

-- The driver of the lock passes if bit 0 of the lock word is set, which is how the lock says that it is
-- free, and one round of the loop is enough.
pub drv_spinlock-Safe :
    (watched lo fuel smplock : ℕ) (h : Harness)
    → InRange h.cpu
    → (watched < lo) ⊎ (h.cpu.esp ≤ watched)
    → lo + 64 ≤ h.cpu.esp
    → IsAway (entry lo watched h.cpu) smplock
    → has (load h.cpu smplock) 1 ≡ true
    → Safe watched (Drivers.drv_spinlock (suc fuel) smplock) h
unfolding cabi_establish inside exec param_setup
drv_spinlock-Safe watched lo fuel p h r out space away free =
    let s = (cabi_establish h).cpu in
    let u = inside (p ∷ []) s in
    let kept : load u p ≡ load s p =
      inside-load p p s (omega (arith, space)) r.esp_u32 (apart away.0) away.1.0 in
    let at : lock_at u ≡ p =
      load-param_setup (casm_ret_eip ∷ p ∷ []) 1 p s refl (omega (arith, away.1.0)) (omega arith)
        r.esp_u32 in
    Straight-Safe lo watched h (Drivers.drv_spinlock (suc fuel) p) (Ty.away ∷ []) r out
      (omega (arith, space)) refl (omega (arith, away.1.0), (away, tt))
      (lock-Straight fuel u
        (ap (λ (a : ℕ). has (load u a) 1) at ∙ ap (λ (v : ℕ). has v 1) kept ∙ free))
  where
    apart : (p + 4 ≤ lo) ⊎ (h.cpu.esp ≤ p) → (p + 4 ≤ h.cpu.esp - 8) ⊎ (h.cpu.esp ≤ p)
    apart (inl g) = inl (omega (arith, g, space))
    apart (inr g) = inr g
