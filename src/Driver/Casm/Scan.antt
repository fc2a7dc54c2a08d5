-- ===== src/Driver/Casm/Scan.antt =====
-- src/libs/libxmhfhw/xmhfhw_cpu_bsrl.cS: the place of the highest set bit.
use uberspark.Base.{
  ℕ, zero, suc, ◌+◌, ◌*◌, ◌/◌, ◌%◌, ◌^◌, ◌≤◌, ◌<◌, ◌≡◌, ◌⊎◌, inl, inr, refl, arith, u32, Option,
  some, none, has-cases,
}
use mathlib.Core.Option
use native.Mathlib.Nat.{pow-succ', one-le-pow}
use uberspark.Hwm.Cpu.{Cpu, load}
use uberspark.Hwm.Cpu.Alu.{highest, bsrl_mesp_eax}
use uberspark.Hwm.Cpu.Jump.{ret, retu32}
use uberspark.Driver.Casm.Vmx.{bsrl}

-- The highest place of a set bit, or none.
abbrev Highest : ℕ → Option ℕ → Type 0
Highest v none = v ≡ 0
Highest v (some i) = (2 ^ i ≤ v) × (v < 2 ^ suc i)

quotient-one : (v p : ℕ) → 0 < p → v / p % 2 ≡ 1 → p ≤ v
quotient-one v p hp h = grind arith

quotient-zero : (v p : ℕ) → 0 < p → v < 2 * p → v / p % 2 ≡ 0 → v < p
quotient-zero v p hp hv h = grind arith

highest-Highest : (v n : ℕ) → v < 2 ^ n → Highest v (highest v n)
unfolding highest
highest-Highest v zero h = omega arith
highest-Highest v (suc i) h = elim (has-cases i v) [
  | inl t ↦ rw (t.0) (quotient-one v (2 ^ i) (one-le-pow i 2 (omega arith)) t.1, h)
  | inr f ↦ rw (f.0) (
      highest-Highest v i
        (quotient-zero v (2 ^ i) (one-le-pow i 2 (omega arith)) (omega (arith, pow-succ' 2 i)) f.1))
]

bsrl_from : (s : Cpu) (r : Option ℕ) → Option (ℕ × Cpu)
bsrl_from s none = none
bsrl_from s (some i) = some (i, ret (record s { eax = i }))

bsrl_place :
    (s : Cpu) (v : ℕ) (r : Option ℕ)
    → Highest v r
    → ((v ≡ 0) × (bsrl_from s r ≡ none))
      ⊎ ((i : ℕ) × (2 ^ i ≤ v)
          × (v < 2 ^ suc i)
          × (bsrl_from s r ≡ some (i, ret (record s { eax = i }))))
unfolding bsrl_from
bsrl_place s v none h = inl (h, refl)
bsrl_place s v (some i) h = inr (i, h.0, h.1, refl)

bsrl_shape :
    (s : Cpu) (r : Option ℕ)
    → Option.map retu32 (Option.map (λ i. record s { eax = i }) r) ≡ bsrl_from s r
unfolding bsrl_from
bsrl_shape s none = refl
bsrl_shape s (some i) = refl

-- `bsrl` has no result if the mask on the stack is zero, and otherwise returns the place i of its
-- highest set bit, so that the mask is at least 2 ^ i and below 2 ^ (i + 1).
pub bsrl_lem :
    (s : Cpu)
    → (let v = load s (u32 (s.esp + 4)) in
        ((v ≡ 0) × (bsrl s ≡ none))
        ⊎ ((i : ℕ) × (2 ^ i ≤ v)
            × (v < 2 ^ suc i)
            × (bsrl s ≡ some (i, ret (record s { eax = i })))))
unfolding bsrl bsrl_mesp_eax
bsrl_lem s =
    let v = load s (u32 (s.esp + 4)) in
    rw (bsrl_shape s (highest v 32))
      (bsrl_place s v (highest v 32) (highest-Highest v 32 (omega arith)))
